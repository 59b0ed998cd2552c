-- ===== src/Backup/Quoted.antt =====
-- system/services/host_backup/src/host_backup/config.py: a value in double quotes is read as it stands.
use plain_text_gtd.Prelude.{
  ℕ, ◌-◌, Bool, true, false, not, ◌&&◌, List, [], ◌∷◌, ◌++◌, some, Assoc, lookup, lookup-assign,
  text_eq, nat_eq, ◌==◌, length, drop, take, leb, contains, ◌≡◌, refl, sym, ap, ◌∙◌, Bool-cases,
  inl, inr, arith, ≡→eq, length-append,
}
use mathlib.Core.Bool.{true≢false}
use plain_text_gtd.Text.{
  Text, lit, is_empty, is_space, lstrip, rstrip, strip, starts_with, ends_with,
}
use plain_text_gtd.Backup.Config.{
  partition, without_export, is_quoted_by, unquoted, setting, with_setting, parse_lines,
}

-- No character of a key is a space or an equals sign.
unfoldable pub is_plain : Text → Bool
unfolding is_space nat_eq
is_plain [] = true
is_plain (c ∷ key) = (not (is_space c) && not (c == 61)) && is_plain key

-- A key has a character, the first is no `#`, and none is a space or an equals sign.
unfoldable pub is_key : Text → Bool
unfolding is_plain nat_eq
is_key [] = false
is_key (c ∷ key) = not (c == 35) && is_plain (c ∷ key)

abbrev pub quoted : Text → Text
quoted value = 34 ∷ (value ++ (34 ∷ []))

plain_head :
    (c : ℕ) (key : Text)
    → is_plain (c ∷ key) ≡ true
    → (is_space c ≡ false) × (◌==◌ ⦃e = nat_eq⦄ c 61 ≡ false) × (is_plain key ≡ true)
unfolding is_plain
plain_head c key h = ground arith

partition-plain :
    (key rest : Text) → is_plain key ≡ true → partition (key ++ (61 ∷ rest)) ≡ some (key, rest)
unfolding partition nat_eq
partition-plain [] rest h = refl
partition-plain (c ∷ key) rest h =
    let (s, e, k) = plain_head c key h in rw (e, partition-plain key rest k) refl

not_empty : (s : Text) (q : ℕ) → is_empty (s ++ (q ∷ [])) ≡ false
not_empty [] q = refl
not_empty (c ∷ s) q = refl

rstrip-end :
    (s : Text) (q : ℕ) → is_space q ≡ false → rstrip is_space (s ++ (q ∷ [])) ≡ s ++ (q ∷ [])
unfolding rstrip
rstrip-end [] q h = rw h refl
rstrip-end (c ∷ s) q h =
    rw (rstrip-end s q h, not_empty s q)
      (elim (Bool-cases (is_space c)) [ inl e ↦ rw e refl | inr e ↦ rw e refl ])

rstrip-plain : (key : Text) → is_plain key ≡ true → rstrip is_space key ≡ key
unfolding rstrip
rstrip-plain [] h = refl
rstrip-plain (c ∷ key) h = let (s, e, k) = plain_head c key h in rw (s, rstrip-plain key k) refl

strip-plain : (key : Text) → is_plain key ≡ true → strip key ≡ key
unfolding strip lstrip
strip-plain [] h = refl
strip-plain (c ∷ key) h = let (s, e, k) = plain_head c key h in rw s (rstrip-plain (c ∷ key) h)

strip-ends :
    (c q : ℕ) (s : Text)
    → is_space c ≡ false
    → is_space q ≡ false
    → strip (c ∷ (s ++ (q ∷ []))) ≡ c ∷ (s ++ (q ∷ []))
unfolding strip lstrip
strip-ends c q s h k = rw h (rstrip-end (c ∷ s) q k)

no_start :
    (key p rest : Text)
    → is_plain key ≡ true
    → contains ⦃e = nat_eq⦄ p 32 ≡ true
    → contains ⦃e = nat_eq⦄ p 61 ≡ false
    → starts_with (key ++ (61 ∷ rest)) p ≡ false
unfolding starts_with is_plain is_space nat_eq
no_start [] [] rest h s e = absurd (true≢false (sym s))
no_start (c ∷ key) [] rest h s e = absurd (true≢false (sym s))
no_start [] (d ∷ p) rest h s e = ground arith
no_start (c ∷ key) (d ∷ p) rest h s e = ground (arith, no_start key p rest)

take-length : (v r : Text) → take (length v) (v ++ r) ≡ v
take-length [] r = take_none r
  where
    take_none : (r : Text) → take 0 r ≡ []
    take_none r = refl
take-length (c ∷ v) r = ap (λ t. c ∷ t) (take-length v r)

drop-length : (v r : Text) → drop (length v) (v ++ r) ≡ r
drop-length [] r = refl
drop-length (c ∷ v) r = drop-length v r

quoted-length : (value : Text) → length (quoted value) - 2 ≡ length value
quoted-length value = omega (arith, length-append value (34 ∷ []))

ends-last : (s : Text) (q : ℕ) → ends_with (s ++ (q ∷ [])) (q ∷ []) ≡ true
unfolding ends_with
ends-last s q = rw (longer, ≡→eq ⦃e = text_eq⦄ _ (q ∷ []) last) refl
  where
    longer : leb 1 (length (s ++ (q ∷ []))) ≡ true
    longer = ground (arith, length-append s (q ∷ []))

    one_less : length (s ++ (q ∷ [])) - 1 ≡ length s
    one_less = omega (arith, length-append s (q ∷ []))

    last : drop (length (s ++ (q ∷ [])) - 1) (s ++ (q ∷ [])) ≡ q ∷ []
    last = ap (λ k. drop k (s ++ (q ∷ []))) one_less ∙ drop-length s (q ∷ [])

quoted-by : (value : Text) → is_quoted_by 34 (quoted value) ≡ true
unfolding is_quoted_by starts_with nat_eq
quoted-by value = rw (longer, ends-last (34 ∷ value) 34) refl
  where
    longer : leb 2 (length (quoted value)) ≡ true
    longer = ground (arith, length-append value (34 ∷ []))

unquoted-quoted : (value : Text) → unquoted (quoted value) ≡ value
unfolding unquoted
unquoted-quoted value = rw (quoted-by value, quoted-length value) (take-length value (34 ∷ []))

line_end :
    (key value : Text) → key ++ (61 ∷ quoted value) ≡ (key ++ (61 ∷ (34 ∷ value))) ++ (34 ∷ [])
line_end [] value = refl
line_end (c ∷ key) value = ap (λ t. c ∷ t) (line_end key value)

strip-line :
    (c : ℕ) (key value : Text)
    → is_space c ≡ false
    → strip (c ∷ (key ++ (61 ∷ quoted value))) ≡ c ∷ (key ++ (61 ∷ quoted value))
unfolding is_space
strip-line c key value h =
    rw (line_end key value) (strip-ends c 34 (key ++ (61 ∷ (34 ∷ value))) h refl)

strip-quoted : (value : Text) → strip (quoted value) ≡ quoted value
unfolding is_space
strip-quoted value = strip-ends 34 34 value refl refl

no_comment :
    (c : ℕ) (s : Text) → ◌==◌ ⦃e = nat_eq⦄ c 35 ≡ false → starts_with (c ∷ s) (lit "#") ≡ false
unfolding starts_with nat_eq
no_comment c s h = rw h refl

without_export-line :
    (key value : Text)
    → is_plain key ≡ true
    → without_export (key ++ (61 ∷ quoted value)) ≡ key ++ (61 ∷ quoted value)
unfolding without_export nat_eq
without_export-line key value h = rw (no_start key (lit "export ") (quoted value) h refl refl) refl

setting-quoted :
    (key value : Text)
    → is_key key ≡ true
    → setting (key ++ (61 ∷ quoted value)) ≡ some (key, value)
unfolding setting is_key
setting-quoted [] value h = absurd (true≢false (sym h))
setting-quoted (c ∷ key) value h =
    let hash : ◌==◌ ⦃e = nat_eq⦄ c 35 ≡ false = ground arith in
    let plain : is_plain (c ∷ key) ≡ true = ground arith in
    let (space, e, k) = plain_head c key plain in
    rw
      (
        strip-line c key value space,
        no_comment c (key ++ (61 ∷ quoted value)) hash,
        without_export-line (c ∷ key) value plain,
        partition-plain (c ∷ key) (quoted value) plain,
        strip-plain (c ∷ key) plain,
      )
      (ap (λ v. some (c ∷ key, v)) (ap unquoted (strip-quoted value) ∙ unquoted-quoted value))

parse_lines-last :
    (lines : List Text) (line : Text) (result : Assoc Text Text)
    → parse_lines (lines ++ (line ∷ [])) result
      ≡ with_setting (setting line) (parse_lines lines result)
unfolding parse_lines
parse_lines-last [] line result = refl
parse_lines-last (l ∷ lines) line result =
    parse_lines-last lines line (with_setting (setting l) result)

-- Where the last line is a key, an equals sign and a value in double quotes, the value of the key is what
-- stands between the quotes, whatever that is and whatever the lines before it are. The key is not empty,
-- does not start with `#`, and has no space and no equals sign.
pub lookup-parse_lines-quoted :
    (lines : List Text) (key value : Text)
    → is_key key ≡ true
    → lookup ⦃e = text_eq⦄ key (parse_lines (lines ++ ((key ++ (61 ∷ quoted value)) ∷ [])) [])
      ≡ some value
lookup-parse_lines-quoted lines key value h =
    rw (parse_lines-last lines (key ++ (61 ∷ quoted value)) [], setting-quoted key value h)
      (lookup-assign ⦃e = text_eq⦄ key key value (parse_lines lines [])
        ∙ rw (≡→eq ⦃e = text_eq⦄ key key refl) refl)
