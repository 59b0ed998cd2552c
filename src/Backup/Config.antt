-- ===== src/Backup/Config.antt =====
-- system/services/host_backup/src/host_backup/config.py: the reading of restic.env.
use plain_text_gtd.Prelude.{
  ℕ, Bool, true, ◌&&◌, ◌||◌, ◌-◌, List, [], ◌∷◌, Option, none, some, Assoc, lookup, assign,
  lookup-assign, text_eq, nat_eq, ◌==◌, if◌then◌else◌, length, drop, take, select, leb, ◌≡◌, refl,
  ◌∙◌,
}
use plain_text_gtd.Text.{Text, lit, is_empty, is_space, lstrip, strip, starts_with, ends_with}
use plain_text_gtd.Text.Lines.{splitlines}

abbrev pub with_first : ℕ → Option (Text × Text) → Option (Text × Text)
with_first c none = none
with_first c (some (before, after)) = some (c ∷ before, after)

-- `line.partition("=")`, where the line has one
unfoldable pub partition : Text → Option (Text × Text)
unfolding nat_eq
partition [] = none
partition (c ∷ s) = let rest = partition s in if c == 61 then some ([], s) else with_first c rest

unfoldable pub without_export : Text → Text
unfolding starts_with lstrip is_space
without_export line =
    if starts_with line (lit "export ") then lstrip is_space (drop 7 line) else line

unfoldable pub is_quoted_by : ℕ → Text → Bool
unfolding starts_with ends_with
is_quoted_by quote value =
    leb 2 (length value) && (starts_with value (quote ∷ []) && ends_with value (quote ∷ []))

unfoldable pub unquoted : Text → Text
unfolding is_quoted_by
unquoted value =
    if is_quoted_by 34 value || is_quoted_by 39 value
    then take (length value - 2) (drop 1 value)
    else value

abbrev pub keyed : Text → Text → Option (Text × Text)
keyed key value = if is_empty key then none else some (key, unquoted value)

abbrev pub read_setting : Option (Text × Text) → Option (Text × Text)
read_setting none = none
read_setting (some (key, value)) = keyed (strip key) (strip value)

-- What one line sets
unfoldable pub setting : Text → Option (Text × Text)
unfolding strip starts_with partition without_export unquoted
setting raw_line =
    let line = strip raw_line in
    if is_empty line || starts_with line (lit "#")
    then none
    else read_setting (partition (without_export line))

abbrev pub with_setting : Option (Text × Text) → Assoc Text Text → Assoc Text Text
with_setting none result = result
with_setting (some (key, value)) result = assign ⦃e = text_eq⦄ key value result

-- The loop over the lines
unfoldable pub parse_lines : List Text → Assoc Text Text → Assoc Text Text
unfolding setting assign text_eq
parse_lines [] result = result
parse_lines (raw_line ∷ lines) result = parse_lines lines (with_setting (setting raw_line) result)

-- `parse_restic_env_file`
unfoldable pub parse_restic_env_file : Text → Assoc Text Text
unfolding parse_lines splitlines
parse_restic_env_file content = parse_lines (splitlines content) []

abbrev is_missing : Option Text → Bool
is_missing none = true
is_missing (some value) = is_empty value

-- `missing_required_restic_keys`
unfoldable pub missing_required_restic_keys : Assoc Text Text → List Text
unfolding lookup text_eq
missing_required_restic_keys env =
    select (λ key. is_missing (lookup key env))
      (lit "RESTIC_REPOSITORY" ∷ lit "RESTIC_PASSWORD" ∷ [])

-- What a line sets for a key, else what was there.
abbrev pub set_or : Text → Option (Text × Text) → Option Text → Option Text
set_or key none other = other
set_or key (some (k, value)) other = if ◌==◌ ⦃e = text_eq⦄ key k then some value else other

-- The value of the last line that sets the key, else another.
unfoldable pub last_set : Text → List Text → Option Text → Option Text
unfolding setting
last_set key [] other = other
last_set key (line ∷ lines) other = last_set key lines (set_or key (setting line) other)

lookup-with_setting :
    (key : Text) (s : Option (Text × Text)) (result : Assoc Text Text)
    → lookup ⦃e = text_eq⦄ key (with_setting s result)
      ≡ set_or key s (lookup ⦃e = text_eq⦄ key result)
lookup-with_setting key none result = refl
lookup-with_setting key (some (k, value)) result = lookup-assign ⦃e = text_eq⦄ k key value result

-- The value that the loop leaves for a key is that of the last line that sets it.
lookup-parse_lines :
    (key : Text) (lines : List Text) (result : Assoc Text Text)
    → lookup ⦃e = text_eq⦄ key (parse_lines lines result)
      ≡ last_set key lines (lookup ⦃e = text_eq⦄ key result)
unfolding parse_lines last_set
lookup-parse_lines key [] result = refl
lookup-parse_lines key (line ∷ lines) result =
    lookup-parse_lines key lines (with_setting (setting line) result)
    ∙ rw (lookup-with_setting key (setting line) result) refl
