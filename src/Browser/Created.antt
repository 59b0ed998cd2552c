-- ===== src/Browser/Created.antt =====
-- What `create` does to the fleet.
use plain_text_gtd.Prelude.{
  ℕ, zero, suc, ◌+◌, ◌≤◌, Bool, true, false, [], ◌∷◌, ◌++◌, Option, none, some, Assoc, assign,
  text_eq, contains, map, leb, ◌==◌, ◌≡◌, ◌≢◌, refl, ap, ◌∙◌, arith, Bool-cases, inl, inr,
}
use mathlib.Core.List.{append_cancel_left}
use plain_text_gtd.Text.{Text, lit}
use plain_text_gtd.Text.Decimal.{decimal_text_injective}
use plain_text_gtd.Text.Unused.{first_unused_total}
use plain_text_gtd.Browser.{LiveBrowser, new_browser}
use plain_text_gtd.Browser.Names.{is_valid_browser_name}
use plain_text_gtd.Browser.Fleet.{
  BrowserSessionManager, Created, created, refused, no_name_found, names_of, live_count, suffixed,
  fresh_name, register_init, register_fresh, create, max_sessions,
}

-- A name that is not in use, found without a change to the registry.
IsFresh : BrowserSessionManager → Option Text × BrowserSessionManager → Type 0
IsFresh m r =
    (name : Text) × (r.0 ≡ some name)
    × (contains (names_of m) name ≡ false)
    × (r.1.browsers ≡ m.browsers)

suffixed_injective : (base : Text) (i j : ℕ) → suffixed base i ≡ suffixed base j → i ≡ j
suffixed_injective base i j e =
    decimal_text_injective i j (append_cancel_left (lit "-") _ _ (append_cancel_left base _ _ e))

fresh_name-IsFresh : (attempts : ℕ) (m : BrowserSessionManager) → IsFresh m (fresh_name attempts m)
unfolding IsFresh fresh_name
fresh_name-IsFresh zero m =
    let base = m.generated m.draws in
    let (n, e, (l, u, h)) =
      first_unused_total (suffixed base) (suffixed_injective base) (names_of m) in
    (suffixed base n, rw e refl, u, refl)
fresh_name-IsFresh (suc attempts) m =
    elim (Bool-cases (contains (names_of m) (m.generated m.draws))) [
      | inr e ↦ rw e (m.generated m.draws, refl, e, refl)
      | inl e ↦ rw e (fresh_name-IsFresh attempts (record m { draws = m.draws + 1 }))
    ]

assign_new :
    (name : Text) (b : LiveBrowser) (d : Assoc Text LiveBrowser)
    → contains (map (λ e. e.0) d) name ≡ false
    → assign name b d ≡ d ++ ((name, b) ∷ [])
unfolding assign
assign_new name b [] h = refl
assign_new name b (e ∷ d) h = elim (Bool-cases (name == e.0)) [
  | inl q ↦ ground arith
  | inr q ↦ rw q (ap (λ t. e ∷ t) (assign_new name b d (ground arith)))
]

live_count-append :
    (d : Assoc Text LiveBrowser) (name : Text) (clock : ℕ → ℕ)
    → live_count (d ++ ((name, new_browser clock) ∷ [])) ≡ live_count d + 1
unfolding live_count
live_count-append [] name clock = refl
live_count-append (e ∷ d) name clock = ground (arith, live_count-append d name clock)

-- A new browser at the end of the registry, under a name that was not in use, within the bound.
abbrev pub IsRegistered : BrowserSessionManager → (ℕ → ℕ) → Text → BrowserSessionManager → Type 0
IsRegistered m clock name t =
    (contains (names_of m) name ≡ false)
    × (t.browsers ≡ m.browsers ++ ((name, new_browser clock) ∷ []))
    × (live_count t.browsers ≡ live_count m.browsers + 1)
    × (live_count t.browsers ≤ max_sessions)

-- What `create` comes to: a browser is registered under the name that was asked for, which is valid,
-- or under a fresh one; or the registry stays as it was, for a reason that is not the want of a name.
abbrev pub IsOutcome :
    (ℕ → Bool)
    → BrowserSessionManager
    → (ℕ → ℕ)
    → Option Text
    → Created
    → BrowserSessionManager
    → Type 0
IsOutcome is_digit m clock none (created n) t = IsRegistered m clock n t
IsOutcome is_digit m clock (some k) (created n) t =
    IsRegistered m clock n t × (n ≡ k) × (is_valid_browser_name is_digit k ≡ true)
IsOutcome is_digit m clock asked (refused e) t = (t.browsers ≡ m.browsers) × (e ≢ no_name_found)

room : (n : ℕ) → leb max_sessions n ≡ false → n + 1 ≤ max_sessions
room n h = ground arith

register_init-IsRegistered :
    (m n : BrowserSessionManager) (clock : ℕ → ℕ) (name : Text)
    → n.browsers ≡ m.browsers
    → leb max_sessions (live_count m.browsers) ≡ false
    → contains (names_of m) name ≡ false
    → IsRegistered m clock name (register_init name clock n)
unfolding register_init
register_init-IsRegistered m n clock name q l u =
    let e =
      ap (assign name (new_browser clock)) q ∙ assign_new name (new_browser clock) m.browsers u in
    let c = ap live_count e ∙ live_count-append m.browsers name clock in
    (u, e, c, omega (arith, c, room (live_count m.browsers) l))

-- `create` gives an answer for every fleet. Where it makes a browser, this is registered under a name
-- that no other browser has, at the end of the registry, and no more than three browsers are then
-- alive; a name that was asked for is the one that is used, and is valid. Where it raises, the
-- registry stays as it was, and a name can always be generated.
pub create-IsOutcome :
    (is_digit : ℕ → Bool) (clock : ℕ → ℕ) (asked : Option Text) (m : BrowserSessionManager)
    → let (r, t) = create is_digit clock asked m in IsOutcome is_digit m clock asked r t
unfolding create IsFresh
create-IsOutcome is_digit clock none m =
    elim (Bool-cases (leb max_sessions (live_count m.browsers))) [
      | inl l ↦ rw l (refl, λ e. cc)
      | inr l ↦ rw l (fresh_outcome (fresh_name 50 m) l (fresh_name-IsFresh 50 m))
    ]
  where
    fresh_outcome :
        (r : Option Text × BrowserSessionManager)
        → leb max_sessions (live_count m.browsers) ≡ false
        → IsFresh m r
        → let (c, t) = register_fresh clock r in IsOutcome is_digit m clock none c t
    fresh_outcome (none, n) l (name, e, u, q) = cc
    fresh_outcome (some k, n) l (name, e, u, q) =
        register_init-IsRegistered m n clock k q l (ground arith)
create-IsOutcome is_digit clock (some k) m =
    elim (Bool-cases (leb max_sessions (live_count m.browsers))) [
      | inl l ↦ rw l (refl, λ e. cc)
      | inr l ↦ rw l (elim (Bool-cases (is_valid_browser_name is_digit k)) [
        | inr v ↦ rw v (refl, λ e. cc)
        | inl v ↦ rw v (elim (Bool-cases (contains (names_of m) k)) [
          | inl u ↦ rw u (refl, λ e. cc)
          | inr u ↦ rw u (register_init-IsRegistered m m clock k refl l u, refl, v)
        ])
      ])
    ]
