-- ===== src/Browser/Fleet.antt =====
-- session.py, `BrowserSessionManager`: the registry of browsers by name, and `create`. The generator of
-- names is a parameter of the state, the names that it gives one after the other.
use plain_text_gtd.Prelude.{
  ℕ, zero, suc, ◌+◌, Bool, not, List, [], ◌∷◌, ◌++◌, Option, none, some, Assoc, assign, text_eq,
  contains, select, map, leb, if◌then◌else◌, ◌==◌,
}
use plain_text_gtd.Text.{Text, lit}
use plain_text_gtd.Text.Decimal.{decimal_text}
use plain_text_gtd.Text.Unused.{first_unused}
use plain_text_gtd.Browser.{LiveBrowser, new_browser, is_crashed}
use plain_text_gtd.Browser.Names.{is_valid_browser_name}

-- `_MAX_SESSIONS`, as it is without the environment variable.
abbrev pub max_sessions : ℕ
max_sessions = 3

pub record BrowserSessionManager : Type 0 where
  pub browsers : Assoc Text LiveBrowser
  pub failed_launch_names : List Text
  -- what the calls of `generate_browser_name` return, and how many were made
  pub generated : ℕ → Text
  pub draws : ℕ

pub data BrowserStartupError : Type 0 where
  fleet_full : ℕ → BrowserStartupError
  invalid_browser_name : Text → BrowserStartupError
  duplicate_browser_name : Text → BrowserStartupError
  no_name_found : BrowserStartupError

pub data Created : Type 0 where
  created : Text → Created
  refused : BrowserStartupError → Created

abbrev pub names_of : BrowserSessionManager → List Text
names_of m = map (λ e. e.0) m.browsers

-- `live_browsers`, as a count
unfoldable pub live_count : Assoc Text LiveBrowser → ℕ
live_count [] = 0
live_count (e ∷ browsers) =
    let rest = live_count browsers in if is_crashed e.1 then rest else rest + 1

-- `f"{base}-{suffix}"`
abbrev pub suffixed : Text → ℕ → Text
suffixed base n = base ++ (lit "-" ++ decimal_text n)

abbrev with_suffix : Text → Option ℕ → Option Text
with_suffix base none = none
with_suffix base (some n) = some (suffixed base n)

-- `_fresh_name_locked`, with the attempts that are left
unfoldable pub fresh_name : ℕ → BrowserSessionManager → Option Text × BrowserSessionManager
unfolding text_eq first_unused
fresh_name zero m =
    let base = m.generated m.draws in
    (with_suffix base (first_unused (suffixed base) (names_of m)), record m { draws = m.draws + 1 })
fresh_name (suc attempts) m =
    let candidate = m.generated m.draws in
    let drawn = record m { draws = m.draws + 1 } in
    let rest = fresh_name attempts drawn in
    if contains (names_of m) candidate then rest else (some candidate, drawn)

-- `_register_init_locked`
unfoldable pub register_init : Text → (ℕ → ℕ) → BrowserSessionManager → BrowserSessionManager
unfolding assign text_eq
register_init name clock m = record m {
  browsers = assign name (new_browser clock) m.browsers;
  failed_launch_names = select (λ n. not (n == name)) m.failed_launch_names;
}

abbrev pub register_fresh :
    (ℕ → ℕ) → Option Text × BrowserSessionManager → Created × BrowserSessionManager
register_fresh clock (none, m) = (refused no_name_found, m)
register_fresh clock (some name, m) = (created name, register_init name clock m)

-- `create`; `clock` is what the new browser will read
unfoldable pub create :
    (ℕ → Bool) → (ℕ → ℕ) → Option Text → BrowserSessionManager → Created × BrowserSessionManager
unfolding live_count fresh_name register_init is_valid_browser_name text_eq
create is_digit clock none m =
    if leb max_sessions (live_count m.browsers)
    then (refused (fleet_full (live_count m.browsers)), m)
    else register_fresh clock (fresh_name 50 m)
create is_digit clock (some name) m =
    if leb max_sessions (live_count m.browsers)
    then (refused (fleet_full (live_count m.browsers)), m)
    else if not (is_valid_browser_name is_digit name)
    then (refused (invalid_browser_name name), m)
    else if contains (names_of m) name
    then (refused (duplicate_browser_name name), m)
    else (created name, register_init name clock m)
