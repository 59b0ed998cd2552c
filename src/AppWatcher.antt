-- ===== src/AppWatcher.antt =====
-- system/services/app_watcher/src/app_watcher/watcher.py: the watcher of the registry of apps, which
-- writes an event for each app that is there and for each that is gone. `AppWatcher/Follows` has what
-- one who reads the events comes to know. A modification time is a number, 0 for a file that is not
-- there; the apps are what `_load_apps` reads at that time.
use plain_text_gtd.Prelude.{
  ℕ, Bool, true, false, not, ◌&&◌, ◌||◌, List, [], ◌∷◌, ◌++◌, map, select, Option, none, some,
  text_eq, nat_eq, ◌==◌, contains, if◌then◌else◌, sort, key_le, textual,
}
use plain_text_gtd.Text.{Text, is_empty}
pub mod Follows

-- A value of the file: a text, or another with what `str` makes of it and whether it counts as true.
pub data TomlValue : Type 0 where
  toml_text : Text → TomlValue
  toml_other : Text → Bool → TomlValue

-- An entry of the file, as far as it is read.
pub record App : Type 0 where
  pub name : Option TomlValue
  pub url : Option TomlValue

-- `ServiceRegisteredEvent` and `ServiceDeregisteredEvent`
pub data ServiceEvent : Type 0 where
  service_registered : Text → Text → ServiceEvent
  service_deregistered : Text → ServiceEvent

-- `str(app.get(key, ""))`
abbrev pub str_or_blank : Option TomlValue → Text
str_or_blank none = []
str_or_blank (some (toml_text t)) = t
str_or_blank (some (toml_other t truth)) = t

-- Whether `app.get(key)` counts as true.
abbrev pub is_true : Option TomlValue → Bool
is_true none = false
is_true (some (toml_text t)) = not (is_empty t)
is_true (some (toml_other t truth)) = truth

-- The other way round of `not name or not url`.
abbrev pub is_addressed : App → Bool
is_addressed app = not (is_empty (str_or_blank app.name) || is_empty (str_or_blank app.url))

-- `names.add(name)`; a set is a list without repetitions
unfoldable pub add_name : Text → List Text → List Text
unfolding text_eq
add_name name names = if contains names name then names else name ∷ names

-- `current_names` after the loop over the apps
unfoldable pub current_names : List App → List Text
unfolding add_name
current_names [] = []
current_names (app ∷ apps) =
    let rest = current_names apps in
    if is_addressed app then add_name (str_or_blank app.name) rest else rest

-- The events of the loop over the apps.
unfoldable pub registrations : List App → List ServiceEvent
registrations [] = []
registrations (app ∷ apps) =
    let rest = registrations apps in
    if is_addressed app
    then service_registered (str_or_blank app.name) (str_or_blank app.url) ∷ rest
    else rest

-- `a <= b` for texts
unfoldable pub is_at_most : Text → Text → Bool
unfolding key_le
is_at_most = key_le (textual (λ t. t) ∷ [])

-- `sorted(previous_app_names - current_names)`
unfoldable pub gone_names : List Text → List Text → List Text
unfolding sort is_at_most text_eq
gone_names previous current = sort is_at_most (select (λ n. not (contains current n)) previous)

-- `_write_events`
unfoldable pub write_events : List App → List Text → List ServiceEvent
unfolding registrations gone_names current_names
write_events apps previous =
    registrations apps ++ map service_deregistered (gone_names previous (current_names apps))

-- The names that the loop of `main` keeps.
unfoldable pub names_kept : List App → List Text
unfolding add_name
names_kept [] = []
names_kept (app ∷ apps) =
    let rest = names_kept apps in
    if is_true app.name then add_name (str_or_blank app.name) rest else rest

pub record Watcher : Type 0 where
  pub last_mtime : ℕ
  pub previous_app_names : List Text

abbrev pub new_watcher : Watcher
new_watcher = record { last_mtime = 0; previous_app_names = [] }

-- One round of the loop of `main`, where there is a directory of events.
unfoldable pub watch_round : ℕ → List App → Watcher → List ServiceEvent × Watcher
unfolding write_events names_kept nat_eq
watch_round mtime apps w = if mtime == w.last_mtime then ([], w) else (
  write_events apps w.previous_app_names,
  record { last_mtime = mtime; previous_app_names = names_kept apps },
)
