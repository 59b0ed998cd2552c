-- ===== src/AppWatcher/Follows.antt =====
-- One who reads the events of the watcher knows the apps.
use plain_text_gtd.Prelude.{
  ℕ, Bool, true, false, not, ◌&&◌, ◌||◌, List, [], ◌∷◌, ◌++◌, map, select, Option, none, some,
  Assoc, lookup, assign, remove, lookup-assign, lookup-remove, text_eq, nat_eq, ◌==◌, contains,
  contains-select, if◌then◌else◌, sort, insert, ◌≡◌, refl, sym, ap, ◌∙◌, arith, Bool-cases, inl,
  inr, All, eq→≡,
}
use mathlib.Core.Bool.{true≢false}
use plain_text_gtd.Queues.{or_false}
use plain_text_gtd.Text.{Text, is_empty}
use plain_text_gtd.AppWatcher.{
  App, ServiceEvent, service_registered, service_deregistered, str_or_blank, is_true, is_addressed,
  add_name, current_names, registrations, is_at_most, gone_names, write_events, names_kept, Watcher,
  new_watcher, watch_round,
}

-- What a reader does with an event.
unfoldable pub applied : ServiceEvent → Assoc Text Text → Assoc Text Text
unfolding assign remove text_eq
applied (service_registered name url) known = assign name url known
applied (service_deregistered name) known = remove name known

unfoldable pub applied_all : List ServiceEvent → Assoc Text Text → Assoc Text Text
unfolding applied
applied_all [] known = known
applied_all (event ∷ events) known = applied_all events (applied event known)

abbrev or_else : Option Text → Option Text → Option Text
or_else none old = old
or_else (some url) old = some url

-- The address of an app: that of the last entry which has the name and an address.
unfoldable pub url_of : Text → List App → Option Text
unfolding text_eq
url_of name [] = none
url_of name (app ∷ apps) = or_else (url_of name apps) (
    if is_addressed app && name == str_or_blank app.name then some (str_or_blank app.url) else none)

applied_all-append :
    (es fs : List ServiceEvent) (known : Assoc Text Text)
    → applied_all (es ++ fs) known ≡ applied_all fs (applied_all es known)
unfolding applied_all
applied_all-append [] fs known = refl
applied_all-append (e ∷ es) fs known = applied_all-append es fs (applied e known)

or_else_assoc : (a b c : Option Text) → or_else a (or_else b c) ≡ or_else (or_else a b) c
or_else_assoc none b c = refl
or_else_assoc (some a) b c = refl

or_else_if :
    (b : Bool) (a : Option Text) (url : Text) (c : Option Text)
    → or_else a (if b then some url else c) ≡ or_else (or_else a (if b then some url else none)) c
or_else_if true a url c = or_else_assoc a (some url) c
or_else_if false a url c = or_else_assoc a none c

none_either :
    (a b : Bool) (o : Option Text)
    → (if a then none else (if b then none else o)) ≡ (if b || a then none else o)
none_either true true o = refl
none_either true false o = refl
none_either false true o = refl
none_either false false o = refl

lookup-registrations :
    (name : Text) (apps : List App) (known : Assoc Text Text)
    → lookup name (applied_all (registrations apps) known)
      ≡ or_else (url_of name apps) (lookup name known)
unfolding registrations applied_all applied url_of
lookup-registrations name [] known = refl
lookup-registrations name (app ∷ apps) known = elim (Bool-cases (is_addressed app)) [
  | inr e ↦ rw (e) (
      lookup-registrations name apps known
      ∙ or_else_assoc (url_of name apps) none (lookup name known))
  | inl e ↦ rw (e) (
      lookup-registrations name apps (assign (str_or_blank app.name) (str_or_blank app.url) known)
      ∙ (rw (lookup-assign (str_or_blank app.name) name (str_or_blank app.url) known) (
          or_else_if (name == str_or_blank app.name) (url_of name apps) (str_or_blank app.url)
            (lookup name known))))
]

lookup-gone :
    (name : Text) (names : List Text) (known : Assoc Text Text)
    → lookup name (applied_all (map service_deregistered names) known)
      ≡ (if contains names name then none else lookup name known)
unfolding applied_all applied
lookup-gone name [] known = refl
lookup-gone name (n ∷ names) known =
    lookup-gone name names (remove n known)
    ∙ rw (lookup-remove n name known)
        (none_either (contains names name) (name == n) (lookup name known))

contains-insert :
    (n x : Text) (ys : List Text) → contains (insert is_at_most x ys) n ≡ (n == x || contains ys n)
unfolding insert
contains-insert n x [] = refl
contains-insert n x (y ∷ ys) = elim (Bool-cases (is_at_most x y)) [
  | inl e ↦ rw (e) refl
  | inr e ↦ rw (e, contains-insert n x ys) (ground arith)
]

contains-sort : (n : Text) (l : List Text) → contains (sort is_at_most l) n ≡ contains l n
unfolding sort
contains-sort n [] = refl
contains-sort n (x ∷ l) =
    contains-insert n x (sort is_at_most l) ∙ ap (λ b. n == x || b) (contains-sort n l)

contains-gone :
    (n : Text) (previous current : List Text)
    → contains (gone_names previous current) n ≡ (contains previous n && not (contains current n))
unfolding gone_names
contains-gone n previous current =
    contains-sort n (select (λ m. not (contains current m)) previous)
    ∙ contains-select n (λ m. not (contains current m)) previous

contains-add_name :
    (n x : Text) (l : List Text) → contains (add_name x l) n ≡ (n == x || contains l n)
unfolding add_name
contains-add_name n x l = elim (Bool-cases (contains l x)) [
  | inl e ↦ rw (e) (elim (Bool-cases (n == x)) [
    | inl q ↦ rw (q) (ap (contains l) (eq→≡ n x q) ∙ e)
    | inr q ↦ rw (q) refl
  ])
  | inr e ↦ rw (e) refl
]

abbrev is_given : Option Text → Bool
is_given none = false
is_given (some url) = true

contains-current :
    (n : Text) (apps : List App) → contains (current_names apps) n ≡ is_given (url_of n apps)
unfolding current_names url_of
contains-current n [] = refl
contains-current n (app ∷ apps) = elim (Bool-cases (is_addressed app)) [
  | inl e ↦
      rw
        (
          e,
          contains-add_name n (str_or_blank app.name) (current_names apps),
          contains-current n apps,
        )
        (given_or (n == str_or_blank app.name) (url_of n apps) (str_or_blank app.url))
  | inr e ↦ rw (e, contains-current n apps) (given_none (url_of n apps))
]
  where
    given_or :
        (b : Bool) (o : Option Text) (url : Text)
        → (b || is_given o) ≡ is_given (or_else o (if b then some url else none))
    given_or true none url = refl
    given_or true (some u) url = refl
    given_or false none url = refl
    given_or false (some u) url = refl

    given_none : (o : Option Text) → is_given o ≡ is_given (or_else o none)
    given_none none = refl
    given_none (some u) = refl

-- A name that is there is a text.
abbrev pub HasTextName : App → Type 0
HasTextName app = is_true app.name ≡ not (is_empty (str_or_blank app.name))

kept_tail :
    (b : Bool) (n x : Text) (rest : List Text)
    → contains (if b then add_name x rest else rest) n ≡ false
    → (contains rest n ≡ false) × (b ≡ true → (n == x) ≡ false)
kept_tail true n x rest h =
    let (q, r) = or_false (n == x) (contains rest n) (sym (contains-add_name n x rest) ∙ h) in
    (r, λ e. q)
kept_tail false n x rest h = (h, λ e. absurd (true≢false (sym e)))

named_of_addressed : (a b : Bool) → not (a || b) ≡ true → not a ≡ true
named_of_addressed true b e = e
named_of_addressed false b e = refl

kept-url_of :
    (n : Text) (apps : List App)
    → All HasTextName apps
    → contains (names_kept apps) n ≡ false
    → url_of n apps ≡ none
unfolding names_kept url_of
kept-url_of n [] t h = refl
kept-url_of n (app ∷ apps) t h =
    let (rest, other) =
      kept_tail (is_true app.name) n (str_or_blank app.name) (names_kept apps) h in
    elim (Bool-cases (is_addressed app)) [
      | inr e ↦ rw (kept-url_of n apps t.1 rest, e) refl
      | inl e ↦
          let named =
            t.0
            ∙ named_of_addressed (is_empty (str_or_blank app.name))
                (is_empty (str_or_blank app.url)) e in
          rw (kept-url_of n apps t.1 rest, e, other named) refl
    ]

-- What a reader knows, and what the watcher keeps, after the apps were read.
abbrev IsUpToDate : List App → Watcher → Assoc Text Text → Type 0
IsUpToDate apps w known =
    ((n : Text) → lookup n known ≡ url_of n apps)
    × ((n : Text) → contains w.previous_app_names n ≡ false → url_of n apps ≡ none)

settled :
    (o k : Option Text) (b : Bool)
    → (b ≡ false → k ≡ none)
    → (if b && not (is_given o) then none else or_else o k) ≡ o
settled (some u) k true h = refl
settled (some u) k false h = refl
settled none k true h = refl
settled none k false h = h refl

written-known :
    (old apps : List App) (w : Watcher) (known : Assoc Text Text)
    → IsUpToDate old w known
    → (n : Text)
    → lookup n (applied_all (write_events apps w.previous_app_names) known) ≡ url_of n apps
unfolding write_events
written-known old apps w known (k, p) n =
    let current = current_names apps in
    let gone = gone_names w.previous_app_names current in
    ap (lookup n) (applied_all-append (registrations apps) (map service_deregistered gone) known)
    ∙ lookup-gone n gone (applied_all (registrations apps) known)
    ∙ (rw
        (
          contains-gone n w.previous_app_names current,
          lookup-registrations n apps known,
          contains-current n apps,
        )
        (settled (url_of n apps) (lookup n known) (contains w.previous_app_names n)
          (λ a. k n ∙ p n a)))

-- Rounds of the watcher, each with the time of the file and the apps in it; a reader takes the events.
unfoldable pub watched : List (ℕ × List App) → Watcher → Assoc Text Text → Assoc Text Text
unfolding watch_round applied_all
watched [] w known = known
watched ((mtime, apps) ∷ rounds) w known =
    let (events, v) = watch_round mtime apps w in watched rounds v (applied_all events known)

-- The apps that were in the file when its time last changed.
unfoldable pub last_loaded : List (ℕ × List App) → ℕ → List App → List App
unfolding nat_eq
last_loaded [] before apps = apps
last_loaded ((mtime, new) ∷ rounds) before apps =
    if mtime == before then last_loaded rounds before apps else last_loaded rounds mtime new

abbrev pub HaveTextNames : ℕ × List App → Type 0
HaveTextNames (mtime, apps) = All HasTextName apps

watched-known :
    (rounds : List (ℕ × List App)) (apps : List App) (w : Watcher) (known : Assoc Text Text)
    → All HaveTextNames rounds
    → IsUpToDate apps w known
    → (n : Text)
    → lookup n (watched rounds w known) ≡ url_of n (last_loaded rounds w.last_mtime apps)
unfolding watched last_loaded watch_round applied_all
watched-known [] apps w known t u n = u.0 n
watched-known ((mtime, new) ∷ rounds) apps w known t u n =
    elim (Bool-cases (mtime == w.last_mtime)) [
      | inl e ↦ rw (e) (watched-known rounds apps w known t.1 u n)
      | inr e ↦ rw (e) (
          watched-known rounds new
            (record { last_mtime = mtime; previous_app_names = names_kept new })
            (applied_all (write_events new w.previous_app_names) known) t.1
            (written-known apps new w known u, λ m. kept-url_of m new t.0) n)
    ]

-- One who starts with nothing and takes every event of the watcher, from its first round on, knows the
-- apps that were in the file when its time last changed, each under its name with its address, and no
-- others, as long as the names in the file are texts: the events are enough, whatever apps came, went
-- and moved between.
pub watched_follows :
    (rounds : List (ℕ × List App)) (name : Text)
    → All HaveTextNames rounds
    → lookup name (watched rounds new_watcher []) ≡ url_of name (last_loaded rounds 0 [])
unfolding lookup url_of
watched_follows rounds name t =
    watched-known rounds [] new_watcher [] t (λ n. refl, λ n e. refl) name
