-- ===== src/Bands.antt =====
-- system/services/oom_priority/src/oom_priority/bands.py: the bands that say which process is shed
-- first when memory runs out. A higher band is shed earlier.
use plain_text_gtd.Prelude.{
  ℕ, ◌+◌, ◌-◌, ◌*◌, ◌/◌, ◌%◌, Bool, List, [], ◌∷◌, Option, none, some, Assoc, lookup, text_eq, ltb,
  leb, ◌==◌, nat_eq, if◌then◌else◌, ◌||◌, ◌&&◌,
}
use plain_text_gtd.Text.{Text, lit}
use plain_text_gtd.DataTypes.{ℤ, pos, negsuc}
pub mod Order
pub mod Ledger
pub mod Notices

abbrev pub protected : ℕ
protected = 0

abbrev pub user_agent : ℕ
user_agent = 300

abbrev pub worker_agent : ℕ
worker_agent = 600

abbrev pub agent_subprocess : ℕ
agent_subprocess = 900

abbrev pub chat_agent_base : ℕ
chat_agent_base = 560

abbrev pub chat_agent_floor : ℕ
chat_agent_floor = 300

-- `max(0, n)`
abbrev pub at_least_zero : ℤ → ℕ
at_least_zero (pos n) = n
at_least_zero (negsuc n) = 0

abbrev pub largest : ℕ → ℕ → ℕ
largest a b = if leb a b then b else a

abbrev pub smallest : ℕ → ℕ → ℕ
smallest a b = if leb a b then a else b

-- The bonus of a rank among the chats by their last message; the difference stops at 0, as the code's
-- `max(0, …)` does.
unfoldable pub recency_bonus : Option ℤ → ℕ
recency_bonus none = 0
recency_bonus (some rank) = 120 - 15 * at_least_zero rank

abbrev pub bonus_if : Bool → ℕ
bonus_if b = if b then 80 else 0

-- `chat_agent_oom_score_adj`; the bonuses are 280 together at most, so that no difference stops at 0
unfoldable pub chat_agent_oom_score_adj : Bool → Bool → Option ℤ → ℕ
unfolding recency_bonus
chat_agent_oom_score_adj is_open is_visible recency_rank = largest chat_agent_floor (
    smallest chat_agent_base
      (chat_agent_base - bonus_if is_open - bonus_if is_visible - recency_bonus recency_rank))

abbrev pub user_service : ℕ
user_service = 200

-- `SERVICE_BANDS`
abbrev pub service_bands : Assoc Text ℕ
service_bands =
    (lit "terminal", 10)
    ∷ (lit "system_interface", 20)
    ∷ (lit "cloudflared", 30)
    ∷ (lit "github-sync", 40)
    ∷ (lit "host-backup", 50)
    ∷ (lit "app-watcher", 60)
    ∷ (lit "web", 70)
    ∷ (lit "user", user_service)
    ∷ []

abbrev pub shared_browser : ℕ
shared_browser = 1000

abbrev pub shared_browser_floor : ℕ
shared_browser_floor = 910

-- `round(n / d)`: a half goes to the even neighbour.
unfoldable pub rounded : ℕ → ℕ → ℕ
unfolding nat_eq
rounded n d =
    let whole = n / d in
    let twice = 2 * (n % d) in
    if ltb twice d
    then whole
    else if ltb d twice
    then whole + 1
    else if whole % 2 == 0
    then whole
    else whole + 1

-- `shared_browser_oom_score_adj`
unfoldable pub shared_browser_oom_score_adj : ℤ → ℕ
unfolding rounded
shared_browser_oom_score_adj self_assigned =
    shared_browser_floor
    + rounded
        (smallest 1000 (at_least_zero self_assigned) * (shared_browser - shared_browser_floor)) 1000

-- `_NON_SERVICE_PROGRAM_BANDS`
abbrev pub non_service_program_bands : Assoc Text ℕ
non_service_program_bands =
    (lit "earlyoom", protected)
    ∷ (lit "oom-tag-backstop", protected)
    ∷ (lit "deferred-install", protected)
    ∷ (lit "browser", shared_browser)
    ∷ []

abbrev pub band_or : Option ℕ → ℕ → ℕ
band_or none default = default
band_or (some band) default = band

-- `supervisord_program_band`
unfoldable pub supervisord_program_band : Text → ℕ
unfolding lookup text_eq
supervisord_program_band program_name =
    band_or (lookup program_name service_bands)
      (band_or (lookup program_name non_service_program_bands) user_service)
