-- ===== src/Bands/Order.antt =====
-- bands.py: the order of the bands.
use plain_text_gtd.Prelude.{
  ℕ, ◌-◌, ◌*◌, ◌≤◌, ◌<◌, Bool, true, false, Option, none, some, arith, All, nat_eq, text_eq,
}
use plain_text_gtd.DataTypes.{ℤ, pos}
use plain_text_gtd.Bands.{
  worker_agent, agent_subprocess, chat_agent_base, chat_agent_floor, at_least_zero, smallest,
  recency_bonus, chat_agent_oom_score_adj, service_bands, shared_browser, shared_browser_floor,
  rounded, shared_browser_oom_score_adj,
}

recency_bonus-le : (rank : Option ℤ) → recency_bonus rank ≤ 120
unfolding recency_bonus
recency_bonus-le none = omega arith
recency_bonus-le (some rank) = omega arith

-- The bands of the services are below the floor of the chats.
services_below :
    (floor score : ℕ) → 300 ≤ floor → floor ≤ score → All (λ e. e.1 < score) service_bands
services_below floor score h k = (
  omega arith,
  (
    omega arith,
    (omega arith, (omega arith, (omega arith, (omega arith, (omega arith, (omega arith, tt)))))),
  ),
)

-- A chat is in the band of chats whatever its activity is: its score is from the floor to the base,
-- so that it is below the workers and above every service.
pub chat_agent_oom_score_adj_band :
    (is_open is_visible : Bool) (rank : Option ℤ)
    → (chat_agent_floor ≤ chat_agent_oom_score_adj is_open is_visible rank)
      × (chat_agent_oom_score_adj is_open is_visible rank ≤ chat_agent_base)
      × (chat_agent_oom_score_adj is_open is_visible rank < worker_agent)
      × All (λ e. e.1 < chat_agent_oom_score_adj is_open is_visible rank) service_bands
unfolding chat_agent_oom_score_adj
chat_agent_oom_score_adj_band is_open is_visible rank =
    let low : chat_agent_floor ≤ chat_agent_oom_score_adj is_open is_visible rank = ground arith in
    (low, ground arith, ground arith, services_below chat_agent_floor _ (omega arith) low)

-- The more a chat is used the better it is protected: opening it, showing it, or a message that is
-- more recent never raises its score, and a chat that was sent a message is no worse than one that
-- was not.
pub chat_agent_oom_score_adj_monotone :
    (is_open is_visible : Bool) (rank : Option ℤ) (m n : ℕ)
    → m ≤ n
    → (chat_agent_oom_score_adj true is_visible rank
        ≤ chat_agent_oom_score_adj false is_visible rank)
      × (chat_agent_oom_score_adj is_open true rank ≤ chat_agent_oom_score_adj is_open false rank)
      × (chat_agent_oom_score_adj is_open is_visible (some (pos m))
          ≤ chat_agent_oom_score_adj is_open is_visible (some (pos n)))
      × (chat_agent_oom_score_adj is_open is_visible rank
          ≤ chat_agent_oom_score_adj is_open is_visible none)
unfolding chat_agent_oom_score_adj recency_bonus
chat_agent_oom_score_adj_monotone is_open is_visible rank m n h =
    (ground arith, ground arith, ground arith, ground arith)

rounded_bounds : (n : ℕ) → n ≤ 90000 → rounded n 1000 ≤ 90
unfolding rounded
rounded_bounds n h = ground arith

module _ (value : ℤ) where
  -- What the code rounds.
  abbrev share : ℕ
  share = smallest 1000 (at_least_zero value) * (shared_browser - shared_browser_floor)

  share-le : share ≤ 90000
  share-le = ground arith

  -- Every process of the browser is shed before any process of an agent: its new value is from the
  -- floor of the browser band to its ceiling.
  pub shared_browser_oom_score_adj_band :
      (shared_browser_floor ≤ shared_browser_oom_score_adj value)
      × (shared_browser_oom_score_adj value ≤ shared_browser)
      × (agent_subprocess < shared_browser_oom_score_adj value)
  unfolding shared_browser_oom_score_adj
  shared_browser_oom_score_adj_band =
      (omega arith, omega (arith, rounded_bounds share share-le), omega arith)
