-- ===== src/Callback/Allowance.antt =====
-- src/mattermost/slash-http.ts: the lookups that a history of callbacks may make for one command.
use openclaw_mattermost_cust.Base.{
  ℕ, suc, ◌≤◌, Bool, true, ◌&&◌, String, ◌==◌, List, [], ◌∷◌, leb, length, if◌then◌else◌,
}
use openclaw_mattermost_cust.Callback.Limits.{Dates, Limits, max_keys, reserve}
use openclaw_mattermost_cust.Callback.Rate.{is_allowed}

-- A lookup that is to be made: its key, its account and the time.
pub record Wish : Type 0 where
  pub key : String
  pub account_id : String
  pub now : ℕ

module _ (dates : Dates) where
  unfoldable pub reserve_all : List Wish → Limits → Limits
  unfolding reserve
  reserve_all [] limits = limits
  reserve_all (w ∷ ws) limits = reserve_all ws (reserve dates w.key w.account_id w.now limits).1

  -- How many of the lookups of a key are allowed.
  unfoldable pub count_allowed : String → List Wish → Limits → ℕ
  unfolding reserve
  count_allowed k [] limits = 0
  count_allowed k (w ∷ ws) limits =
      let rest = count_allowed k ws (reserve dates w.key w.account_id w.now limits).1 in
      if w.key == k && is_allowed (reserve dates w.key w.account_id w.now limits).0
      then suc rest
      else rest

  -- Before every lookup, no more keys than the sweep keeps are there.
  unfoldable pub stays_small : List Wish → Limits → Bool
  unfolding reserve
  stays_small [] limits = true
  stays_small (w ∷ ws) limits =
      leb (length limits) max_keys
      && stays_small ws (reserve dates w.key w.account_id w.now limits).1

  -- The clock does not go back, and stays within the timestamps.
  abbrev pub Rises : ℕ → List Wish → Type 0
  Rises t [] = Unit
  Rises t (w ∷ ws) = (t ≤ w.now) × (w.now ≤ dates.last) × Rises w.now ws

  abbrev pub end_of : ℕ → List Wish → ℕ
  end_of t [] = t
  end_of t (w ∷ ws) = end_of w.now ws
