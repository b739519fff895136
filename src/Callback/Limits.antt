-- ===== src/Callback/Limits.antt =====
-- src/mattermost/slash-http.ts: the rate limit of the command lookups, one bucket of tokens for a key.
-- Times are milliseconds; the buckets are a Map, in the order in which they were added.
use openclaw_mattermost_cust.Base.{
  ℕ, ◌+◌, ◌-◌, ◌*◌, ◌/◌, ◌≤◌, ◌≡◌, Bool, true, false, String, Option, none, some, List, [], min,
  ltb, leb, eqb, if◌then◌else◌,
}
use openclaw_mattermost_cust.Base.Keyed.{value_at, put_at, remove_values, drop_oldest}

-- The SDK's `asDateTimestampMs` and `resolveExpiresAtMsFromDurationMs`. All times up to some last
-- one are timestamps.
pub record Dates : Type 0 where
  pub as_timestamp : ℕ → Option ℕ
  pub expires_after : ℕ → ℕ → Option ℕ
  pub last : ℕ
  pub timestamp : (n : ℕ) → n ≤ last → as_timestamp n ≡ some n

pub record Limit : Type 0 where
  pub account_id : String
  pub tokens : ℕ
  pub updated_at : ℕ
  pub last_log_at : ℕ

abbrev pub Limits : Type 0
Limits = List (String × Limit)

pub data Reservation : Type 0 where
  allowed : Reservation
  limited : Bool → Reservation

abbrev pub burst : ℕ
burst = 20

abbrev pub refill_ms : ℕ
refill_ms = 500

abbrev pub log_ms : ℕ
log_ms = 5000

abbrev pub max_keys : ℕ
max_keys = 2000

abbrev pub stale_ms : ℕ
stale_ms = refill_ms * burst * 2

abbrev pub new_limit : String → ℕ → Limit
new_limit account now = record {
  account_id = account;
  tokens = burst - 1;
  updated_at = now;
  last_log_at = 0;
}

abbrev pub refilled : ℕ → Limit → Limit
refilled now l =
    let refill = (now - l.updated_at) / refill_ms in
    if ltb 0 refill
    then record l {
      tokens = min burst (l.tokens + refill);
      updated_at = l.updated_at + refill * refill_ms;
    }
    else l

-- A token is taken, or the refusal is logged if the last log is long enough ago.
abbrev pub spend : ℕ → Limit → Reservation × Limit
spend now l =
    if eqb l.tokens 0
    then (if leb log_ms (now - l.last_log_at)
        then (limited true, record l { last_log_at = now })
        else (limited false, l))
    else (allowed, record l { tokens = l.tokens - 1 })

abbrev pub reserve_from : String → String → ℕ → Limits → Option Limit → Reservation × Limits
reserve_from key account now limits none = (allowed, put_at key (new_limit account now) limits)
reserve_from key account now limits (some l) =
    let spent = spend now (refilled now l) in (spent.0, put_at key spent.1 limits)

module _ (dates : Dates) where
  open dates use {as_timestamp}

  abbrev pub is_stale : ℕ → Limit → Bool
  is_stale now l = elim (as_timestamp l.updated_at) [
    | none ↦ true
    | some u ↦ ltb stale_ms (now - u)
  ]

  abbrev pub sweep_at : Option ℕ → Limits → Limits
  sweep_at none limits = []
  sweep_at (some now) limits = drop_oldest max_keys (remove_values (is_stale now) limits)

  unfoldable pub sweep_limits : ℕ → Limits → Limits
  sweep_limits now limits = sweep_at (as_timestamp now) limits

  abbrev pub reserve_at : String → String → Option ℕ → Limits → Reservation × Limits
  reserve_at key account none limits = (allowed, [])
  reserve_at key account (some now) limits =
      reserve_from key account now (sweep_limits now limits)
        (value_at key (sweep_limits now limits))

  unfoldable pub reserve : String → String → ℕ → Limits → Reservation × Limits
  unfolding sweep_limits
  reserve key account now limits = reserve_at key account (as_timestamp now) limits
