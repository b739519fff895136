-- ===== src/Callback/Caches.antt =====
-- src/mattermost/slash-http.ts: the three maps of the module: the validation failures that are
-- remembered, the lookups under way, and the limits.
use openclaw_mattermost_cust.Base.{
  ℕ, Bool, true, false, String, ◌==◌, Option, none, some, List, [], leb, if◌then◌else◌,
}
use openclaw_mattermost_cust.Base.Keyed.{value_at, put_at, remove_at, remove_values, drop_oldest}
use openclaw_mattermost_cust.Callback.Limits.{Dates, Limits, max_keys}

pub record Refusal : Type 0 where
  pub account_id : String
  pub expires_at : ℕ

abbrev pub Refusals : Type 0
Refusals = List (String × Refusal)

-- A lookup under way is known by its key and its account.
pub record Caches : Type 0 where
  pub refusals : Refusals
  pub inflight : List (String × String)
  pub limits : Limits

abbrev pub no_caches : Caches
no_caches = record { refusals = []; inflight = []; limits = [] }

unfoldable pub clear_account : String → Caches → Caches
clear_account id s = record {
  refusals = remove_values (λ r. r.account_id == id) s.refusals;
  inflight = remove_values (λ a. a == id) s.inflight;
  limits = remove_values (λ l. l.account_id == id) s.limits;
}

abbrev pub failure_ms : ℕ
failure_ms = 5000

module _ (dates : Dates) where
  open dates use {as_timestamp, expires_after}

  abbrev pub is_over : ℕ → Refusal → Bool
  is_over now r = elim (as_timestamp r.expires_at) [ none ↦ true | some e ↦ leb e now ]

  abbrev pub sweep_refusals_at : Option ℕ → Refusals → Refusals
  sweep_refusals_at none rs = []
  sweep_refusals_at (some now) rs = drop_oldest max_keys (remove_values (is_over now) rs)

  unfoldable pub sweep_refusals : ℕ → Refusals → Refusals
  sweep_refusals now rs = sweep_refusals_at (as_timestamp now) rs

  abbrev pub test_refusal : String → ℕ → Refusals → Option Refusal → Bool × Refusals
  test_refusal key now rs none = (false, rs)
  test_refusal key now rs (some r) = if is_over now r then (false, remove_at key rs) else (true, rs)

  abbrev pub has_refusal_at : String → Option ℕ → Refusals → Bool × Refusals
  has_refusal_at key none rs = (false, rs)
  has_refusal_at key (some now) rs = test_refusal key now rs (value_at key rs)

  unfoldable pub has_refusal : String → ℕ → Refusals → Bool × Refusals
  unfolding sweep_refusals
  has_refusal key now rs = has_refusal_at key (as_timestamp now) (sweep_refusals now rs)

  abbrev pub put_refusal : String → String → Option ℕ → Refusals → Refusals
  put_refusal key account none rs = remove_at key rs
  put_refusal key account (some e) rs =
      put_at key (record { account_id = account; expires_at = e }) rs

  unfoldable pub cache_refusal : String → String → ℕ → Refusals → Refusals
  unfolding sweep_refusals
  cache_refusal key account now rs =
      put_refusal key account (expires_after failure_ms now) (sweep_refusals now rs)
