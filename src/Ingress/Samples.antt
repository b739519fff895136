-- ===== src/Ingress/Samples.antt =====
-- src/mattermost/ingress-queue.ts: small tables and options, and the model on them.
use openclaw_mattermost_cust.Base.{◌≡◌, refl, false, String, none, some, List, [], ◌∷◌, ok}
use openclaw_mattermost_cust.Base.Text.{trim, or_text, text_le}
use openclaw_mattermost_cust.Ingress.Row.{
  pending, completed, Row, select_row, Json, Queue, base_record, claim_record,
}
use openclaw_mattermost_cust.Ingress.Setup.{an_id, a_record, id_from, positive_limit}
use openclaw_mattermost_cust.Ingress.Operations.{
  EnqueueOptions, CompleteOptions, ReleaseOptions, FailOptions, pending_window,
}
use openclaw_mattermost_cust.Ingress.Claiming.{
  ClaimOptions, set_claimed, claim, claim_first, resolve_claim_lane_key,
}
use openclaw_mattermost_cust.Ingress.Maintenance.{
  PruneOptions, removed_rows, delete_rows, prune_status, prune,
}
use openclaw_mattermost_cust.Ingress.History.{Call, enqueues, claims_next}
use openclaw_mattermost_cust.Ingress.Keys.{IsKeyed}
use openclaw_mattermost_cust.Ingress.Consistency.{IsValid}

-- JSON over texts, each its own representation.
abbrev pub plain : Json
plain = record { Value = String; stringify = λ s. s; parse = λ s. s; parse-stringify = λ v. refl }

abbrev pub queue : Queue
queue = record { account_id = "a"; queue_name = "mattermost-custom" ∷ "a" ∷ []; pid = "7" }

abbrev pub other_queue : Queue
other_queue = record { account_id = "b"; queue_name = "mattermost-custom" ∷ "b" ∷ []; pid = "7" }

abbrev pub waiting : Row
waiting = record {
  account_id = "a";
  event_id = "e1";
  status = pending;
  lane_key = some "lane";
  payload_json = "hello";
  metadata_json = none;
  received_at = 5;
  updated_at = 6;
  attempts = 0;
  last_attempt_at = none;
  last_error = none;
  claim_token = none;
  claim_owner = none;
  claimed_at = none;
  completed_at = none;
  completed_metadata_json = none;
  failed_at = none;
  failed_reason = none;
}

abbrev pub earlier : Row
earlier = record waiting { event_id = "e2"; received_at = 3; lane_key = some "busy" }

abbrev pub held : Row
held = set_claimed "t1" "7" 9 waiting

abbrev pub done : Row
done = record waiting { status = completed; completed_at = some 9; payload_json = "null" }

abbrev pub no_release : ReleaseOptions
no_release = record { record_attempt = none; released_at = none; last_error = none }

abbrev pub no_fail : FailOptions
no_fail = record { failed_at = none; reason = "broken"; message = none }

abbrev pub no_complete : CompleteOptions plain
no_complete = record { completed_at = none; metadata = none }

abbrev pub no_enqueue : EnqueueOptions plain
no_enqueue = record { received_at = none; lane_key = some "lane"; metadata = some "m" }

abbrev pub keep_e1 : PruneOptions
keep_e1 = record {
  now = none;
  protect_ids = "e1" ∷ [];
  pending_ttl_ms = some 0;
  completed_ttl_ms = none;
  failed_ttl_ms = none;
  pending_max_entries = some 0;
  completed_max_entries = none;
  failed_max_entries = none;
}

abbrev pub skip_busy : ClaimOptions plain
skip_busy = record {
  stale_ms = none;
  blocked_lane_keys = "busy" ∷ [];
  candidate_ids = none;
  order_by_id = false;
  derive_lane_key = none;
  reconcile_stored_lane_key = none;
  scan_limit = none;
  owner_id = none;
}

-- `prune` deletes the pending row that is not protected.
prune_test : (prune queue keep_e1 100 (earlier ∷ waiting ∷ [])) ≡ (1, waiting ∷ [])
unfolding prune text_le prune_status delete_rows removed_rows
prune_test = refl

pub named : id_from (an_id "e1") ≡ ok "e1"
unfolding id_from trim
named = refl

pub named_held : id_from (a_record "e1" (some "t1")) ≡ ok "e1"
unfolding id_from trim
named_held = refl

pub claim_test :
    claim plain queue (an_id "e1") none "t1" 9 (waiting ∷ [])
    ≡ ok (some (claim_record plain queue held), held ∷ [])
unfolding claim id_from trim or_text select_row
claim_test = refl

-- The earlier event lies in a blocked lane.
pub claim_first_test :
    (claim_first plain queue skip_busy "t1" 9 (earlier ∷ waiting ∷ []))
    ≡ (some (claim_record plain queue held), earlier ∷ held ∷ [])
unfolding claim_first pending_window positive_limit text_le or_text select_row
    resolve_claim_lane_key base_record
claim_first_test = refl

pub waiting-IsValid : IsValid (waiting ∷ [])
unfolding select_row
waiting-IsValid = record { rows = ((refl, refl, refl), tt); keyed = (refl, tt) }

pub two-IsKeyed : IsKeyed (earlier ∷ waiting ∷ [])
unfolding select_row
two-IsKeyed = (refl, (refl, tt))

pub held-IsKeyed : IsKeyed (held ∷ [])
unfolding select_row
held-IsKeyed = (refl, tt)

-- Between the two claims another event is enqueued and one is claimed by order.
abbrev pub between : List (Queue × Call plain)
between = (queue, enqueues "e3" "x" no_enqueue 9 9) ∷ (queue, claims_next skip_busy "t2" 9 9) ∷ []
