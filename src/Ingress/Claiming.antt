-- ===== src/Ingress/Claiming.antt =====
-- src/mattermost/ingress-queue.ts: taking a pending event, and taking stale claims back. A claim's
-- token is the reading of `randomUUID`. `shouldRecover` is awaited, so other operations of the
-- queue may run meanwhile: it is a function that also returns the table as it leaves it.
use openclaw_mattermost_cust.Base.{
  ℕ, suc, ◌+◌, Bool, true, false, not, ◌&&◌, ◌||◌, String, ◌==◌, Option, none, some, List, [], ◌∷◌,
  leb, if◌then◌else◌, or_else, is_some, any, find, Result, ok, ◌>>=◌,
}
use openclaw_mattermost_cust.Base.Table.{select_where}
use openclaw_mattermost_cust.Base.Text.{or_text, truthy}
use openclaw_mattermost_cust.Ingress.Row.{
  pending, claimed, same_status, Row, Table, has_key, has_status, column_is, select_row, Json,
  Queue, QueueRecord, QueueClaim, base_record, claim_record,
}
use openclaw_mattermost_cust.Ingress.Setup.{Error, Limit, IdOrClaim, id_from}
use openclaw_mattermost_cust.Ingress.Operations.{run_update, pending_window}

abbrev pub set_claimed : String → String → ℕ → Row → Row
set_claimed token owner at r = record r {
  status = claimed;
  claim_token = some token;
  claim_owner = some owner;
  claimed_at = some at;
  updated_at = at;
}

-- The same with `lane_key = COALESCE(?, lane_key)`.
abbrev pub set_claimed_in_lane : String → String → ℕ → Option String → Row → Row
set_claimed_in_lane token owner at lane r = record r {
  status = claimed;
  claim_token = some token;
  claim_owner = some owner;
  claimed_at = some at;
  lane_key = if is_some lane then lane else r.lane_key;
  updated_at = at;
}

abbrev pub set_recovered : ℕ → Row → Row
set_recovered at r = record r {
  status = pending;
  claim_token = none;
  claim_owner = none;
  claimed_at = none;
  attempts = r.attempts + 1;
  last_attempt_at = some at;
  updated_at = at;
}

abbrev pub takes : Queue → String → Row → Bool
takes q id r = has_key q.account_id id r && same_status r.status pending

-- `claimed_at <= cutoff`, where the cutoff is `current - staleMs`; NULL is not stale.
abbrev pub is_stale : ℕ → ℕ → Row → Bool
is_stale current stale r = elim r.claimed_at [ none ↦ false | some at ↦ leb (at + stale) current ]

abbrev pub stale_claim : Queue → ℕ → ℕ → Row → Bool
stale_claim q current stale r = has_status q.account_id claimed r && is_stale current stale r

-- The guard of the UPDATE that takes one stale claim back.
abbrev pub recovers : Queue → ℕ → ℕ → String → String → Row → Bool
recovers q current stale id token r =
    has_key q.account_id id r
    && same_status r.status claimed
    && column_is r.claim_token token
    && is_stale current stale r

module _ (json : Json) where
  abbrev claim_of : Queue → Bool → Option Row → Option (QueueClaim json)
  claim_of q hit none = none
  claim_of q hit (some r) = if hit then some (claim_record json q r) else none

  unfoldable pub claim :
      Queue
      → IdOrClaim
      → Option String
      → String
      → ℕ
      → Table
      → Result Error (Option (QueueClaim json) × Table)
  claim q ref owner token now t = do
    id ← id_from ref
    let changed = run_update (takes q id) (set_claimed token (or_text owner q.pid) now) t
    ok (claim_of q changed.0 (select_row q.account_id id changed.1), changed.1)

  pub record RecoverOptions : Type 0 where
    pub now : Option ℕ
    pub stale_ms : Option ℕ
    pub should_recover : Option (QueueClaim json → Table → Bool × Table)

  abbrev pub asked :
      Option (QueueClaim json → Table → Bool × Table) → QueueClaim json → Table → Bool × Table
  asked none c t = (true, t)
  asked (some f) c t = f c t

  -- One round of the loop over the rows that were stale when they were read.
  unfoldable pub recover_one :
      Queue → ℕ → ℕ → Option (QueueClaim json → Table → Bool × Table) → Row → Table → Bool × Table
  recover_one q current stale ask r t =
      let answer = asked ask (claim_record json q r) t in
      if answer.0
      then run_update (recovers q current stale r.event_id (or_else r.claim_token ""))
          (set_recovered current) answer.1
      else (false, answer.1)

  unfoldable pub recover_loop :
      Queue
      → ℕ
      → ℕ
      → Option (QueueClaim json → Table → Bool × Table)
      → List Row
      → ℕ
      → Table
      → ℕ × Table
  recover_loop q current stale ask [] n t = (n, t)
  recover_loop q current stale ask (r ∷ rs) n t =
      let round = recover_one q current stale ask r t in
      recover_loop q current stale ask rs (if round.0 then suc n else n) round.1

  -- The number of claims taken back, and the table.
  unfoldable pub recover_stale_claims : Queue → RecoverOptions → ℕ → Table → ℕ × Table
  recover_stale_claims q options now t =
      let current = or_else options.now now in
      let stale = or_else options.stale_ms 0 in
      recover_loop q current stale options.should_recover
        (select_where (stale_claim q current stale) t) 0 t

  pub record ClaimOptions : Type 0 where
    pub stale_ms : Option ℕ
    pub blocked_lane_keys : List String
    pub candidate_ids : Option (List String)
    pub order_by_id : Bool
    pub derive_lane_key : Option (QueueRecord json → Option String)
    pub reconcile_stored_lane_key : Option (QueueRecord json → String → String → Bool)
    pub scan_limit : Option Limit
    pub owner_id : Option String

  abbrev pub includes : List String → String → Bool
  includes ids id = any (λ other. other == id) ids

  abbrev pub derived_or_stored :
      (QueueRecord json → String → String → Bool)
      → QueueRecord json
      → String
      → Option String
      → Option String
  derived_or_stored agree r stored none = some stored
  derived_or_stored agree r stored (some lane) =
      if truthy (some lane) && not (lane == stored) && agree r stored lane
      then some lane
      else some stored

  abbrev derived_lane : Option (QueueRecord json → Option String) → QueueRecord json → Option String
  derived_lane none r = none
  derived_lane (some derive) r = derive r

  abbrev pub reconciled_lane :
      Option (QueueRecord json → Option String)
      → Option (QueueRecord json → String → String → Bool)
      → QueueRecord json
      → String
      → Option String
  reconciled_lane none agree r stored = some stored
  reconciled_lane (some derive) none r stored = some stored
  reconciled_lane (some derive) (some agree) r stored = derived_or_stored agree r stored (derive r)

  unfoldable pub resolve_claim_lane_key : ClaimOptions → QueueRecord json → Option String
  resolve_claim_lane_key o r =
      if truthy r.lane_key
      then reconciled_lane o.derive_lane_key o.reconcile_stored_lane_key r (or_else r.lane_key "")
      else derived_lane o.derive_lane_key r

  abbrev candidate : Option (List String) → String → Bool
  candidate none id = true
  candidate (some ids) id = includes ids id

  -- The test of `rows.find`.
  abbrev pub claimable : Queue → ClaimOptions → Row → Bool
  claimable q o r =
      candidate o.candidate_ids r.event_id
      && (let lane = resolve_claim_lane_key o (base_record json q r) in
          not (truthy lane) || not (includes o.blocked_lane_keys (or_else lane "")))

  abbrev pub take_selected :
      Queue → ClaimOptions → String → ℕ → Table → Option Row → Option (QueueClaim json) × Table
  take_selected q o token at t none = (none, t)
  take_selected q o token at t (some r) =
      let lane = resolve_claim_lane_key o (base_record json q r) in
      let changed =
        run_update (takes q r.event_id)
          (set_claimed_in_lane token (or_text o.owner_id q.pid) at lane) t in
      (claim_of q changed.0 (select_row q.account_id r.event_id changed.1), changed.1)

  -- The transaction of `claimNext`.
  unfoldable pub claim_first :
      Queue → ClaimOptions → String → ℕ → Table → Option (QueueClaim json) × Table
  claim_first q o token at t =
      take_selected q o token at t
        (find (claimable q o) (pending_window q o.order_by_id o.scan_limit t))

  abbrev pub recovered_first : Queue → Option ℕ → ℕ → Table → Table
  recovered_first q none now t = t
  recovered_first q (some stale) now t =
      (recover_stale_claims q (record { now = none; stale_ms = some stale; should_recover = none })
        now t).1

  -- Stale claims come back first, if a limit is given; then one event is taken.
  unfoldable pub claim_next :
      Queue → ClaimOptions → String → ℕ → ℕ → Table → Option (QueueClaim json) × Table
  claim_next q o token now at t = claim_first q o token at (recovered_first q o.stale_ms now t)
