-- ===== src/Ingress/Delivery.antt =====
-- src/mattermost/ingress-queue.ts: an event is stored once, and its claim carries what was stored.
use openclaw_mattermost_cust.Base.{
  ℕ, ◌≡◌, refl, ◌∙◌, ap, String, ◌==◌, eq_refl, eq_iff, Option, none, some, [], ◌∷◌, ◌++◌, arith,
  or_else, ok, inl, inr, Bool-cases,
}
use openclaw_mattermost_cust.Base.Table.{find-append_none}
use openclaw_mattermost_cust.Base.Text.{or_text}
use openclaw_mattermost_cust.Ingress.Row.{
  Row, Table, has_key, select_row, Json, Queue, QueueClaim, accepted, base_record, claim_record,
  duplicate_result, parse_column,
}
use openclaw_mattermost_cust.Ingress.Setup.{an_id, id_from, default_scope, queue_name_parts}
use openclaw_mattermost_cust.Ingress.Operations.{EnqueueOptions, enqueue, new_row, stringify_column}
use openclaw_mattermost_cust.Ingress.Claiming.{claim, set_claimed}
use openclaw_mattermost_cust.Ingress.History.{after}
use openclaw_mattermost_cust.Ingress.Custody.{Stored}
use openclaw_mattermost_cust.Ingress.Taking.{claim_hit}

module _ (json : Json) (q : Queue) (id : String) (payload : json.Value) (o : EnqueueOptions json)
    (now now' : ℕ) (t : Table) where
  -- An id that is stored already, in whatever status, is a duplicate: the table is unchanged, and
  -- the result reports the stored row under its status.
  pub enqueue_duplicate :
      (event_id : String) (r : Row)
      → id_from (an_id id) ≡ ok event_id
      → Stored q.account_id event_id r t
      → enqueue json q id payload o now now' t ≡ ok (duplicate_result json q r, t)
  unfolding enqueue
  enqueue_duplicate event_id r named e = rw named (rw (e, e) refl)

  Stored-new :
      (event_id : String)
      → select_row q.account_id event_id t ≡ none
      → (r : Row) → r.account_id ≡ q.account_id
      → r.event_id ≡ event_id
      → Stored q.account_id event_id r (t ++ r ∷ [])
  unfolding select_row
  Stored-new event_id e r mine same =
      find-append_none (has_key q.account_id event_id) t (r ∷ []) e
      ∙ rw (mine, same, eq_refl q.account_id, eq_refl event_id) refl

  -- A new id is accepted, and its row is stored as pending.
  pub enqueue_fresh :
      (event_id : String)
      → id_from (an_id id) ≡ ok event_id
      → select_row q.account_id event_id t ≡ none
      → (let r = new_row json q event_id payload o (or_else o.received_at now) now' in
          (enqueue json q id payload o now now' t
            ≡ ok (accepted (base_record json q r), t ++ r ∷ []))
          × Stored q.account_id event_id r (t ++ r ∷ []))
  unfolding enqueue
  enqueue_fresh event_id named e =
      let r = new_row json q event_id payload o (or_else o.received_at now) now' in
      let stored = Stored-new event_id e r refl refl in (rw named (rw (e, stored) refl), stored)

  parse_stringified : (v : Option json.Value) → parse_column json (stringify_column json v) ≡ v
  parse_stringified none = refl
  parse_stringified (some v) = ap some (json.parse-stringify v)

  -- The claim of a newly enqueued event carries the payload, the metadata and the lane that were
  -- enqueued, no attempt, and the claim's own token.
  pub claim-enqueue :
      (event_id : String) (owner : Option String) (token : String) (at : ℕ)
      → id_from (an_id id) ≡ ok event_id
      → select_row q.account_id event_id t ≡ none
      → (c : QueueClaim json) × (t' : Table) × (claim json q
            (an_id id)
            owner
            token
            at
            (after t (enqueue json q id payload o now now' t))
          ≡ ok (some c, t'))
        × (c.base.payload ≡ payload)
        × (c.base.metadata ≡ o.metadata)
        × (c.base.lane_key ≡ o.lane_key)
        × (c.base.attempts ≡ 0)
        × (c.token ≡ token)
  unfolding claim_record base_record
  claim-enqueue event_id owner token at named e =
      let r = new_row json q event_id payload o (or_else o.received_at now) now' in
      let (sent, stored) = enqueue_fresh event_id named e in
      let (t', taken, _) =
        claim_hit json q (an_id id) event_id named owner token at (t ++ r ∷ []) r stored refl in
      (
        claim_record json q (set_claimed token (or_text owner q.pid) at r),
        t',
        rw sent taken,
        json.parse-stringify payload,
        parse_stringified o.metadata,
        refl,
        refl,
        refl,
      )

-- The names of queues tell both the scope and the account apart.
pub queue_name_parts_injective :
    (scope scope' account account' : String)
    → queue_name_parts scope account ≡ queue_name_parts scope' account'
    → (scope ≡ scope') × (account ≡ account')
unfolding queue_name_parts
queue_name_parts_injective scope scope' account account' e =
    elim (Bool-cases (scope == default_scope)) [
      | inl plain ↦ elim (Bool-cases (scope' == default_scope)) [
        | inl plain' ↦ ground (arith, eq_iff scope default_scope, eq_iff scope' default_scope)
        | inr other' ↦ ground arith
      ]
      | inr other ↦ ground arith
    ]
