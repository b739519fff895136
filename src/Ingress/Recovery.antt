-- ===== src/Ingress/Recovery.antt =====
-- src/mattermost/ingress-queue.ts: stale claims come back, and a claim that was refreshed or taken
-- anew while `shouldRecover` was awaited does not.
use openclaw_mattermost_cust.Base.{
  ℕ, suc, ◌+◌, ◌≤◌, ◌≡◌, refl, ap, subst, ◌⊎◌, true, false, Bool, ◌&&◌, String, eq_refl, eq_iff,
  Option, none, some, inl, inr, arith, if◌then◌else◌, leb, Option-cases, or_else, Bool-cases,
}
use openclaw_mattermost_cust.Ingress.Row.{
  Status, pending, claimed, completed, failed, same_status, Row, Table, column_is, Json, Queue,
  QueueClaim, claim_record,
}
use openclaw_mattermost_cust.Ingress.Claiming.{
  set_recovered, is_stale, recovers, asked, recover_one,
}
use openclaw_mattermost_cust.Ingress.Keys.{IsKeyed, select_row_keys}
use openclaw_mattermost_cust.Ingress.Custody.{Stored}
use openclaw_mattermost_cust.Ingress.Taking.{run_update_lem}

module _ (json : Json) (q : Queue) (current stale : ℕ)
    (ask : Option (QueueClaim json → Table → Bool × Table)) (seen : Row) (t : Table) where
  -- The token that was read with the row.
  abbrev token : String
  token = or_else seen.claim_token ""

  abbrev answer : Bool × Table
  answer = asked json ask (claim_record json q seen) t

  abbrev still_stale : Row → Bool
  still_stale r =
      same_status r.status claimed && column_is r.claim_token token && is_stale current stale r

  recovers_iff :
      (r : Row)
      → Stored q.account_id seen.event_id r answer.1
      → recovers q current stale seen.event_id token r ≡ still_stale r
  recovers_iff r e =
      let (mine, same) = select_row_keys q.account_id seen.event_id answer.1 r e in
      rw (mine, same, eq_refl q.account_id, eq_refl seen.event_id) refl

  recover_one-recovers :
      (r : Row)
      → IsKeyed answer.1
      → Stored q.account_id seen.event_id r answer.1
      → (let back = answer.0 && still_stale r in
          let result = recover_one json q current stale ask seen t in
          (result.0 ≡ back)
          × Stored q.account_id seen.event_id (if back then set_recovered current r else r) result.1
          × ((back ≡ true) ⊎ (result.1 ≡ answer.1)))
  unfolding recover_one
  recover_one-recovers r k e = elim (Bool-cases answer.0) [
    | inl agreed ↦
        rw (agreed, ← recovers_iff r e)
          (run_update_lem (recovers q current stale seen.event_id token) (set_recovered current)
            q.account_id seen.event_id (λ a i s. refl) (λ s h. ground arith) answer.1 r k e)
    | inr refused ↦ rw refused (refl, e, inr refl)
  ]

  -- The row is claimed under the token that was read, since the time of the limit or longer.
  abbrev pub IsDue : Row → Type 0
  IsDue r =
      (r.status ≡ claimed)
      × (r.claim_token ≡ some token)
      × ((at : ℕ) × (r.claimed_at ≡ some at) × (at + stale ≤ current))

  -- The row `s` is pending and free, with one more attempt made now, and is else like `r`.
  abbrev pub Returns : Row → Row → Type 0
  Returns r s =
      (s.status ≡ pending)
      × (s.claim_token ≡ none)
      × (s.claim_owner ≡ none)
      × (s.claimed_at ≡ none)
      × (s.attempts ≡ suc r.attempts)
      × (s.last_attempt_at ≡ some current)
      × (s.updated_at ≡ current)
      × (s.payload_json ≡ r.payload_json)
      × (s.metadata_json ≡ r.metadata_json)
      × (s.lane_key ≡ r.lane_key)
      × (s.received_at ≡ r.received_at)
      × (s.last_error ≡ r.last_error)

  held_token : (held : Option String) → column_is held token ≡ true → held ≡ some token
  held_token none e = absurd (cc)
  held_token (some name) e = ap some ((eq_iff name token).0 e)

  claimed_status : (status : Status) → same_status status claimed ≡ true → status ≡ claimed
  claimed_status pending e = absurd (cc)
  claimed_status claimed e = refl
  claimed_status completed e = absurd (cc)
  claimed_status failed e = absurd (cc)

  still_stale-IsDue : (r : Row) → still_stale r ≡ true → IsDue r
  still_stale-IsDue r e = elim (Option-cases r.claimed_at) [
    | inl never ↦
        let fresh : is_stale current stale r ≡ false = rw never refl in absurd (ground arith)
    | inr (at, since) ↦
        let late : is_stale current stale r ≡ leb (at + stale) current = rw since refl in
        (
          claimed_status r.status (ground arith),
          held_token r.claim_token (ground arith),
          (at, since, ground arith),
        )
  ]

  IsDue-still_stale : (r : Row) → IsDue r → still_stale r ≡ true
  IsDue-still_stale r d = rw (d.0, d.1, d.2.1, eq_refl token) (ground (arith, d.2.2))

  -- One round of the recovery, over a row `seen` when the stale claims were read. Let the event's row
  -- be `r` once `shouldRecover` has answered. Either the answer is yes and `r` is claimed under the
  -- token that was seen, at a time that the limit is over by now; then the round counts one, and the
  -- event is stored as pending with no claim, one more attempt, and its payload, metadata, lane and
  -- time of receipt. Or one of these fails; then the round counts none and the table is unchanged.
  pub recover_one_lem :
      (r : Row)
      → IsKeyed answer.1
      → Stored q.account_id seen.event_id r answer.1
      → (let result = recover_one json q current stale ask seen t in
          ((answer.0 ≡ true)
            × IsDue r
            × (result.0 ≡ true)
            × ((s : Row) × Stored q.account_id seen.event_id s result.1 × Returns r s))
          ⊎ (¬ ((answer.0 ≡ true) × IsDue r) × (result.0 ≡ false) × (result.1 ≡ answer.1)))
  recover_one_lem r k e =
      let known_round = recover_one-recovers r k e in
      elim (Bool-cases (answer.0 && still_stale r)) [
        | inl back ↦
            let both : (answer.0 ≡ true) × (still_stale r ≡ true) = ground arith in
            inl (
              both.0,
              still_stale-IsDue r both.1,
              rw (← back) known_round.0,
              (set_recovered current r, returned _ back known_round.1, restored),
            )
        | inr kept ↦ inr (
          λ due. let stale_now = IsDue-still_stale r due.1 in ground arith,
          rw (← kept) known_round.0,
          ground arith,
        )
      ]
    where
      restored : Returns r (set_recovered current r)
      restored = (refl, refl, refl, refl, omega arith, refl, refl, refl, refl, refl, refl, refl)

      returned :
          {b : Bool} {s : Row} (u : Table)
          → b ≡ true
          → Stored q.account_id seen.event_id (if b then s else r) u
          → Stored q.account_id seen.event_id s u
      returned {s = s} u back there =
          subst (λ b. Stored q.account_id seen.event_id (if b then s else r) u) back there
