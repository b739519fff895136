-- ===== src/Ingress/Rights.antt =====
-- src/mattermost/ingress-queue.ts: what a history of calls cannot change.
use openclaw_mattermost_cust.Base.{
  ◌≡◌, refl, Bool, true, false, ◌&&◌, ◌||◌, String, ◌==◌, none, some, List, [], ◌∷◌, arith, is_some,
  All, All-mono,
}
use openclaw_mattermost_cust.Ingress.Row.{
  completed, failed, claimed, same_status, Row, Table, Json, Queue,
}
use openclaw_mattermost_cust.Ingress.Setup.{IdOrClaim, token_from}
use openclaw_mattermost_cust.Ingress.History.{
  Call, enqueues, claims, claims_next, refreshes, completes, releases, fails, deletes, recovers,
  prunes, step, run,
}
use openclaw_mattermost_cust.Ingress.Keys.{select_row_keys}
use openclaw_mattermost_cust.Ingress.Custody.{may_change, may_touch, Stored, step_spares}

-- A settlement that presents the token.
abbrev pub presents : String → IdOrClaim → Bool
presents token ref = elim (token_from ref) [ none ↦ false | some other ↦ token == other ]

-- The calls that can end or refresh the claim held under the token: those that present it, and the
-- recovery of stale claims.
abbrev pub disturbs : (json : Json) → String → Call json → Bool
disturbs json token (enqueues id payload o now now') = false
disturbs json token (claims ref owner fresh now) = false
disturbs json token (claims_next o fresh now at) = is_some o.stale_ms
disturbs json token (refreshes id other at now now') = token == other
disturbs json token (completes ref o now) = presents token ref
disturbs json token (releases ref o now) = presents token ref
disturbs json token (fails ref o now) = presents token ref
disturbs json token (deletes ref) = presents token ref
disturbs json token (recovers stale answer now) = true
disturbs json token (prunes o now) = false

abbrev pub is_prune : (json : Json) → Call json → Bool
is_prune json (prunes o now) = true
is_prune json _ = false

module _ (json : Json) (account id : String) (r : Row) where
  run_spares :
      (cs : List (Queue × Call json)) (t : Table)
      → All (λ e. may_touch json e.0 e.1 r ≡ false) cs
      → Stored account id r t
      → Stored account id r (run json cs t)
  unfolding run
  run_spares [] t h e = e
  run_spares ((q, c) ∷ cs) t h e =
      run_spares cs (step json q c t) h.1 (step_spares q account id r json c t h.0 e)

  settled_unchanged :
      (c : Call json)
      → (same_status r.status completed || same_status r.status failed) ≡ true
      → is_prune json c ≡ false
      → may_change json c r ≡ false
  settled_unchanged (enqueues i payload o now now') s h = refl
  settled_unchanged (claims ref owner token now) s h = ground arith
  settled_unchanged (claims_next o token now at) s h = ground arith
  settled_unchanged (refreshes i token at now now') s h = ground arith
  settled_unchanged (completes ref o now) s h = ground arith
  settled_unchanged (releases ref o now) s h = ground arith
  settled_unchanged (fails ref o now) s h = ground arith
  settled_unchanged (deletes ref) s h = ground arith
  settled_unchanged (recovers stale answer now) s h = ground arith
  settled_unchanged (prunes o now) s h = absurd (cc)

  -- A completed or failed event keeps its row, unchanged, through every history of calls in which
  -- its account prunes nothing: it is never pending or claimed again, and so never redelivered.
  pub settled_forever :
      (cs : List (Queue × Call json)) (t : Table)
      → (same_status r.status completed || same_status r.status failed) ≡ true
      → All (λ e. (r.account_id == e.0.account_id) && is_prune json e.1 ≡ false) cs
      → Stored account id r t
      → Stored account id r (run json cs t)
  settled_forever cs t s h e =
      run_spares cs t (All-mono (λ e k. ground (arith, settled_unchanged e.1 s)) cs h) e

  held_unchanged :
      (token : String) (c : Call json)
      → r.status ≡ claimed
      → r.claim_token ≡ some token
      → disturbs json token c ≡ false
      → may_change json c r ≡ false
  held_unchanged token (enqueues i payload o now now') s k h = refl
  held_unchanged token (claims ref owner fresh now) s k h = ground arith
  held_unchanged token (claims_next o fresh now at) s k h = ground arith
  held_unchanged token (refreshes i other at now now') s k h = ground arith
  held_unchanged token (completes ref o now) s k h = ground arith
  held_unchanged token (releases ref o now) s k h = ground arith
  held_unchanged token (fails ref o now) s k h = ground arith
  held_unchanged token (deletes ref) s k h = ground arith
  held_unchanged token (recovers stale answer now) s k h = absurd (cc)
  held_unchanged token (prunes o now) s k h = ground arith

  -- A claim stays with its holder: the row is unchanged through every history in which no call on
  -- its account presents the claim's token or recovers stale claims.
  pub held_until_presented :
      (token : String) (cs : List (Queue × Call json)) (t : Table)
      → r.status ≡ claimed
      → r.claim_token ≡ some token
      → All (λ e. (r.account_id == e.0.account_id) && disturbs json token e.1 ≡ false) cs
      → Stored account id r t
      → Stored account id r (run json cs t)
  held_until_presented token cs t s k h e =
      run_spares cs t (All-mono (λ e d. ground (arith, held_unchanged token e.1 s k)) cs h) e

  -- Calls of the queues of other accounts leave a row unchanged.
  pub other_accounts_spare :
      (cs : List (Queue × Call json)) (t : Table)
      → All (λ e. (account == e.0.account_id) ≡ false) cs
      → Stored account id r t
      → Stored account id r (run json cs t)
  other_accounts_spare cs t h e =
      let keys = select_row_keys account id t r e in
      run_spares cs t (All-mono (λ e k. ground (arith, keys.0)) cs h) e
