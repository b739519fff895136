-- ===== src/Ingress/Moves.antt =====
-- src/mattermost/ingress-queue.ts: the moves of an event that the parts of the calls make.
use openclaw_mattermost_cust.Base.{
  ℕ, ◌≡◌, refl, Bool, Bool-cases, true, false, String, Option, none, some, List, [], ◌∷◌, inl, inr,
  arith, or_else,
}
use openclaw_mattermost_cust.Base.Table.{select_where, update_where}
use openclaw_mattermost_cust.Base.Sorting.{sort}
use openclaw_mattermost_cust.Base.Text.{or_text}
use openclaw_mattermost_cust.Ingress.Row.{
  Status, pending, claimed, completed, failed, same_status, Row, Table, has_key, has_status,
  settles, Json, Queue, QueueClaim, base_record, claim_record,
}
use openclaw_mattermost_cust.Ingress.Setup.{IdOrClaim, token_from}
use openclaw_mattermost_cust.Ingress.Claiming.{
  set_claimed_in_lane, set_recovered, takes, recovers as recovered_row, stale_claim,
  resolve_claim_lane_key, ClaimOptions, RecoverOptions, asked, take_selected, recovered_first,
  recover_one, recover_loop, recover_stale_claims,
}
use openclaw_mattermost_cust.Ingress.Maintenance.{
  PruneOptions, by_updated_desc, removed_rows, names_row, delete_rows, prune_status, prune,
}
use openclaw_mattermost_cust.Ingress.Keys.{IsKeyed, delete_where-IsKeyed}
use openclaw_mattermost_cust.Ingress.Phases.{
  waiting, held, Label, recovering, pruning, taking, Move, stays, is_taken, comes_back, is_pruned,
  recovering-trans, pruning-trans, settles-owns, owns, row_phase, at, update-Move, delete-Move,
}

pub held_of : (r : Row) → same_status r.status claimed ≡ true → row_phase r ≡ held r.claim_token
held_of r h = ground arith

pub waiting_of : (r : Row) → same_status r.status pending ≡ true → row_phase r ≡ waiting
waiting_of r h = ground arith

module _ (q : Queue) (account id : String) where
  pub delete_rows-Move :
      (status : Status) (rs : List Row) (n : ℕ) (t : Table)
      → same_status claimed status ≡ false
      → IsKeyed t
      → Move pruning (at account id t) (at account id (delete_rows q status rs n t).1)
  unfolding delete_rows
  delete_rows-Move status [] n t h k = stays
  delete_rows-Move status (s ∷ rs) n t h k =
      pruning-trans
        (delete-Move account id pruning (names_row q status s) (λ r e. is_pruned (ground arith)) t
          k)
        (delete_rows-Move status rs _ _ h (delete_where-IsKeyed (names_row q status s) t k))

  delete_rows-IsKeyed :
      (status : Status) (rs : List Row) (n : ℕ) (t : Table)
      → IsKeyed t
      → IsKeyed (delete_rows q status rs n t).1
  unfolding delete_rows
  delete_rows-IsKeyed status [] n t k = k
  delete_rows-IsKeyed status (s ∷ rs) n t k =
      delete_rows-IsKeyed status rs _ _ (delete_where-IsKeyed (names_row q status s) t k)

  pub prune_status-Move :
      (current : ℕ) (ids : List String) (status : Status) (ttl most : Option ℕ) (so_far : ℕ × Table)
      → same_status claimed status ≡ false
      → IsKeyed so_far.1
      → Move pruning
          (at account id so_far.1)
          (at account id (prune_status q current ids status ttl most so_far).1)
  unfolding prune_status
  prune_status-Move current ids status ttl most so_far h k =
      delete_rows-Move status
        (removed_rows current ids ttl most 0
          (sort by_updated_desc (select_where (has_status q.account_id status) so_far.1)))
        so_far.0 so_far.1 h k

  prune_status-IsKeyed :
      (current : ℕ) (ids : List String) (status : Status) (ttl most : Option ℕ) (so_far : ℕ × Table)
      → IsKeyed so_far.1
      → IsKeyed (prune_status q current ids status ttl most so_far).1
  unfolding prune_status
  prune_status-IsKeyed current ids status ttl most so_far k =
      delete_rows-IsKeyed status
        (removed_rows current ids ttl most 0
          (sort by_updated_desc (select_where (has_status q.account_id status) so_far.1)))
        so_far.0 so_far.1 k

  pub prune-Move :
      (o : PruneOptions) (now : ℕ) (t : Table)
      → IsKeyed t
      → Move pruning (at account id t) (at account id (prune q o now t).1)
  unfolding prune
  prune-Move o now t k =
      let kept = prune_status-IsKeyed _ o.protect_ids pending _ _ (0, t) k in
      pruning-trans (prune_status-Move _ o.protect_ids pending _ _ (0, t) refl k) (
        pruning-trans (prune_status-Move _ o.protect_ids completed _ _ _ refl kept) (
          prune_status-Move _ o.protect_ids failed _ _ _ refl
            (prune_status-IsKeyed _ o.protect_ids completed _ _ _ kept)))

  module _ (json : Json) where
    pub recover_one-Move :
        (current stale : ℕ) (ask : Option (QueueClaim json → Table → Bool × Table)) (s : Row)
        (t : Table)
        → ((c : QueueClaim json)
            → Move recovering (at account id t) (at account id (asked json ask c t).1))
        → Move recovering
            (at account id t)
            (at account id (recover_one json q current stale ask s t).1)
    unfolding recover_one
    recover_one-Move current stale ask s t keeps =
        let m = keeps (claim_record json q s) in
        elim (Bool-cases (asked json ask (claim_record json q s) t).0) [
          | inl agreed ↦ rw agreed (
              recovering-trans m (
                update-Move account id recovering
                  (recovered_row q current stale s.event_id (or_else s.claim_token ""))
                  (set_recovered current) (λ a i u. refl)
                  (λ r e. rw (held_of r (ground arith)) comes_back) _))
          | inr refused ↦ rw refused m
        ]

    pub recover_loop-Move :
        (current stale : ℕ) (ask : Option (QueueClaim json → Table → Bool × Table)) (rs : List Row)
        (n : ℕ) (t : Table)
        → ((c : QueueClaim json) (u : Table)
            → Move recovering (at account id u) (at account id (asked json ask c u).1))
        → Move recovering
            (at account id t)
            (at account id (recover_loop json q current stale ask rs n t).1)
    unfolding recover_loop
    recover_loop-Move current stale ask [] n t keeps = stays
    recover_loop-Move current stale ask (s ∷ rs) n t keeps =
        recovering-trans (recover_one-Move current stale ask s t (λ c. keeps c t))
          (recover_loop-Move current stale ask rs _ _ keeps)

    pub recover-Move :
        (o : RecoverOptions json) (now : ℕ) (t : Table)
        → ((c : QueueClaim json) (u : Table)
            → Move recovering (at account id u) (at account id (asked json o.should_recover c u).1))
        → Move recovering (at account id t) (at account id (recover_stale_claims json q o now t).1)
    unfolding recover_stale_claims
    recover-Move o now t keeps =
        let current = or_else o.now now in
        let stale = or_else o.stale_ms 0 in
        recover_loop-Move current stale o.should_recover
          (select_where (stale_claim q current stale) t) 0 t keeps

    pub recovered_first-Move :
        (stale : Option ℕ) (now : ℕ) (t : Table)
        → Move recovering (at account id t) (at account id (recovered_first json q stale now t))
    recovered_first-Move none now t = stays
    recovered_first-Move (some stale) now t = recover-Move _ now t (λ c u. stays)

    pub take_selected-Move :
        (o : ClaimOptions json) (token : String) (now : ℕ) (t : Table) (s : Option Row)
        → Move
            (taking token)
            (at account id t)
            (at account id (take_selected json q o token now t s).1)
    take_selected-Move o token now t none = stays
    take_selected-Move o token now t (some s) =
        update-Move account id (taking token) (takes q s.event_id)
          (set_claimed_in_lane token (or_text o.owner_id q.pid) now
            (resolve_claim_lane_key json o (base_record json q s)))
          (λ a i u. refl) (λ r e. rw (waiting_of r (ground arith)) (is_taken token)) t

    pub settled-Move :
        (l : Label) (f : Row → Row) (ref : IdOrClaim) (i : String) (t : Table)
        → ((a j : String) (u : Row) → has_key a j (f u) ≡ has_key a j u)
        → ((r : Row)
            → owns (token_from ref) (row_phase r) ≡ true
            → Move l (row_phase r) (row_phase (f r)))
        → Move l
            (at account id t)
            (at account id (update_where (settles q.account_id i (token_from ref)) f t))
    settled-Move l f ref i t same move =
        update-Move account id l (settles q.account_id i (token_from ref)) f same
          (λ r e. move r (settles-owns q.account_id i (token_from ref) r e)) t
