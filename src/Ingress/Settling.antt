-- ===== src/Ingress/Settling.antt =====
-- src/mattermost/ingress-queue.ts: what `complete`, `release` and `fail` return and store.
use openclaw_mattermost_cust.Base.{
  ℕ, ◌≡◌, refl, ◌⊎◌, true, ap, Bool, String, arith, if◌then◌else◌, or_else, ok,
}
use openclaw_mattermost_cust.Base.Table.{update_where}
use openclaw_mattermost_cust.Ingress.Row.{Row, Table, has_key, settles, Json, Queue}
use openclaw_mattermost_cust.Ingress.Setup.{IdOrClaim, id_from, token_from}
use openclaw_mattermost_cust.Ingress.Operations.{
  run_update, CompleteOptions, ReleaseOptions, FailOptions, complete, release, fail, set_completed,
  set_released, set_failed, stringify_column, counts_attempt,
}
use openclaw_mattermost_cust.Ingress.Keys.{IsKeyed}
use openclaw_mattermost_cust.Ingress.Custody.{Stored}
use openclaw_mattermost_cust.Ingress.Taking.{run_update_lem}

module _ (q : Queue) (ref : IdOrClaim) (id : String) (named : id_from ref ≡ ok id) (t : Table)
    (k : IsKeyed t) (r : Row) (e : Stored q.account_id id r t) where
  abbrev pub accepts : Row → Bool
  accepts = settles q.account_id id (token_from ref)

  settle_lem :
      (f : Row → Row)
      → ((a i : String) (s : Row) → has_key a i (f s) ≡ has_key a i s)
      → ((run_update accepts f t).0 ≡ accepts r)
        × Stored q.account_id id (if accepts r then f r else r) (run_update accepts f t).1
        × ((accepts r ≡ true) ⊎ ((run_update accepts f t).1 ≡ t))
  settle_lem f same = run_update_lem accepts f q.account_id id same (λ s h. ground arith) t r k e

  -- `complete` returns true exactly if the stored event is pending, where no token is given, or
  -- claimed under the given token. Then its row is the completed one, and otherwise the table is
  -- unchanged.
  pub complete_lem :
      (json : Json) (o : CompleteOptions json) (now : ℕ)
      → (t' : Table) × (complete json q ref o now t ≡ ok (accepts r, t'))
        × Stored q.account_id id
            (if accepts r
              then set_completed (or_else o.completed_at now) (stringify_column json o.metadata) r
              else r)
            t'
        × ((accepts r ≡ true) ⊎ (t' ≡ t))
  unfolding complete
  complete_lem json o now =
      let f = set_completed (or_else o.completed_at now) (stringify_column json o.metadata) in
      let (result, stored, kept) = settle_lem f (λ a i s. refl) in
      (
        update_where accepts f t,
        rw named (ap (λ b. ok (b, update_where accepts f t)) result),
        stored,
        kept,
      )

  -- `release` returns true exactly if the stored event is pending, where no token is given, or
  -- claimed under the given token. Then its row is pending again, unclaimed, with its attempt counted
  -- unless `recordAttempt` is false, and otherwise the table is unchanged.
  pub release_lem :
      (o : ReleaseOptions) (now : ℕ)
      → (t' : Table) × (release q ref o now t ≡ ok (accepts r, t'))
        × Stored q.account_id id
            (if accepts r
              then set_released (counts_attempt o) (or_else o.released_at now) o.last_error r
              else r)
            t'
        × ((accepts r ≡ true) ⊎ (t' ≡ t))
  unfolding release
  release_lem o now =
      let f = set_released (counts_attempt o) (or_else o.released_at now) o.last_error in
      let (result, stored, kept) = settle_lem f (λ a i s. refl) in
      (
        update_where accepts f t,
        rw named (ap (λ b. ok (b, update_where accepts f t)) result),
        stored,
        kept,
      )

  -- `fail` returns true exactly if the stored event is pending, where no token is given, or claimed
  -- under the given token. Then its row is the failed one, which carries the reason, and otherwise
  -- the table is unchanged.
  pub fail_lem :
      (o : FailOptions) (now : ℕ)
      → (t' : Table) × (fail q ref o now t ≡ ok (accepts r, t'))
        × Stored q.account_id id
            (if accepts r then set_failed (or_else o.failed_at now) o.reason o.message r else r)
            t'
        × ((accepts r ≡ true) ⊎ (t' ≡ t))
  unfolding fail
  fail_lem o now =
      let f = set_failed (or_else o.failed_at now) o.reason o.message in
      let (result, stored, kept) = settle_lem f (λ a i s. refl) in
      (
        update_where accepts f t,
        rw named (ap (λ b. ok (b, update_where accepts f t)) result),
        stored,
        kept,
      )
