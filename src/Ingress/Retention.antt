-- ===== src/Ingress/Retention.antt =====
-- src/mattermost/ingress-queue.ts: what `prune` counts and what it keeps.
use openclaw_mattermost_cust.Base.{
  ℕ, suc, ◌+◌, ◌≡◌, refl, true, false, String, ◌==◌, eq_iff, Option, List, [], ◌∷◌, arith, or_else,
  length, All,
}
use openclaw_mattermost_cust.Base.Table.{
  select_where, delete_where, count_where, length-delete_where,
}
use openclaw_mattermost_cust.Base.Sorting.{sort}
use openclaw_mattermost_cust.Ingress.Row.{
  Status, pending, completed, failed, Row, Table, has_status, Queue,
}
use openclaw_mattermost_cust.Ingress.Maintenance.{
  PruneOptions, by_updated_desc, is_protected, removable, removed_rows, names_row, delete_rows,
  prune_status, prune,
}
use openclaw_mattermost_cust.Ingress.Keys.{delete_where_spares}
use openclaw_mattermost_cust.Ingress.Custody.{Stored}

delete_rows_count :
    (q : Queue) (status : Status) (rs : List Row) (n : ℕ) (t : Table)
    → (delete_rows q status rs n t).0 + length (delete_rows q status rs n t).1 ≡ n + length t
unfolding delete_rows
delete_rows_count q status [] n t = refl
delete_rows_count q status (r ∷ rs) n t = omega (
  arith,
  delete_rows_count q status rs (n + count_where (names_row q status r) t)
      (delete_where (names_row q status r) t),
  length-delete_where (names_row q status r) t,
)

prune_status_count :
    (q : Queue) (current : ℕ) (ids : List String) (status : Status) (ttl most : Option ℕ)
    (so_far : ℕ × Table)
    → (let result = prune_status q current ids status ttl most so_far in
        result.0 + length result.1 ≡ so_far.0 + length so_far.1)
unfolding prune_status
prune_status_count q current ids status ttl most so_far =
    delete_rows_count q status
      (removed_rows current ids ttl most 0
        (sort by_updated_desc (select_where (has_status q.account_id status) so_far.1)))
      so_far.0 so_far.1

-- The number that `prune` returns is the number of rows that it deleted.
pub prune_count :
    (q : Queue) (o : PruneOptions) (now : ℕ) (t : Table)
    → (prune q o now t).0 + length (prune q o now t).1 ≡ length t
unfolding prune
prune_count q o now t =
    let current = or_else o.now now in
    let first =
      prune_status q current o.protect_ids pending o.pending_ttl_ms o.pending_max_entries (0, t) in
    let second =
      prune_status q current o.protect_ids completed o.completed_ttl_ms o.completed_max_entries
        first in
    omega (
      arith,
      prune_status_count q current o.protect_ids pending o.pending_ttl_ms o.pending_max_entries
          (0, t),
      prune_status_count q current o.protect_ids completed o.completed_ttl_ms
          o.completed_max_entries first,
      prune_status_count q current o.protect_ids failed o.failed_ttl_ms o.failed_max_entries second,
    )

-- The rows that a pass removes hold whatever every removable row holds.
removed_rows-All {ℓ} :
    (P : Row → Type ℓ) (current : ℕ) (ids : List String) (ttl most : Option ℕ)
    → ((i : ℕ) (r : Row) → removable current ids ttl most i r ≡ true → P r)
    → (index : ℕ) (rs : List Row) → All P (removed_rows current ids ttl most index rs)
unfolding removed_rows
removed_rows-All P current ids ttl most h index [] = tt
removed_rows-All P current ids ttl most h index (r ∷ rs) =
    ground (arith, h index r, removed_rows-All P current ids ttl most h (suc index) rs)

module _ (q : Queue) (account id : String) (r : Row) where
  delete_rows_keeps :
      (status : Status) (rs : List Row) (n : ℕ) (t : Table)
      → All (λ s. (r.event_id == s.event_id) ≡ false) rs
      → Stored account id r t
      → Stored account id r (delete_rows q status rs n t).1
  unfolding delete_rows
  delete_rows_keeps status [] n t h e = e
  delete_rows_keeps status (s ∷ rs) n t h e =
      delete_rows_keeps status rs (n + count_where (names_row q status s) t)
        (delete_where (names_row q status s) t) h.1
        (delete_where_spares (names_row q status s) account id t r e (ground (arith, h.0)))

  is_protected_other :
      (ids : List String) (s : Row)
      → is_protected ids s ≡ false
      → is_protected ids r ≡ true
      → (r.event_id == s.event_id) ≡ false
  is_protected_other [] s h k = absurd (cc)
  is_protected_other (i ∷ ids) s h k = ground (
    arith,
    is_protected_other ids s,
    eq_iff i s.event_id,
    eq_iff i r.event_id,
    eq_iff r.event_id s.event_id,
  )

  prune_status_keeps :
      (current : ℕ) (ids : List String) (status : Status) (ttl most : Option ℕ) (so_far : ℕ × Table)
      → is_protected ids r ≡ true
      → Stored account id r so_far.1
      → Stored account id r (prune_status q current ids status ttl most so_far).1
  unfolding prune_status
  prune_status_keeps current ids status ttl most so_far h e =
      delete_rows_keeps status _ so_far.0 so_far.1
        (removed_rows-All (λ s. (r.event_id == s.event_id) ≡ false) current ids ttl most
          (λ i s m. is_protected_other ids s (ground arith) h) 0
          (sort by_updated_desc (select_where (has_status q.account_id status) so_far.1)))
        e

  -- `prune` keeps every row whose event id is protected, whatever its age, its status and the
  -- limits on the numbers.
  pub prune_protects :
      (o : PruneOptions) (now : ℕ) (t : Table)
      → is_protected o.protect_ids r ≡ true
      → Stored account id r t
      → Stored account id r (prune q o now t).1
  unfolding prune
  prune_protects o now t h e = prune_status_keeps _ o.protect_ids failed _ _ _ h (
      prune_status_keeps _ o.protect_ids completed _ _ _ h
        (prune_status_keeps _ o.protect_ids pending _ _ (0, t) h e))
