-- ===== src/Ingress/Maintenance.antt =====
-- src/mattermost/ingress-queue.ts: `prune`, which bounds the age and the number of the rows that
-- are not claimed.
use openclaw_mattermost_cust.Base.{
  ℕ, suc, ◌+◌, Bool, false, not, ◌&&◌, ◌||◌, String, ◌==◌, Option, none, some, List, [], ◌∷◌, ltb,
  leb, eqb, if◌then◌else◌, or_else, any,
}
use openclaw_mattermost_cust.Base.Table.{select_where, delete_where, count_where}
use openclaw_mattermost_cust.Base.Sorting.{sort}
use openclaw_mattermost_cust.Base.Text.{text_le}
use openclaw_mattermost_cust.Ingress.Row.{
  Status, pending, completed, failed, same_status, Row, Table, has_key, has_status, Queue,
}

pub record PruneOptions : Type 0 where
  pub now : Option ℕ
  pub protect_ids : List String
  pub pending_ttl_ms : Option ℕ
  pub completed_ttl_ms : Option ℕ
  pub failed_ttl_ms : Option ℕ
  pub pending_max_entries : Option ℕ
  pub completed_max_entries : Option ℕ
  pub failed_max_entries : Option ℕ

-- `ORDER BY updated_at DESC, event_id DESC`.
abbrev pub by_updated_desc : Row → Row → Bool
by_updated_desc r s =
    ltb s.updated_at r.updated_at
    || (eqb s.updated_at r.updated_at && text_le s.event_id r.event_id)

-- `row.updated_at < current - ttl`.
abbrev pub is_expired : ℕ → Option ℕ → Row → Bool
is_expired current none r = false
is_expired current (some ttl) r = ltb (r.updated_at + ttl) current

abbrev pub is_beyond : ℕ → Option ℕ → Bool
is_beyond index none = false
is_beyond index (some most) = leb most index

abbrev pub is_protected : List String → Row → Bool
is_protected ids r = any (λ id. id == r.event_id) ids

-- The test of `rows.filter`.
abbrev pub removable : ℕ → List String → Option ℕ → Option ℕ → ℕ → Row → Bool
removable current ids ttl most index r =
    not (is_protected ids r) && (is_expired current ttl r || is_beyond index most)

unfoldable pub removed_rows : ℕ → List String → Option ℕ → Option ℕ → ℕ → List Row → List Row
removed_rows current ids ttl most index [] = []
removed_rows current ids ttl most index (r ∷ rs) =
    let rest = removed_rows current ids ttl most (suc index) rs in
    if removable current ids ttl most index r then r ∷ rest else rest

abbrev pub names_row : Queue → Status → Row → Row → Bool
names_row q status r s = has_key q.account_id r.event_id s && same_status s.status status

-- The DELETE of each row, with the sum of their changes.
unfoldable pub delete_rows : Queue → Status → List Row → ℕ → Table → ℕ × Table
delete_rows q status [] n t = (n, t)
delete_rows q status (r ∷ rs) n t =
    delete_rows q status rs (n + count_where (names_row q status r) t)
      (delete_where (names_row q status r) t)

-- One status of the loop.
unfoldable pub prune_status :
    Queue → ℕ → List String → Status → Option ℕ → Option ℕ → ℕ × Table → ℕ × Table
prune_status q current ids status ttl most so_far =
    let rows = sort by_updated_desc (select_where (has_status q.account_id status) so_far.1) in
    delete_rows q status (removed_rows current ids ttl most 0 rows) so_far.0 so_far.1

-- The number of rows deleted, and the table.
unfoldable pub prune : Queue → PruneOptions → ℕ → Table → ℕ × Table
prune q o now t =
    let current = or_else o.now now in
    let after_pending =
      prune_status q current o.protect_ids pending o.pending_ttl_ms o.pending_max_entries (0, t) in
    let after_completed =
      prune_status q current o.protect_ids completed o.completed_ttl_ms o.completed_max_entries
        after_pending in
    prune_status q current o.protect_ids failed o.failed_ttl_ms o.failed_max_entries after_completed
