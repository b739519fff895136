-- ===== src/Ingress/Consistency.antt =====
-- src/mattermost/ingress-queue.ts: what a valid table is, and the statements that keep it valid.
use openclaw_mattermost_cust.Base.{
  ℕ, ◌≡◌, refl, Bool, true, String, Option, none, List, [], ◌∷◌, inl, inr, arith, is_some,
  Option-cases, All, All-append,
}
use openclaw_mattermost_cust.Base.Table.{
  update_where, delete_where, select_where, All-update_where, All-delete_where,
}
use openclaw_mattermost_cust.Base.Sorting.{sort}
use openclaw_mattermost_cust.Ingress.Row.{
  Status, pending, claimed, completed, failed, Row, Table, select_row, has_status, Queue,
}
use openclaw_mattermost_cust.Ingress.Operations.{
  insert_or_ignore, set_completed, set_released, set_failed, set_refreshed,
  refreshes as refreshed_row,
}
use openclaw_mattermost_cust.Ingress.Claiming.{set_claimed, set_claimed_in_lane, set_recovered}
use openclaw_mattermost_cust.Ingress.Maintenance.{
  delete_rows, PruneOptions, prune_status, prune, names_row, removed_rows, by_updated_desc,
}
use openclaw_mattermost_cust.Ingress.Keys.{
  IsKeyed, update_where-IsKeyed, delete_where-IsKeyed, insert_or_ignore-IsKeyed,
}

abbrev pub Unclaimed : Row → Type 0
Unclaimed r = (r.claim_token ≡ none) × (r.claim_owner ≡ none) × (r.claimed_at ≡ none)

-- What the columns of a row hold under its status.
abbrev pub Fits : Status → Row → Type 0
Fits pending r = Unclaimed r
Fits claimed r =
    (is_some r.claim_token ≡ true) × (is_some r.claim_owner ≡ true) × (is_some r.claimed_at ≡ true)
Fits completed r =
    Unclaimed r
    × (is_some r.completed_at ≡ true)
    × (r.payload_json ≡ "null")
    × (r.metadata_json ≡ none)
Fits failed r = Unclaimed r × (is_some r.failed_at ≡ true) × (is_some r.failed_reason ≡ true)

abbrev pub IsConsistent : Row → Type 0
IsConsistent r = Fits r.status r

pub record IsValid (t : Table) : Type 0 where
  pub rows : All IsConsistent t
  pub keyed : IsKeyed t

-- An UPDATE keeps the table valid if its assignments keep the key and make a consistent row.
module _ (p : Row → Bool) (f : Row → Row) (account : (r : Row) → (f r).account_id ≡ r.account_id)
    (id : (r : Row) → (f r).event_id ≡ r.event_id)
    (fits : (r : Row) → IsConsistent r → p r ≡ true → IsConsistent (f r)) where
  update_where-IsValid : (t : Table) → IsValid t → IsValid (update_where p f t)
  update_where-IsValid t v = record {
    rows = All-update_where IsConsistent p f fits t v.rows;
    keyed = update_where-IsKeyed p f (λ a i r. rw (account r, id r)) account id t v.keyed;
  }

pub delete_where-IsValid : (p : Row → Bool) (t : Table) → IsValid t → IsValid (delete_where p t)
delete_where-IsValid p t v = record {
  rows = All-delete_where IsConsistent p t v.rows;
  keyed = delete_where-IsKeyed p t v.keyed;
}

pub insert_or_ignore-IsValid :
    (r : Row) (t : Table) → IsConsistent r → IsValid t → IsValid (insert_or_ignore r t)
insert_or_ignore-IsValid r t c v = record {
  rows = elim (Option-cases (select_row r.account_id r.event_id t)) [
    | inl absent ↦ rw absent (All-append IsConsistent t (r ∷ []) v.rows (c, tt))
    | inr (s, found) ↦ rw found v.rows
  ];
  keyed = insert_or_ignore-IsKeyed r t v.keyed;
}

pub set_released-IsValid :
    (p : Row → Bool) (counts : Bool) (at : ℕ) (error : Option String) (t : Table)
    → IsValid t
    → IsValid (update_where p (set_released counts at error) t)
set_released-IsValid p counts at error =
    update_where-IsValid p (set_released counts at error) (λ r. refl) (λ r. refl)
      (λ r c h. (refl, refl, refl))

pub recovered-IsValid :
    (p : Row → Bool) (at : ℕ) (t : Table)
    → IsValid t
    → IsValid (update_where p (set_recovered at) t)
recovered-IsValid p at =
    update_where-IsValid p (set_recovered at) (λ r. refl) (λ r. refl) (λ r c h. (refl, refl, refl))

pub refreshed-IsValid :
    (q : Queue) (id token : String) (at at' : ℕ) (t : Table)
    → IsValid t
    → IsValid (update_where (refreshed_row q id token) (set_refreshed at at') t)
refreshed-IsValid q id token at at' =
    update_where-IsValid (refreshed_row q id token) (set_refreshed at at') (λ r. refl) (λ r. refl)
      fits
  where
    fits :
        (r : Row)
        → IsConsistent r
        → refreshed_row q id token r ≡ true
        → IsConsistent (set_refreshed at at' r)
    fits r c h = ground arith

pub claimed-IsValid :
    (p : Row → Bool) (token owner : String) (at : ℕ) (t : Table)
    → IsValid t
    → IsValid (update_where p (set_claimed token owner at) t)
claimed-IsValid p token owner at =
    update_where-IsValid p (set_claimed token owner at) (λ r. refl) (λ r. refl)
      (λ r c h. (refl, refl, refl))

pub claimed_in_lane-IsValid :
    (p : Row → Bool) (token owner : String) (at : ℕ) (lane : Option String) (t : Table)
    → IsValid t
    → IsValid (update_where p (set_claimed_in_lane token owner at lane) t)
claimed_in_lane-IsValid p token owner at lane =
    update_where-IsValid p (set_claimed_in_lane token owner at lane) (λ r. refl) (λ r. refl)
      (λ r c h. (refl, refl, refl))

pub completed-IsValid :
    (p : Row → Bool) (at : ℕ) (metadata : Option String) (t : Table)
    → IsValid t
    → IsValid (update_where p (set_completed at metadata) t)
completed-IsValid p at metadata =
    update_where-IsValid p (set_completed at metadata) (λ r. refl) (λ r. refl)
      (λ r c h. ((refl, refl, refl), refl, refl, refl))

pub failed-IsValid :
    (p : Row → Bool) (at : ℕ) (reason : String) (message : Option String) (t : Table)
    → IsValid t
    → IsValid (update_where p (set_failed at reason message) t)
failed-IsValid p at reason message =
    update_where-IsValid p (set_failed at reason message) (λ r. refl) (λ r. refl)
      (λ r c h. ((refl, refl, refl), refl, refl))

delete_rows-IsValid :
    (q : Queue) (status : Status) (rs : List Row) (n : ℕ) (t : Table)
    → IsValid t
    → IsValid (delete_rows q status rs n t).1
unfolding delete_rows
delete_rows-IsValid q status [] n t v = v
delete_rows-IsValid q status (r ∷ rs) n t v =
    delete_rows-IsValid q status rs _ (delete_where (names_row q status r) t)
      (delete_where-IsValid (names_row q status r) t v)

prune_status-IsValid :
    (q : Queue) (current : ℕ) (ids : List String) (status : Status) (ttl most : Option ℕ)
    (so_far : ℕ × Table)
    → IsValid so_far.1
    → IsValid (prune_status q current ids status ttl most so_far).1
unfolding prune_status
prune_status-IsValid q current ids status ttl most so_far v =
    delete_rows-IsValid q status
      (removed_rows current ids ttl most 0
        (sort by_updated_desc (select_where (has_status q.account_id status) so_far.1)))
      so_far.0 so_far.1 v

pub prune-IsValid :
    (q : Queue) (o : PruneOptions) (now : ℕ) (t : Table) → IsValid t → IsValid (prune q o now t).1
unfolding prune
prune-IsValid q o now t v = prune_status-IsValid q _ o.protect_ids failed _ _ _ (
    prune_status-IsValid q _ o.protect_ids completed _ _ _
      (prune_status-IsValid q _ o.protect_ids pending _ _ (0, t) v))
