-- ===== src/Ingress/Keys.antt =====
-- src/mattermost/ingress-queue.ts: reading one row of the table after a statement.
use mathlib.Core.Option
use openclaw_mattermost_cust.Base.{
  ◌≡◌, refl, Bool, true, false, String, eq_iff, eq_refl, ◌≤◌, All, Bool-cases, none, some, [], ◌∷◌,
  ◌++◌, arith, if◌then◌else◌, find, Option-cases, find_sound, inl, inr,
}
use openclaw_mattermost_cust.Base.Table.{
  update_where, delete_where, count_where, find-update_where, find-delete_where_keep,
  find-delete_where-none, find-append_none, find-append_some,
}
use openclaw_mattermost_cust.Ingress.Row.{Row, Table, has_key, select_row}
use openclaw_mattermost_cust.Ingress.Operations.{insert_or_ignore}

-- No two rows have one account and one event id, as the primary key says.
abbrev pub IsKeyed : Table → Type 0
IsKeyed [] = Unit
IsKeyed (r ∷ rs) = (select_row r.account_id r.event_id rs ≡ none) × IsKeyed rs

module _ (p : Row → Bool) (f : Row → Row)
    (same : (account id : String) (r : Row) → has_key account id (f r) ≡ has_key account id r) where
  pub select_row-update_where :
      (account id : String) (t : Table)
      → select_row account id (update_where p f t)
        ≡ Option.map (λ r. if p r then f r else r) (select_row account id t)
  unfolding select_row
  select_row-update_where account id t =
      find-update_where (has_key account id) p f (same account id) t

  -- An UPDATE leaves a row alone that its WHERE clause refuses.
  pub update_where_spares :
      (account id : String) (t : Table) (r : Row)
      → select_row account id t ≡ some r
      → p r ≡ false
      → select_row account id (update_where p f t) ≡ some r
  update_where_spares account id t r e h = rw (select_row-update_where account id t, e, h) refl

  pub update_where_hits :
      (account id : String) (t : Table) (r : Row)
      → select_row account id t ≡ some r
      → p r ≡ true
      → select_row account id (update_where p f t) ≡ some (f r)
  update_where_hits account id t r e h = rw (select_row-update_where account id t, e, h) refl

  pub update_where_misses :
      (account id : String) (t : Table)
      → select_row account id t ≡ none
      → select_row account id (update_where p f t) ≡ none
  update_where_misses account id t e = rw (select_row-update_where account id t, e) refl

  pub update_where-IsKeyed :
      ((r : Row) → (f r).account_id ≡ r.account_id)
      → ((r : Row) → (f r).event_id ≡ r.event_id)
      → (t : Table) → IsKeyed t
      → IsKeyed (update_where p f t)
  update_where-IsKeyed account id [] k = tt
  update_where-IsKeyed account id (r ∷ rs) k = ground (
    arith,
    account r,
    id r,
    update_where_misses r.account_id r.event_id rs,
    update_where-IsKeyed account id rs k.1,
  )

pub select_row_keys :
    (account id : String) (t : Table) (r : Row)
    → select_row account id t ≡ some r
    → (r.account_id ≡ account) × (r.event_id ≡ id)
unfolding select_row
select_row_keys account id t r e = ground (
  arith,
  find_sound (has_key account id) t r e,
  eq_iff r.account_id account,
  eq_iff r.event_id id,
)

pub delete_where_spares :
    (p : Row → Bool) (account id : String) (t : Table) (r : Row)
    → select_row account id t ≡ some r
    → p r ≡ false
    → select_row account id (delete_where p t) ≡ some r
unfolding select_row
delete_where_spares p account id t r e h = find-delete_where_keep (has_key account id) p t r e h

pub delete_where-IsKeyed : (p : Row → Bool) (t : Table) → IsKeyed t → IsKeyed (delete_where p t)
unfolding select_row
delete_where-IsKeyed p [] k = tt
delete_where-IsKeyed p (r ∷ rs) k = ground (
  arith,
  find-delete_where-none (has_key r.account_id r.event_id) p rs k.0,
  delete_where-IsKeyed p rs k.1,
)

-- The INSERT keeps every row that is there.
pub insert_or_ignore_spares :
    (new : Row) (account id : String) (t : Table) (r : Row)
    → select_row account id t ≡ some r
    → select_row account id (insert_or_ignore new t) ≡ some r
unfolding select_row
insert_or_ignore_spares new account id t r e =
    ground (arith, find-append_some (has_key account id) t (new ∷ []) r e)

append-IsKeyed :
    (t : Table) (new : Row)
    → select_row new.account_id new.event_id t ≡ none
    → IsKeyed t
    → IsKeyed (t ++ new ∷ [])
unfolding select_row
append-IsKeyed [] new e k = (refl, tt)
append-IsKeyed (r ∷ rs) new e k = ground (
  arith,
  find-append_none (has_key r.account_id r.event_id) rs (new ∷ []) k.0,
  append-IsKeyed rs new,
  eq_iff r.account_id new.account_id,
  eq_iff r.event_id new.event_id,
  eq_iff new.account_id r.account_id,
  eq_iff new.event_id r.event_id,
)

pub insert_or_ignore-IsKeyed :
    (new : Row) (t : Table) → IsKeyed t → IsKeyed (insert_or_ignore new t)
insert_or_ignore-IsKeyed new t k = elim (Option-cases (select_row new.account_id new.event_id t)) [
  | inl absent ↦ rw absent (append-IsKeyed t new absent k)
  | inr (r, found) ↦ rw found k
]

pub count_where_absent :
    (p : Row → Bool) (account id : String)
    → ((r : Row) → p r ≡ true → has_key account id r ≡ true)
    → (t : Table) → select_row account id t ≡ none
    → count_where p t ≡ 0
unfolding select_row
count_where_absent p account id names [] e = refl
count_where_absent p account id names (r ∷ rs) e =
    ground (arith, names r, count_where_absent p account id names rs)

pub count_where_present :
    (p : Row → Bool) (account id : String) (t : Table) (s : Row)
    → select_row account id t ≡ some s
    → p s ≡ true
    → 1 ≤ count_where p t
unfolding select_row
count_where_present p account id [] s e h = absurd (cc)
count_where_present p account id (r ∷ rs) s e h =
    ground (arith, count_where_present p account id rs s)

-- Under a unique key, a WHERE clause that names the key changes no row but the stored one.
pub count_where_keyed :
    (p : Row → Bool) (account id : String)
    → ((r : Row) → p r ≡ true → has_key account id r ≡ true)
    → (t : Table) (s : Row) → IsKeyed t
    → select_row account id t ≡ some s
    → p s ≡ false
    → count_where p t ≡ 0
unfolding select_row
count_where_keyed p account id names [] s k e h = refl
count_where_keyed p account id names (r ∷ rs) s k e h = elim (Bool-cases (has_key account id r)) [
  | inl mine ↦
      let keys : (r.account_id ≡ account) × (r.event_id ≡ id) =
        ground (arith, eq_iff r.account_id account, eq_iff r.event_id id) in
      let same : r ≡ s = ground arith in
      let rest : find (has_key account id) rs ≡ none = rw (← keys.0, ← keys.1) k.0 in
      ground (arith, count_where_absent p account id names rs rest)
  | inr other ↦ ground (arith, names r, count_where_keyed p account id names rs s k.1)
]

-- Every row of a keyed table is the one that its key reads.
abbrev pub IsFound : Table → Row → Type 0
IsFound t r = select_row r.account_id r.event_id t ≡ some r

IsFound-later :
    (t : Table) (r : Row) (rs : Table)
    → select_row r.account_id r.event_id rs ≡ none
    → All (IsFound rs) t
    → All (IsFound (r ∷ rs)) t
unfolding select_row
IsFound-later [] r rs e h = tt
IsFound-later (s ∷ t) r rs e h = ground (
  arith,
  IsFound-later t r rs e h.1,
  eq_iff r.account_id s.account_id,
  eq_iff r.event_id s.event_id,
)

pub All-IsFound : (t : Table) → IsKeyed t → All (IsFound t) t
unfolding select_row
All-IsFound [] k = tt
All-IsFound (r ∷ rs) k = ground (
  arith,
  eq_refl r.account_id,
  eq_refl r.event_id,
  IsFound-later rs r rs k.0 (All-IsFound rs k.1),
)
