-- ===== src/Ingress/Phases.antt =====
-- src/mattermost/ingress-queue.ts: the abstract life of one event, and the statements as moves in it.
use openclaw_mattermost_cust.Base.{
  ◌≡◌, ◌⊎◌, Bool, Bool-cases, true, false, String, ◌==◌, eq_iff, Option, Option-cases, none, some,
  [], ◌∷◌, inl, inr, arith,
}
use openclaw_mattermost_cust.Base.Table.{
  update_where, delete_where, find-delete_where-none, find-append_none,
}
use openclaw_mattermost_cust.Ingress.Row.{
  Status, pending, claimed, completed, failed, Row, Table, has_key, select_row, settles,
}
use openclaw_mattermost_cust.Ingress.Operations.{insert_or_ignore}
use openclaw_mattermost_cust.Ingress.Keys.{
  IsKeyed, update_where_hits, update_where_spares, update_where_misses, delete_where_spares,
  insert_or_ignore_spares,
}

-- An event is not stored, waits, is held under a token, or is settled.
pub data Phase : Type 0 where
  absent waiting : Phase
  held : Option String → Phase
  is_done has_failed : Phase

abbrev pub phase_of : Status → Option String → Phase
phase_of pending token = waiting
phase_of claimed token = held token
phase_of completed token = is_done
phase_of failed token = has_failed

abbrev pub row_phase : Row → Phase
row_phase r = phase_of r.status r.claim_token

abbrev pub phase : Option Row → Phase
phase none = absent
phase (some r) = row_phase r

-- A settlement without a token is for an event that waits, one with a token for one held under it.
abbrev pub owns : Option String → Phase → Bool
owns none waiting = true
owns (some token) (held (some k)) = k == token
owns _ _ = false

abbrev pub is_held : Phase → Bool
is_held (held token) = true
is_held _ = false

pub data Label : Type 0 where
  enqueuing refreshing recovering pruning : Label
  taking : String → Label
  completing releasing failing deleting : Option String → Label

-- The moves of an event, with what each asks of its phase.
pub data Move : Label → Phase → Phase → Type 0 where
  stays : {l : Label} {p : Phase} → Move l p p
  enters : Move enqueuing absent waiting
  is_taken : (token : String) → Move (taking token) waiting (held (some token))
  comes_back : {token : Option String} → Move recovering (held token) waiting
  is_completed : {t : Option String} {p : Phase} → owns t p ≡ true → Move (completing t) p is_done
  is_released : {t : Option String} {p : Phase} → owns t p ≡ true → Move (releasing t) p waiting
  is_failed : {t : Option String} {p : Phase} → owns t p ≡ true → Move (failing t) p has_failed
  is_deleted : {t : Option String} {p : Phase} → owns t p ≡ true → Move (deleting t) p absent
  is_pruned : {p : Phase} → is_held p ≡ false → Move pruning p absent

pub recovering-trans :
    {p q r : Phase} → Move recovering p q → Move recovering q r → Move recovering p r
recovering-trans stays n = n
recovering-trans comes_back stays = comes_back

pub pruning-trans : {p q r : Phase} → Move pruning p q → Move pruning q r → Move pruning p r
pruning-trans stays n = n
pruning-trans (is_pruned h) stays = is_pruned h
pruning-trans (is_pruned h) (is_pruned k) = is_pruned h

pub settles-owns :
    (account id : String) (token : Option String) (r : Row)
    → settles account id token r ≡ true
    → owns token (row_phase r) ≡ true
settles-owns account id token r h = ground arith

delete_where_hits :
    (p : Row → Bool) (account id : String) (t : Table) (r : Row)
    → IsKeyed t
    → select_row account id t ≡ some r
    → p r ≡ true
    → select_row account id (delete_where p t) ≡ none
unfolding select_row
delete_where_hits p account id [] r k e h = absurd (cc)
delete_where_hits p account id (x ∷ xs) r k e h = elim (Bool-cases (has_key account id x)) [
  | inl mine ↦
      let same_account : x.account_id ≡ account = ground (arith, eq_iff x.account_id account) in
      let same_id : x.event_id ≡ id = ground (arith, eq_iff x.event_id id) in
      let none_left : select_row account id xs ≡ none = rw (← same_account, ← same_id) k.0 in
      ground (arith, find-delete_where-none (has_key account id) p xs none_left)
  | inr other ↦ ground (arith, delete_where_hits p account id xs r k.1)
]

delete_where_misses :
    (p : Row → Bool) (account id : String) (t : Table)
    → select_row account id t ≡ none
    → select_row account id (delete_where p t) ≡ none
unfolding select_row
delete_where_misses p account id t e = find-delete_where-none (has_key account id) p t e

-- The INSERT of a row with another key, or with the key.
insert_or_ignore_misses :
    (new : Row) (account id : String) (t : Table)
    → select_row account id t ≡ none
    → (select_row account id (insert_or_ignore new t) ≡ none)
      ⊎ (select_row account id (insert_or_ignore new t) ≡ some new)
unfolding select_row
insert_or_ignore_misses new account id t e =
    ground (arith, find-append_none (has_key account id) t (new ∷ []) e)

module _ (account id : String) where
  abbrev pub at : Table → Phase
  at t = phase (select_row account id t)

  -- An UPDATE whose assignments make the move on the rows that it names.
  pub update-Move :
      (l : Label) (p : Row → Bool) (f : Row → Row)
      → ((a i : String) (r : Row) → has_key a i (f r) ≡ has_key a i r)
      → ((r : Row) → p r ≡ true → Move l (row_phase r) (row_phase (f r)))
      → (t : Table) → Move l (at t) (at (update_where p f t))
  update-Move l p f same move t = elim (Option-cases (select_row account id t)) [
    | inl none_there ↦ rw (none_there, update_where_misses p f same account id t none_there) stays
    | inr (r, found) ↦ elim (Bool-cases (p r)) [
      | inl named ↦ rw (found, update_where_hits p f same account id t r found named) (move r named)
      | inr other ↦ rw (found, update_where_spares p f same account id t r found other) stays
    ]
  ]

  pub delete-Move :
      (l : Label) (p : Row → Bool)
      → ((r : Row) → p r ≡ true → Move l (row_phase r) absent)
      → (t : Table) → IsKeyed t
      → Move l (at t) (at (delete_where p t))
  delete-Move l p move t k = elim (Option-cases (select_row account id t)) [
    | inl none_there ↦ rw (none_there, delete_where_misses p account id t none_there) stays
    | inr (r, found) ↦ elim (Bool-cases (p r)) [
      | inl named ↦ rw (found, delete_where_hits p account id t r k found named) (move r named)
      | inr other ↦ rw (found, delete_where_spares p account id t r found other) stays
    ]
  ]

  pub insert-Move :
      (new : Row) (t : Table)
      → new.status ≡ pending
      → Move enqueuing (at t) (at (insert_or_ignore new t))
  insert-Move new t fresh = elim (Option-cases (select_row account id t)) [
    | inl none_there ↦ elim (insert_or_ignore_misses new account id t none_there) [
      | inl still ↦ rw (none_there, still) stays
      | inr there ↦ rw (none_there, there) (rw fresh enters)
    ]
    | inr (r, found) ↦ rw (found, insert_or_ignore_spares new account id t r found) stays
  ]
