-- ===== src/Stream/Publishing.antt =====
-- companion/webapp/src/stream-state.ts: what `publish` stores and what `get` returns.
use openclaw_mattermost_cust.Base.{
  ◌≡◌, refl, ap, ◌∙◌, ◌⊎◌, ◌≢◌, inl, inr, Bool, true, false, eq_iff, eq_refl, Option, none, some,
  List, [], ◌∷◌, ◌↔◌, arith, leb, find, length, All, Bool-cases,
}
use openclaw_mattermost_cust.Base.Table.{delete_where, find-append_none, find-delete_where_self}
use openclaw_mattermost_cust.Base.Int.{ℤ, ltℤ, leℤ, eqℤ_iff}
use openclaw_mattermost_cust.Stream.Value.{Js}
use openclaw_mattermost_cust.Stream.Snapshot.{Snapshot, parse_snapshot, same_snapshot}
use openclaw_mattermost_cust.Stream.Store.{
  Store, stored, is_for, is_expired, notify, notify_all, prune_expired, make_room_from, make_room,
  Verdict, returns, stores, judge, insert_new, replace, carry_out, publish_over, publish_parsed,
  publish, get, max_snapshots,
}

pub same_snapshot_iff : (a b : Snapshot) → (same_snapshot a b ≡ true) ↔ (a ≡ b)
unfolding same_snapshot
same_snapshot_iff a b = ground (
  arith,
  eq_iff a.post_id b.post_id,
  eq_iff a.channel_id b.channel_id,
  eq_iff a.root_id b.root_id,
  eq_iff a.generation b.generation,
  eq_iff a.message b.message,
  eqℤ_iff a.seq b.seq,
  eqℤ_iff a.updated_at b.updated_at,
  eqℤ_iff a.expires_at b.expires_at,
)

notify_all-snapshots :
    (rs : List Snapshot) (store : Store) → (notify_all rs store).snapshots ≡ store.snapshots
unfolding notify_all notify
notify_all-snapshots [] store = refl
notify_all-snapshots (r ∷ rs) store = notify_all-snapshots rs (notify r.post_id store)

pub prune_expired-snapshots :
    (now : ℤ) (store : Store)
    → (prune_expired now store).snapshots ≡ delete_where (is_expired now) store.snapshots
unfolding prune_expired
prune_expired-snapshots now store = notify_all-snapshots _ _

-- Room is made by dropping entries from the oldest on, so what is missing stays missing.
make_room_from-All {ℓ} :
    (P : Snapshot → Type ℓ) (rs : List Snapshot) (store : Store)
    → store.snapshots ≡ rs
    → All P rs
    → All P (make_room_from rs store).snapshots
unfolding make_room_from notify
make_room_from-All P [] store e h = rw e h
make_room_from-All P (r ∷ rs) store e h =
    elim (Bool-cases (leb max_snapshots (length store.snapshots))) [
      | inl full ↦ rw full (make_room_from-All P rs _ refl h.1)
      | inr room ↦ rw room (rw e h)
    ]

pub make_room-All {ℓ} :
    (P : Snapshot → Type ℓ) (store : Store)
    → All P store.snapshots
    → All P (make_room store).snapshots
unfolding make_room
make_room-All P store h = make_room_from-All P store.snapshots store refl h

find-none_of_All {ℓ} :
    {A : Type ℓ} (p : A → Bool) (xs : List A) → All (λ x. p x ≡ false) xs → find p xs ≡ none
find-none_of_All p [] h = refl
find-none_of_All p (x ∷ xs) h = rw h.0 (find-none_of_All p xs h.1)

All-of_find-none {ℓ} :
    {A : Type ℓ} (p : A → Bool) (xs : List A) → find p xs ≡ none → All (λ x. p x ≡ false) xs
All-of_find-none p [] h = tt
All-of_find-none p (x ∷ xs) h = ground (arith, All-of_find-none p xs)

stored-insert_new :
    (next : Snapshot) (store : Store)
    → stored next.post_id store ≡ none
    → stored next.post_id (insert_new next store) ≡ some next
unfolding notify
stored-insert_new next store e =
    find-append_none (is_for next.post_id) store.snapshots (next ∷ []) e
    ∙ rw (eq_refl next.post_id) refl

stored-replace :
    (next : Snapshot) (store : Store) → stored next.post_id (replace next store) ≡ some next
stored-replace next store =
    stored-insert_new next
      (record store { snapshots = delete_where (is_for next.post_id) store.snapshots })
      (find-delete_where_self (is_for next.post_id) store.snapshots)

-- A verdict of true without storing is only given to the stored snapshot itself.
judge_returns : (previous next : Snapshot) → judge previous next ≡ returns true → previous ≡ next
unfolding judge
judge_returns previous next h = ground (arith, (same_snapshot_iff previous next).0)

stored-publish_over :
    (previous : Option Snapshot) (next : Snapshot) (store store' : Store)
    → stored next.post_id store ≡ previous
    → publish_over previous next store ≡ (true, store')
    → stored next.post_id store' ≡ some next
stored-publish_over none next store store' e h =
    let missing = find-none_of_All (is_for next.post_id) (make_room store).snapshots (
      make_room-All (λ s. is_for next.post_id s ≡ false) store
        (All-of_find-none (is_for next.post_id) store.snapshots e)) in
    rw (← (ap (λ r. r.1) h)) (stored-insert_new next (make_room store) missing)
stored-publish_over (some previous) next store store' e h = by_verdict (judge previous next) refl h
  where
    by_verdict :
        (v : Verdict)
        → judge previous next ≡ v
        → carry_out v next store ≡ (true, store')
        → stored next.post_id store' ≡ some next
    by_verdict (returns b) judged k =
        let kept : store ≡ store' = ap (λ r. r.1) k in
        let accepted : b ≡ true = ap (λ r. r.0) k in
        let same : previous ≡ next = judge_returns previous next (rw judged (rw accepted refl)) in
        rw (← kept) (e ∙ ap some same)
    by_verdict stores judged k = rw (← (ap (λ r. r.1) k)) (stored-replace next store)

pub publish_parsed-stored :
    (parsed : Option Snapshot) (now : ℤ) (store store' : Store)
    → publish_parsed parsed now store ≡ (true, store')
    → (next : Snapshot) × (parsed ≡ some next)
      × (is_expired now next ≡ false)
      × (stored next.post_id store' ≡ some next)
publish_parsed-stored none now store store' h = absurd (cc)
publish_parsed-stored (some next) now store store' h = elim (Bool-cases (is_expired now next)) [
  | inl late ↦ absurd (cc (rw late at h))
  | inr live ↦ (
    next,
    refl,
    live,
    stored-publish_over (stored next.post_id store) next store store' refl (rw live at h),
  )
]

-- `publish` returns true only for a value that parses as a snapshot which has not expired; and then
-- `get` of its post, at the same time, returns that snapshot and leaves the store as it is.
pub get-publish :
    (value : Js) (now : ℤ) (store store' : Store)
    → publish value now store ≡ (true, store')
    → (next : Snapshot) × (parse_snapshot value ≡ some next)
      × (is_expired now next ≡ false)
      × (get next.post_id now store' ≡ (some next, store'))
unfolding publish get
get-publish value now store store' h =
    let (next, parsed, live, found) =
      publish_parsed-stored (parse_snapshot value) now (prune_expired now store) store' h in
    (next, parsed, live, rw found (rw live refl))

-- The snapshot that may take the place of the stored one: within a generation that is not closed, a
-- higher sequence number and no earlier time; from another generation, no earlier time.
abbrev pub Supersedes : Snapshot → Snapshot → Type 0
Supersedes previous next =
    ((next.generation ≡ previous.generation)
      × (previous.closed ≡ false)
      × (ltℤ previous.seq next.seq ≡ true)
      × (leℤ previous.updated_at next.updated_at ≡ true))
    ⊎ ((next.generation ≢ previous.generation) × (leℤ previous.updated_at next.updated_at ≡ true))
