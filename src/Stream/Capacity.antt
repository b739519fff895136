-- ===== src/Stream/Capacity.antt =====
-- companion/webapp/src/stream-state.ts: the bound on the store, what its snapshots satisfy, and
-- publishing a value again.
use openclaw_mattermost_cust.Base.{
  ◌+◌, ◌≤◌, ◌<◌, ◌≡◌, refl, inl, inr, false, Option, none, some, List, [], ◌∷◌, arith, leb, length,
  length-append, All, All-append, Bool-cases,
}
use openclaw_mattermost_cust.Base.Table.{
  delete_where, length-delete_where, count_where_of_find-some, All-delete_where,
}
use openclaw_mattermost_cust.Base.Int.{ℤ}
use openclaw_mattermost_cust.Stream.Snapshot.{Snapshot}
use openclaw_mattermost_cust.Stream.Store.{
  Store, stored, is_for, is_expired, notify, make_room_from, make_room, Verdict, returns, stores,
  judge, insert_new, carry_out, publish_over, publish_parsed, max_snapshots,
}
use openclaw_mattermost_cust.Stream.Publishing.{make_room-All}

-- `publish` adds at most one snapshot to those that it keeps.
module _ {ℓ} (P : Snapshot → Type ℓ) where
  insert_new-All :
      (next : Snapshot) (store : Store)
      → P next
      → All P store.snapshots
      → All P (insert_new next store).snapshots
  unfolding notify
  insert_new-All next store p h = All-append P store.snapshots (next ∷ []) h (p, tt)

  carry_out-All :
      (v : Verdict) (next : Snapshot) (store : Store)
      → P next
      → All P store.snapshots
      → All P (carry_out v next store).1.snapshots
  carry_out-All (returns b) next store p h = h
  carry_out-All stores next store p h =
      insert_new-All next _ p (All-delete_where P (is_for next.post_id) store.snapshots h)

  publish_over-All :
      (previous : Option Snapshot) (next : Snapshot) (store : Store)
      → P next
      → All P store.snapshots
      → All P (publish_over previous next store).1.snapshots
  publish_over-All none next store p h =
      insert_new-All next (make_room store) p (make_room-All P store h)
  publish_over-All (some previous) next store p h =
      carry_out-All (judge previous next) next store p h

  pub publish_parsed-All :
      (parsed : Option Snapshot) (now : ℤ) (store : Store)
      → ((next : Snapshot) → parsed ≡ some next → is_expired now next ≡ false → P next)
      → All P store.snapshots
      → All P (publish_parsed parsed now store).1.snapshots
  publish_parsed-All none now store p h = h
  publish_parsed-All (some next) now store p h = elim (Bool-cases (is_expired now next)) [
    | inl late ↦ rw late h
    | inr live ↦
        rw live (publish_over-All (stored next.post_id store) next store (p next refl live) h)
  ]

make_room_from-length :
    (rs : List Snapshot) (store : Store)
    → store.snapshots ≡ rs
    → length (make_room_from rs store).snapshots < max_snapshots
unfolding make_room_from notify
make_room_from-length [] store e = rw e (omega arith)
make_room_from-length (r ∷ rs) store e =
    elim (Bool-cases (leb max_snapshots (length store.snapshots))) [
      | inl full ↦ rw full (make_room_from-length rs _ refl)
      | inr room ↦ rw room (ground arith)
    ]

insert_new-length :
    (next : Snapshot) (store : Store)
    → length (insert_new next store).snapshots ≡ length store.snapshots + 1
unfolding notify
insert_new-length next store = length-append store.snapshots (next ∷ [])

publish_over-length :
    (previous : Option Snapshot) (next : Snapshot) (store : Store)
    → stored next.post_id store ≡ previous
    → length store.snapshots ≤ max_snapshots
    → length (publish_over previous next store).1.snapshots ≤ max_snapshots
unfolding make_room
publish_over-length none next store e h = omega (
  arith,
  insert_new-length next (make_room store),
  make_room_from-length store.snapshots store refl,
)
publish_over-length (some previous) next store e h = by_verdict (judge previous next)
  where
    by_verdict : (v : Verdict) → length (carry_out v next store).1.snapshots ≤ max_snapshots
    by_verdict (returns b) = h
    by_verdict stores = omega (
      arith,
      insert_new-length next
          (record store { snapshots = delete_where (is_for next.post_id) store.snapshots }),
      length-delete_where (is_for next.post_id) store.snapshots,
      count_where_of_find-some (is_for next.post_id) store.snapshots previous e,
    )

pub publish_parsed-length :
    (parsed : Option Snapshot) (now : ℤ) (store : Store)
    → length store.snapshots ≤ max_snapshots
    → length (publish_parsed parsed now store).1.snapshots ≤ max_snapshots
publish_parsed-length none now store h = h
publish_parsed-length (some next) now store h = elim (Bool-cases (is_expired now next)) [
  | inl late ↦ rw late h
  | inr live ↦ rw live (publish_over-length (stored next.post_id store) next store refl h)
]
