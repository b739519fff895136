-- ===== src/Stream/Store.antt =====
-- companion/webapp/src/stream-state.ts: `EventStore`. Its Map of snapshots is a list in insertion
-- order. A listener is a number, and its call is logged in `fired`; that a listener calls the store
-- again is not modelled. The sets of listeners are shared objects: the Map holds the number of a
-- set, and the function that `subscribe` returns keeps that number.
use openclaw_mattermost_cust.Base.{
  ℕ, suc, Bool, true, false, ◌&&◌, ◌||◌, String, ◌==◌, Option, none, some, List, [], ◌∷◌, ◌++◌, leb,
  eqb, if◌then◌else◌, find, length, is_some,
}
use openclaw_mattermost_cust.Base.Table.{select_where, delete_where}
use openclaw_mattermost_cust.Base.Int.{ℤ, ltℤ, leℤ, eqℤ}
use openclaw_mattermost_cust.Stream.Value.{Js}
use openclaw_mattermost_cust.Stream.Snapshot.{Snapshot, parse_snapshot, same_snapshot}

abbrev pub max_snapshots : ℕ
max_snapshots = 256

pub record Store : Type 0 where
  pub snapshots : List Snapshot
  pub listeners : List (String × ℕ)
  pub sets : ℕ → List ℕ
  pub next_set : ℕ
  pub refreshers : List ℕ
  pub fired : List ℕ

abbrev pub empty_store : Store
empty_store = record {
  snapshots = [];
  listeners = [];
  sets = λ _. [];
  next_set = 0;
  refreshers = [];
  fired = [];
}

abbrev pub is_for : String → Snapshot → Bool
is_for id s = s.post_id == id

abbrev pub stored : String → Store → Option Snapshot
stored id store = find (is_for id) store.snapshots

abbrev pub is_set_of : String → String × ℕ → Bool
is_set_of id (other, set) = other == id

-- `this.listeners.get(postID)`.
unfoldable pub set_in : String → List (String × ℕ) → Option ℕ
set_in id [] = none
set_in id ((other, set) ∷ rest) = if other == id then some set else set_in id rest

abbrev pub set_of : String → Store → Option ℕ
set_of id store = set_in id store.listeners

-- The listeners of `this.listeners.get(postID) || []`.
abbrev pub members : (ℕ → List ℕ) → Option ℕ → List ℕ
members sets none = []
members sets (some set) = sets set

abbrev pub listeners_of : String → Store → List ℕ
listeners_of id store = members store.sets (set_of id store)

unfoldable pub notify : String → Store → Store
notify id store = record store { fired = store.fired ++ listeners_of id store }

abbrev pub is_expired : ℤ → Snapshot → Bool
is_expired now s = leℤ s.expires_at now

unfoldable pub notify_all : List Snapshot → Store → Store
notify_all [] store = store
notify_all (s ∷ rest) store = notify_all rest (notify s.post_id store)

-- Every expired entry is deleted, in the Map's order, and its listeners are notified.
unfoldable pub prune_expired : ℤ → Store → Store
prune_expired now store =
    notify_all (select_where (is_expired now) store.snapshots)
      (record store { snapshots = delete_where (is_expired now) store.snapshots })

-- The loop of `makeRoom`, over the entries from the oldest on.
unfoldable pub make_room_from : List Snapshot → Store → Store
make_room_from [] store = store
make_room_from (oldest ∷ rest) store =
    let fewer = make_room_from rest (notify oldest.post_id (record store { snapshots = rest })) in
    if leb max_snapshots (length store.snapshots) then fewer else store

unfoldable pub make_room : Store → Store
make_room store = make_room_from store.snapshots store

-- What `publish` does with the next snapshot of a post: it returns a value at once, or stores it.
pub data Verdict : Type 0 where
  returns : Bool → Verdict
  stores : Verdict

unfoldable pub judge : Snapshot → Snapshot → Verdict
judge previous next =
    if next.generation == previous.generation
    then if previous.closed
      then returns (eqℤ next.seq previous.seq && same_snapshot previous next)
      else if ltℤ next.seq previous.seq || ltℤ next.updated_at previous.updated_at
      then returns false
      else if eqℤ next.seq previous.seq
      then returns (same_snapshot previous next)
      else stores
    else if ltℤ next.updated_at previous.updated_at
    then returns false
    else stores

abbrev pub insert_new : Snapshot → Store → Store
insert_new next store =
    notify next.post_id (record store { snapshots = store.snapshots ++ next ∷ [] })

abbrev pub replace : Snapshot → Store → Store
replace next store =
    insert_new next
      (record store { snapshots = delete_where (is_for next.post_id) store.snapshots })

abbrev pub carry_out : Verdict → Snapshot → Store → Bool × Store
carry_out (returns b) next store = (b, store)
carry_out stores next store = (true, replace next store)

abbrev pub publish_over : Option Snapshot → Snapshot → Store → Bool × Store
publish_over none next store = (true, insert_new next (make_room store))
publish_over (some previous) next store = carry_out (judge previous next) next store

abbrev pub publish_parsed : Option Snapshot → ℤ → Store → Bool × Store
publish_parsed none now store = (false, store)
publish_parsed (some next) now store =
    if is_expired now next
    then (false, store)
    else publish_over (stored next.post_id store) next store

unfoldable pub publish : Js → ℤ → Store → Bool × Store
publish value now store = publish_parsed (parse_snapshot value) now (prune_expired now store)

abbrev pub forget_stored : Option Snapshot → String → Store → Store
forget_stored none id store = store
forget_stored (some s) id store =
    notify id (record store { snapshots = delete_where (is_for id) store.snapshots })

unfoldable pub forget : String → Store → Store
forget id store = forget_stored (stored id store) id store

abbrev pub get_stored : Option Snapshot → String → ℤ → Store → Option Snapshot × Store
get_stored none id now store = (none, store)
get_stored (some s) id now store =
    if is_expired now s then (none, forget_stored (some s) id store) else (some s, store)

unfoldable pub get : String → ℤ → Store → Option Snapshot × Store
get id now store = get_stored (stored id store) id now store

-- `Set.add` and `Set.delete`.
abbrev pub add : ℕ → List ℕ → List ℕ
add l ls = if is_some (find (λ m. eqb m l) ls) then ls else ls ++ l ∷ []

abbrev pub remove : ℕ → List ℕ → List ℕ
remove l ls = delete_where (λ m. eqb m l) ls

abbrev pub write_set : ℕ → List ℕ → Store → Store
write_set set ls store = record store {
  sets = λ other. if eqb other set then ls else store.sets other;
}

-- The store, with the number of the set that the returned function closes over.
abbrev pub subscribe_in : Option ℕ → String → ℕ → Store → ℕ × Store
subscribe_in (some set) id listener store =
    (set, write_set set (add listener (store.sets set)) store)
subscribe_in none id listener store = (
  store.next_set,
  write_set store.next_set (listener ∷ []) (record store {
    listeners = store.listeners ++ (id, store.next_set) ∷ [];
    next_set = suc store.next_set;
  }),
)

unfoldable pub subscribe : String → ℕ → Store → ℕ × Store
subscribe id listener store = subscribe_in (set_of id store) id listener store

abbrev pub drop_if_empty : List ℕ → String → Store → Store
drop_if_empty [] id store = record store { listeners = delete_where (is_set_of id) store.listeners }
drop_if_empty (l ∷ ls) id store = store

-- The function that `subscribe` returned.
unfoldable pub unsubscribe : String → ℕ → ℕ → Store → Store
unsubscribe id listener set store =
    let left = remove listener (store.sets set) in drop_if_empty left id (write_set set left store)

unfoldable pub register_refresh : ℕ → Store → Store
register_refresh refresh store = record store { refreshers = add refresh store.refreshers }

unfoldable pub unregister_refresh : ℕ → Store → Store
unregister_refresh refresh store = record store { refreshers = remove refresh store.refreshers }

unfoldable pub refresh_all : Store → Store
refresh_all store = record store { fired = store.fired ++ store.refreshers }
