-- ===== src/Stream/Histories.antt =====
-- companion/webapp/src/stream-state.ts: the stores that histories of calls lead to, and publishing
-- a value again.
use openclaw_mattermost_cust.Base.{
  ℕ, ◌≤◌, ◌≡◌, refl, ap, subst, inl, inr, Bool, true, false, String, eq_refl, Option, none, some,
  List, [], ◌∷◌, arith, length, All, Bool-cases,
}
use openclaw_mattermost_cust.Base.Table.{
  length-delete_where-le, delete_where_sound, delete_where_spared, select_where_spared,
  All-delete_where,
}
use openclaw_mattermost_cust.Base.Int.{ℤ, pos, ltℤ}
use openclaw_mattermost_cust.Base.Text.{utf16_length}
use openclaw_mattermost_cust.Stream.Value.{Js}
use openclaw_mattermost_cust.Stream.Snapshot.{Snapshot, parse_snapshot, max_text_units}
use openclaw_mattermost_cust.Stream.Store.{
  Store, stored, is_for, is_expired, notify, notify_all, prune_expired, returns, judge, publish,
  get, get_stored, forget, forget_stored, max_snapshots, empty_store, set_of, remove, subscribe_in,
  drop_if_empty, subscribe, unsubscribe, register_refresh, unregister_refresh, refresh_all,
}
use openclaw_mattermost_cust.Stream.Publishing.{
  prune_expired-snapshots, same_snapshot_iff, publish_parsed-stored,
}
use openclaw_mattermost_cust.Stream.Capacity.{publish_parsed-All, publish_parsed-length}

-- What `parseSnapshot` promises of its result.
abbrev pub IsWellFormed : Snapshot → Type 0
IsWellFormed s = (ltℤ (pos 0) s.seq ≡ true) × (utf16_length s.message ≤ max_text_units)

parse_snapshot-IsWellFormed :
    (value : Js) (s : Snapshot) → parse_snapshot value ≡ some s → IsWellFormed s
unfolding parse_snapshot
parse_snapshot-IsWellFormed value s e = ground arith

pub record IsBounded (store : Store) : Type 0 where
  pub bounded : length store.snapshots ≤ max_snapshots
  pub each : All IsWellFormed store.snapshots

publish-IsBounded :
    (value : Js) (now : ℤ) (store : Store) → IsBounded store → IsBounded (publish value now store).1
unfolding publish
publish-IsBounded value now store v =
    let pruned = prune_expired-snapshots now store in
    record {
      bounded = publish_parsed-length (parse_snapshot value) now (prune_expired now store) (
          rw pruned
            (omega (arith, length-delete_where-le (is_expired now) store.snapshots, v.bounded)));
      each =
          publish_parsed-All IsWellFormed (parse_snapshot value) now (prune_expired now store)
            (λ next e _. parse_snapshot-IsWellFormed value next e)
            (rw pruned (All-delete_where IsWellFormed (is_expired now) store.snapshots v.each));
    }

forget_stored-IsBounded :
    (s : Option Snapshot) (id : String) (store : Store)
    → IsBounded store
    → IsBounded (forget_stored s id store)
unfolding notify
forget_stored-IsBounded none id store v = v
forget_stored-IsBounded (some s) id store v = record {
  bounded = omega (arith, length-delete_where-le (is_for id) store.snapshots, v.bounded);
  each = All-delete_where IsWellFormed (is_for id) store.snapshots v.each;
}

get_stored-IsBounded :
    (s : Option Snapshot) (id : String) (now : ℤ) (store : Store)
    → IsBounded store
    → IsBounded (get_stored s id now store).1
get_stored-IsBounded none id now store v = v
get_stored-IsBounded (some s) id now store v = elim (Bool-cases (is_expired now s)) [
  | inl late ↦ rw late (forget_stored-IsBounded (some s) id store v)
  | inr live ↦ rw live v
]

-- A call of the store, with the reading of the clock.
pub data Call : Type 0 where
  publishes : Js → ℤ → Call
  gets : String → ℤ → Call
  forgets : String → Call
  subscribes : String → ℕ → Call
  unsubscribes : String → ℕ → ℕ → Call
  registers unregisters : ℕ → Call
  refreshes : Call

unfoldable pub step : Call → Store → Store
step (publishes value now) store = (publish value now store).1
step (gets id now) store = (get id now store).1
step (forgets id) store = forget id store
step (subscribes id listener) store = (subscribe id listener store).1
step (unsubscribes id listener set) store = unsubscribe id listener set store
step (registers refresh) store = register_refresh refresh store
step (unregisters refresh) store = unregister_refresh refresh store
step refreshes store = refresh_all store

unfoldable pub run : List Call → Store → Store
run [] store = store
run (c ∷ cs) store = run cs (step c store)

-- A call that leaves the snapshots alone.
IsBounded-same :
    (store store' : Store) → store'.snapshots ≡ store.snapshots → IsBounded store → IsBounded store'
IsBounded-same store store' e v = record { bounded = rw e v.bounded; each = rw e v.each }

subscribe_in-snapshots :
    (set : Option ℕ) (id : String) (listener : ℕ) (store : Store)
    → (subscribe_in set id listener store).1.snapshots ≡ store.snapshots
subscribe_in-snapshots none id listener store = refl
subscribe_in-snapshots (some set) id listener store = refl

drop_if_empty-snapshots :
    (left : List ℕ) (id : String) (store : Store)
    → (drop_if_empty left id store).snapshots ≡ store.snapshots
drop_if_empty-snapshots [] id store = refl
drop_if_empty-snapshots (l ∷ left) id store = refl

step-IsBounded : (c : Call) (store : Store) → IsBounded store → IsBounded (step c store)
unfolding step
step-IsBounded (publishes value now) store v = publish-IsBounded value now store v
step-IsBounded (gets id now) store v =
    unfold get in get_stored-IsBounded (stored id store) id now store v
step-IsBounded (forgets id) store v =
    unfold forget in forget_stored-IsBounded (stored id store) id store v
step-IsBounded (subscribes id listener) store v =
    unfold subscribe in
    IsBounded-same store _ (subscribe_in-snapshots (set_of id store) id listener store) v
step-IsBounded (unsubscribes id listener set) store v =
    unfold unsubscribe in
    IsBounded-same store _ (drop_if_empty-snapshots (remove listener (store.sets set)) id _) v
step-IsBounded (registers refresh) store v =
    unfold register_refresh in IsBounded-same store (register_refresh refresh store) refl v
step-IsBounded (unregisters refresh) store v =
    unfold unregister_refresh in IsBounded-same store (unregister_refresh refresh store) refl v
step-IsBounded refreshes store v =
    unfold refresh_all in IsBounded-same store (refresh_all store) refl v

run_from-IsBounded : (cs : List Call) (store : Store) → IsBounded store → IsBounded (run cs store)
unfolding run
run_from-IsBounded [] store v = v
run_from-IsBounded (c ∷ cs) store v =
    run_from-IsBounded cs (step c store) (step-IsBounded c store v)

-- However the store is used, it holds at most 256 snapshots, each with a positive sequence number
-- and a message within the limit.
pub run-IsBounded : (cs : List Call) → IsBounded (run cs empty_store)
run-IsBounded cs = run_from-IsBounded cs empty_store (record { bounded = omega arith; each = tt })

prune_expired_spared :
    (now : ℤ) (store : Store)
    → All (λ s. is_expired now s ≡ false) store.snapshots
    → prune_expired now store ≡ store
unfolding prune_expired notify_all
prune_expired_spared now store h = rw (select_where_spared (is_expired now) store.snapshots h) (
    ap (λ l. record store { snapshots = l })
      (delete_where_spared (is_expired now) store.snapshots h))

judge_self : (s : Snapshot) → judge s s ≡ returns true
unfolding judge
judge_self s = ground (arith, eq_refl s.generation, (same_snapshot_iff s s).1 refl)

-- Publishing a value again, at the same time, is accepted and changes nothing: no snapshot moves
-- and no listener is called.
pub publish_twice :
    (value : Js) (now : ℤ) (store store' : Store)
    → publish value now store ≡ (true, store')
    → publish value now store' ≡ (true, store')
unfolding publish
publish_twice value now store store' h =
    let pruned = prune_expired now store in
    let (next, parsed, live, found) =
      publish_parsed-stored (parse_snapshot value) now pruned store' h in
    let alive : All (λ s. is_expired now s ≡ false) store'.snapshots =
      subst (λ (r : Bool × Store). All (λ s. is_expired now s ≡ false) r.1.snapshots) h
        (publish_parsed-All (λ s. is_expired now s ≡ false) (parse_snapshot value) now pruned
          (λ s _ l. l)
          (rw (prune_expired-snapshots now store)
            (delete_where_sound (is_expired now) store.snapshots))) in
    rw (prune_expired_spared now store' alive, parsed, live) (rw (found, judge_self next) refl)
