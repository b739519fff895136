-- ===== src/Stream/Listeners.antt =====
-- companion/webapp/src/stream-state.ts: subscriptions, and the function that `subscribe` returns.
use openclaw_mattermost_cust.Base.{
  ℕ, suc, ◌≡◌, refl, inl, inr, String, eq_refl, none, some, List, [], ◌∷◌, ◌++◌, arith, eqb,
  if◌then◌else◌, find, Option-cases,
}
use openclaw_mattermost_cust.Base.Table.{delete_where}
use openclaw_mattermost_cust.Stream.Store.{
  Store, is_set_of, set_in, set_of, listeners_of, remove, write_set, subscribe_in, subscribe,
  unsubscribe,
}

set_in-delete_where :
    (id : String) (ls : List (String × ℕ)) → set_in id (delete_where (is_set_of id) ls) ≡ none
unfolding set_in
set_in-delete_where id [] = refl
set_in-delete_where id ((other, set) ∷ ls) = ground (arith, set_in-delete_where id ls)

set_in-append :
    (id : String) (set : ℕ) (ls : List (String × ℕ))
    → set_in id ls ≡ none
    → set_in id (ls ++ (id, set) ∷ []) ≡ some set
unfolding set_in
set_in-append id set [] e = ground (arith, eq_refl id)
set_in-append id set ((other, first) ∷ ls) e = ground (arith, set_in-append id set ls)

-- Where the last listener goes, so does the post's set.
listeners_of-unsubscribe_last :
    (id : String) (listener set : ℕ) (store : Store)
    → remove listener (store.sets set) ≡ []
    → listeners_of id (unsubscribe id listener set store) ≡ []
unfolding unsubscribe
listeners_of-unsubscribe_last id listener set store e =
    rw e (rw (set_in-delete_where id store.listeners) refl)

remove_new : (l : ℕ) (ls : List ℕ) → find (λ m. eqb m l) ls ≡ none → remove l (ls ++ l ∷ []) ≡ ls
remove_new l [] e = ground arith
remove_new l (m ∷ ls) e = ground (arith, remove_new l ls)

-- Leaving a set that holds the listener last.
listeners_of-unsubscribe_new :
    (id : String) (listener set : ℕ) (ls : List ℕ) (store : Store)
    → set_of id store ≡ some set
    → store.sets set ≡ ls ++ listener ∷ []
    → find (λ m. eqb m listener) ls ≡ none
    → listeners_of id (unsubscribe id listener set store) ≡ ls
unfolding unsubscribe
listeners_of-unsubscribe_new id listener set [] store found e new =
    rw (e, remove_new listener [] new) (rw (set_in-delete_where id store.listeners) refl)
listeners_of-unsubscribe_new id listener set (l ∷ ls) store found e new =
    rw (e, remove_new listener (l ∷ ls) new) (rw found (ground arith))

sets-write_set : (set : ℕ) (ls : List ℕ) (store : Store) → (write_set set ls store).sets set ≡ ls
sets-write_set set ls store = ground arith

-- A listener that was not subscribed to the post and leaves again takes nobody along: the post has
-- the listeners that it had before.
pub unsubscribe-subscribe :
    (id : String) (listener : ℕ) (store : Store)
    → find (λ m. eqb m listener) (listeners_of id store) ≡ none
    → (let (set, subscribed) = subscribe id listener store in
        listeners_of id (unsubscribe id listener set subscribed) ≡ listeners_of id store)
unfolding subscribe
unsubscribe-subscribe id listener store new = elim (Option-cases (set_of id store)) [
  | inl absent ↦
      let later = (subscribe_in none id listener store).1 in
      rw absent (
        listeners_of-unsubscribe_new id listener store.next_set [] later
          (set_in-append id store.next_set store.listeners absent) (ground arith) refl)
  | inr (set, found) ↦
      let missing : find (λ m. eqb m listener) (store.sets set) ≡ none = rw found at new in
      rw found (
        listeners_of-unsubscribe_new id listener set (store.sets set)
          (subscribe_in (some set) id listener store).1 found (ground (arith, missing)) missing)
]

subscribe_absent :
    (id : String) (listener : ℕ) (store : Store)
    → set_of id store ≡ none
    → subscribe id listener store ≡ subscribe_in none id listener store
unfolding subscribe
subscribe_absent id listener store e = rw e refl

-- The store in which the first listener of a post has come and gone.
abbrev left_alone : String → ℕ → Store → Store
left_alone id a store = record store {
  listeners = delete_where (is_set_of id) (store.listeners ++ (id, store.next_set) ∷ []);
  sets =
      λ other. if eqb other store.next_set then [] else (subscribe_in none id a store).1.sets other;
  next_set = suc store.next_set;
}

unsubscribe_first :
    (id : String) (a : ℕ) (store : Store)
    → unsubscribe id a store.next_set (subscribe_in none id a store).1 ≡ left_alone id a store
unfolding unsubscribe
unsubscribe_first id a store =
    let emptied : remove a ((subscribe_in none id a store).1.sets store.next_set) ≡ [] =
      ground arith in
    rw emptied refl

-- The function that `subscribe` returns is not guarded against a second call. Where nobody listens
-- to a post, let `a` subscribe and unsubscribe, and then let `b` subscribe: the post has the listener
-- `b`, and after a second call of the function that `a` was given it has none.
pub unsubscribe_twice_drops :
    (id : String) (a b : ℕ) (store : Store)
    → set_of id store ≡ none
    → (let (first, with_a) = subscribe id a store in
        let without_a = unsubscribe id a first with_a in
        let with_b = (subscribe id b without_a).1 in
        (listeners_of id with_b ≡ b ∷ []) × (listeners_of id (unsubscribe id a first with_b) ≡ []))
unsubscribe_twice_drops id a b store absent =
    let middle = left_alone id a store in
    let gone = set_in-delete_where id (store.listeners ++ (id, store.next_set) ∷ []) in
    rw (subscribe_absent id a store absent) (
      rw (unsubscribe_first id a store) (
        rw (subscribe_absent id b middle gone) (
          rw (set_in-append id (suc store.next_set) middle.listeners gone) (ground arith),
          listeners_of-unsubscribe_last id a store.next_set (subscribe_in none id b middle).1
              (ground arith),
        )))
