-- ===== src/Transition/Exclusion.antt =====
-- src/mattermost/channel-model-transition.ts: one task for a channel, and no channel held for long.
use openclaw_mattermost_cust.Base.{
  ℕ, ◌≡◌, refl, true, String, eq_iff, none, List, [], ◌∷◌, ◌++◌, any, arith, Bool-cases,
  Option-cases, inl, inr,
}
use openclaw_mattermost_cust.Base.Keyed.{
  value_at, remove_at, has_at, IsUnique, remove_at_absent, remove_at-IsUnique, value_at-remove_at,
  put_at_absent, put_at-IsUnique,
}
use openclaw_mattermost_cust.Transition.Lock.{
  Transition, Transitions, no_transitions, begun, begin_transition, is_task, remove_task,
  is_held_by, end_transition, waits_for, Event, begins, ends, advance,
}

-- A task under a key is an entry at the key.
any-has_at :
    (k : String) (n : ℕ) (es : List (String × Transition))
    → any (is_task k n) es ≡ true
    → has_at k es ≡ true
any-has_at k n [] h = absurd (cc)
any-has_at k n (e ∷ es) h = ground (arith, any-has_at k n es)

task-is_held_by :
    (k : String) (n : ℕ) (es : List (String × Transition))
    → IsUnique es
    → any (is_task k n) es ≡ true
    → is_held_by n (value_at k es) ≡ true
task-is_held_by k n [] u h = absurd (cc)
task-is_held_by k n (e ∷ es) u h =
    ground (arith, eq_iff e.0 k, u.0, any-has_at k n es, task-is_held_by k n es u.1)

remove_at-remove_task :
    (k : String) (n : ℕ) (es : List (String × Transition))
    → IsUnique es
    → any (is_task k n) es ≡ true
    → remove_at k es ≡ remove_task k n es
remove_at-remove_task k n [] u h = absurd (cc)
remove_at-remove_task k n (e ∷ es) u h = ground (
  arith,
  eq_iff e.0 k,
  u.0,
  any-has_at k n es,
  remove_at_absent k es,
  remove_at-remove_task k n es u.1,
)

-- Exactly the running tasks hold their channels, each channel held once.
pub record IsExclusive (s : Transitions) : Type 0 where
  pub tracked : s.active ≡ s.running
  pub unique : IsUnique s.running

begin-IsExclusive :
    (key target : String) (s : Transitions)
    → IsExclusive s
    → IsExclusive (begin_transition key target s).1
unfolding begin_transition
begin-IsExclusive key target s x = elim (Option-cases (value_at key s.active)) [
  | inl free ↦
      let t : Transition = record { number = s.next; target_model = target } in
      let unheld : value_at key s.running ≡ none = rw (← x.tracked) free in
      rw free (record {
        tracked = rw (x.tracked) (put_at_absent key t s.running unheld);
        unique =
            rw (← put_at_absent key t s.running unheld) (put_at-IsUnique key t s.running x.unique);
      })
  | inr (t, taken) ↦ rw taken x
]

end-IsExclusive :
    (key : String) (n : ℕ) (s : Transitions) → IsExclusive s → IsExclusive (end_transition key n s)
unfolding end_transition
end-IsExclusive key n s x = elim (Bool-cases (any (is_task key n) s.running)) [
  | inl runs ↦
      let held : is_held_by n (value_at key s.active) ≡ true =
        rw x.tracked (task-is_held_by key n s.running x.unique runs) in
      let removed = remove_at-remove_task key n s.running x.unique runs in
      rw (runs, held)
        (record {
          tracked = rw x.tracked removed;
          unique = rw (← removed) (remove_at-IsUnique key s.running x.unique);
        })
  | inr other ↦ rw other x
]

advance-IsExclusive :
    (es : List Event) (s : Transitions) → IsExclusive s → IsExclusive (advance es s)
unfolding advance
advance-IsExclusive [] s x = x
advance-IsExclusive (begins key target ∷ es) s x =
    advance-IsExclusive es (begin_transition key target s).1 (begin-IsExclusive key target s x)
advance-IsExclusive (ends key n ∷ es) s x =
    advance-IsExclusive es (end_transition key n s) (end-IsExclusive key n s x)

-- However transitions begin and end, in any order, the channels that are held are those of the
-- tasks that run, in the order in which they began, and no channel has two of them.
pub advance-Exclusive :
    (es : List Event)
    → ((advance es no_transitions).active ≡ (advance es no_transitions).running)
      × IsUnique (advance es no_transitions).running
advance-Exclusive es =
    let x = advance-IsExclusive es no_transitions (record { tracked = refl; unique = tt }) in
    (x.tracked, x.unique)

-- When a task that runs ends, after any history, its channel is free, so that no post waits for it
-- and the next transition of the channel begins, and the promise that posts waited for is resolved.
pub end_transition-frees :
    (es : List Event) (key target : String) (n : ℕ)
    → any (is_task key n) (advance es no_transitions).running ≡ true
    → (waits_for key (end_transition key n (advance es no_transitions)) ≡ none)
      × ((begin_transition key target (end_transition key n (advance es no_transitions))).0
          ≡ begun (advance es no_transitions).next)
      × ((end_transition key n (advance es no_transitions)).settled
          ≡ (advance es no_transitions).settled ++ n ∷ [])
unfolding end_transition waits_for begin_transition
end_transition-frees es key target n runs =
    let s = advance es no_transitions in
    let x = advance-IsExclusive es no_transitions (record { tracked = refl; unique = tt }) in
    let held : is_held_by n (value_at key s.active) ≡ true =
      rw x.tracked (task-is_held_by key n s.running x.unique runs) in
    rw (runs, held, value_at-remove_at key s.active) (refl, refl, refl)
