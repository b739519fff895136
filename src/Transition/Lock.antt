-- ===== src/Transition/Lock.antt =====
-- src/mattermost/channel-model-transition.ts: a transition holds its channel while its task runs.
-- A transition object is known by its number, and its promise `settled` by the same.
use openclaw_mattermost_cust.Base.{
  ℕ, suc, Bool, false, ◌&&◌, String, ◌==◌, Option, none, some, List, [], ◌∷◌, ◌++◌, any, eqb,
  if◌then◌else◌,
}
use openclaw_mattermost_cust.Base.Text.{concat}
use openclaw_mattermost_cust.Base.Keyed.{value_at, put_at, remove_at}

pub record Transition : Type 0 where
  pub number : ℕ
  pub target_model : String

-- `active` is the Map of the module; `running` are the calls whose task has not ended, and
-- `settled` the promises that are resolved.
pub record Transitions : Type 0 where
  pub active : List (String × Transition)
  pub running : List (String × Transition)
  pub settled : List ℕ
  pub next : ℕ

abbrev pub no_transitions : Transitions
no_transitions = record { active = []; running = []; settled = []; next = 0 }

abbrev pub transition_key : String → String → String
transition_key account channel = concat (account ∷ ":" ∷ channel ∷ [])

pub data Outcome : Type 0 where
  busy : String → Outcome
  begun : ℕ → Outcome

abbrev pub begin_with : Option Transition → String → String → Transitions → Outcome × Transitions
begin_with (some t) key target s = (busy t.target_model, s)
begin_with none key target s =
    let t : Transition = record { number = s.next; target_model = target } in
    (
      begun s.next,
      record s {
        active = put_at key t s.active;
        running = s.running ++ (key, t) ∷ [];
        next = suc s.next;
      },
    )

-- Up to the start of the task.
unfoldable pub begin_transition : String → String → Transitions → Outcome × Transitions
begin_transition key target s = begin_with (value_at key s.active) key target s

abbrev pub is_task : String → ℕ → String × Transition → Bool
is_task key n e = e.0 == key && eqb e.1.number n

abbrev pub remove_task : String → ℕ → List (String × Transition) → List (String × Transition)
remove_task key n [] = []
remove_task key n (e ∷ es) = if is_task key n e then es else e ∷ remove_task key n es

abbrev pub is_held_by : ℕ → Option Transition → Bool
is_held_by n none = false
is_held_by n (some t) = eqb t.number n

-- The `finally` block, when the task of a running call returns or throws.
unfoldable pub end_transition : String → ℕ → Transitions → Transitions
end_transition key n s =
    if any (is_task key n) s.running
    then record s {
      active = if is_held_by n (value_at key s.active) then remove_at key s.active else s.active;
      running = remove_task key n s.running;
      settled = s.settled ++ n ∷ [];
    }
    else s

abbrev pub promise_of : Option Transition → Option ℕ
promise_of none = none
promise_of (some t) = some t.number

-- The promise that a new post waits for, if there is one.
unfoldable pub waits_for : String → Transitions → Option ℕ
waits_for key s = promise_of (value_at key s.active)

pub data Event : Type 0 where
  begins : String → String → Event
  ends : String → ℕ → Event

unfoldable pub advance : List Event → Transitions → Transitions
unfolding begin_transition end_transition
advance [] s = s
advance (begins key target ∷ es) s = advance es (begin_transition key target s).1
advance (ends key n ∷ es) s = advance es (end_transition key n s)
