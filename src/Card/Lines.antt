-- ===== src/Card/Lines.antt =====
-- src/mattermost/task-progress-card.ts: the normal forms of titles, explanations and steps.
use Prim.Native.String
use Prim.Native.String.{[], ◌∷◌}
use openclaw_mattermost_cust.Base.{
  ℕ, ◌-◌, Bool, false, ◌&&◌, ◌||◌, String, ◌==◌, Option, none, some, List, [], ◌∷◌, or_else, take,
  ltb, if◌then◌else◌,
}
use openclaw_mattermost_cust.Base.Text.{
  collapse, is_empty, trim, trim_end, utf16_length, take_units, same_ignoring_case,
}
use openclaw_mattermost_cust.Stream.Value.{Js, as_text}

-- What the file calls elsewhere: `sliceUtf16Safe` from the start, the URL parser with the protocol
-- and the reference of a URL, and the printing of numbers.
pub record Tools : Type 0 where
  pub slice_safe : ℕ → String → String
  pub parse_url : String → Option (String × String)
  pub show : ℕ → String

pub data StepStatus : Type 0 where
  pending in_work done : StepStatus

pub record Step : Type 0 where
  pub step : String
  pub status : StepStatus

abbrev pub nonempty : String → Option String
nonempty s = if is_empty s then none else some s

unfoldable pub normalize_single_line : Option String → Option String
unfolding collapse trim
normalize_single_line none = none
normalize_single_line (some value) = nonempty (trim (collapse false value))

-- A notice with a full stop, an exclamation mark or neither, in any case.
abbrev pub is_notice : String → String → Bool
is_notice notice s =
    same_ignoring_case notice s
    || same_ignoring_case (String.◌++◌ notice ".") s
    || same_ignoring_case (String.◌++◌ notice "!") s

abbrev pub is_from : String → Option String → Bool
is_from name source = elim source [ none ↦ false | some s ↦ s == name ]

unfoldable pub normalize_title : Option String → Option String → Option String
unfolding normalize_single_line same_ignoring_case
normalize_title value source =
    let normalized = normalize_single_line value in
    if is_from "openclaw" source && is_notice "plan updated" (or_else normalized "")
    then none
    else normalized

abbrev pub shortened : String → String
shortened s = if ltb 1500 (utf16_length s) then String.◌++◌ (take_units 1497 s) "…" else s

abbrev pub explanation_of : String → Option String
explanation_of s = if is_empty s || is_notice "plan updated" s then none else some (shortened s)

-- A cut through a surrogate pair, which no text of the model holds, leaves the pair out.
unfoldable pub normalize_explanation : Option String → Option String
unfolding trim same_ignoring_case utf16_length take_units
normalize_explanation none = none
normalize_explanation (some value) = explanation_of (trim value)

unfoldable pub normalize_plan_explanation : Option String → Option String → Option String
unfolding normalize_explanation same_ignoring_case
normalize_plan_explanation value source =
    let normalized = normalize_explanation value in
    if is_from "openclaw" source && is_notice "progress updated" (or_else normalized "")
    then none
    else normalized

abbrev pub max_step_chars : ℕ
max_step_chars = 240

abbrev pub max_plan_steps : ℕ
max_plan_steps = 50

module _ (tools : Tools) where
  open tools use {slice_safe}

  abbrev pub bounded : ℕ → String → String
  bounded most s =
      if ltb most (utf16_length s) then String.◌++◌ (trim_end (slice_safe (most - 1) s)) "…" else s

  abbrev pub bounded_option : ℕ → Option String → Option String
  bounded_option most none = none
  bounded_option most (some s) = some (bounded most s)

  unfoldable pub bounded_line : Js → ℕ → Option String
  unfolding normalize_single_line utf16_length trim_end
  bounded_line value most = bounded_option most (normalize_single_line (as_text value))

  abbrev pub step_text : String → String
  step_text s = bounded max_step_chars (trim (collapse false s))

  unfoldable pub nonempty_steps : List Step → List Step
  unfolding collapse trim utf16_length trim_end
  nonempty_steps [] = []
  nonempty_steps (s ∷ ss) =
      let rest = nonempty_steps ss in
      if is_empty (step_text s.step) then rest else record s { step = step_text s.step } ∷ rest

  -- Without steps, the list is empty.
  unfoldable pub normalize_steps : List Step → List Step
  unfolding nonempty_steps
  normalize_steps steps = take max_plan_steps (nonempty_steps steps)
