-- ===== src/Card/Render.antt =====
-- src/mattermost/task-progress-card.ts: the statuses of a card and of its subtasks, and the card as text.
use Prim.Native.Char.{code}
use Prim.Native.String
use Prim.Native.String.{[], ◌∷◌}
use openclaw_mattermost_cust.Base.{
  ℕ, ◌-◌, Bool, true, false, ◌||◌, String, ◌==◌, Option, none, some, List, [], ◌∷◌, ◌++◌, map,
  or_else, take, length, eqb, ltb, if◌then◌else◌,
}
use openclaw_mattermost_cust.Base.Text.{concat, join, truthy}
use openclaw_mattermost_cust.Card.Lines.{Tools, Step, pending, in_work, done, normalize_explanation}

pub data Terminal : Type 0 where
  completed incomplete failed cancelled : Terminal

pub data CardStatus : Type 0 where
  in_progress : CardStatus
  ended : Terminal → CardStatus

pub data SessionStatus : Type 0 where
  queued running session_completed session_failed session_cancelled : SessionStatus

-- The statuses that the host gives.
pub data VisibleStatus : Type 0 where
  visible_queued visible_running visible_done visible_failed interrupted killed timeout :
      VisibleStatus

pub record Session : Type 0 where
  pub url : Option String
  pub label : String
  pub run_id : Option String
  pub progress : Option String
  pub status : SessionStatus

-- The subtasks with their keys, in the order in which they were added.
abbrev pub Sessions : Type 0
Sessions = List (String × Session)

pub record Snapshot : Type 0 where
  pub revision : ℕ
  pub title : Option String
  pub explanation : Option String
  pub steps : List Step
  pub work_sessions : Sessions
  pub status : CardStatus

abbrev pub render_status : CardStatus → String
render_status in_progress = "In progress"
render_status (ended completed) = "Completed"
render_status (ended incomplete) = "Incomplete"
render_status (ended failed) = "Failed"
render_status (ended cancelled) = "Cancelled"

abbrev pub checklist_line : Step → String
checklist_line s = elim s.status [
  | done ↦ concat ("- [x] " ∷ s.step ∷ [])
  | in_work ↦ concat ("- [ ] **" ∷ s.step ∷ "**" ∷ [])
  | pending ↦ concat ("- [ ] " ∷ s.step ∷ [])
]

abbrev pub normalize_status : Option VisibleStatus → SessionStatus
normalize_status none = running
normalize_status (some visible_queued) = queued
normalize_status (some visible_running) = running
normalize_status (some visible_done) = session_completed
normalize_status (some visible_failed) = session_failed
normalize_status (some timeout) = session_failed
normalize_status (some interrupted) = session_cancelled
normalize_status (some killed) = session_cancelled

abbrev pub is_active : SessionStatus → Bool
is_active queued = true
is_active running = true
is_active _ = false

-- The parentheses of a reference, escaped.
unfoldable pub escape_parens : String → String
escape_parens [] = []
escape_parens (c ∷ s) =
    if eqb (code c) 40
    then String.◌++◌ "%28" (escape_parens s)
    else if eqb (code c) 41
    then String.◌++◌ "%29" (escape_parens s)
    else c ∷ escape_parens s

abbrev pub is_markup : ℕ → Bool
is_markup c =
    eqb c 92
    || eqb c 91
    || eqb c 93
    || eqb c 40
    || eqb c 41
    || eqb c 42
    || eqb c 95
    || eqb c 96
    || eqb c 126

unfoldable pub escape_label : String → String
escape_label [] = []
escape_label (c ∷ s) =
    let rest = escape_label s in
    if is_markup (code c) then String.◌++◌ "\\" (c ∷ rest) else c ∷ rest

abbrev pub linked : Option String → String → String
linked url label =
    if truthy url then concat ("[" ∷ label ∷ "](" ∷ or_else url "" ∷ ")" ∷ []) else label

abbrev pub progress_part : Option String → String
progress_part progress = if truthy progress then String.◌++◌ " — " (or_else progress "") else ""

unfoldable pub session_line : Session → String
unfolding escape_label
session_line s =
    let label = linked s.url (escape_label s.label) in
    elim s.status [
      | session_completed ↦ concat ("- [x] " ∷ label ∷ " · Completed" ∷ [])
      | session_failed ↦ concat ("- [ ] " ∷ label ∷ " · Failed" ∷ [])
      | session_cancelled ↦ concat ("- [ ] " ∷ label ∷ " · Cancelled" ∷ [])
      | queued ↦ concat ("- [ ] " ∷ label ∷ " · Queued" ∷ [])
      | running ↦ concat ("- [ ] **" ∷ label ∷ " · Running**" ∷ progress_part s.progress ∷ [])
    ]

abbrev pub max_rendered : ℕ
max_rendered = 5

abbrev pub line_if : Option String → List String
line_if line = if truthy line then or_else line "" ∷ [] else []

abbrev pub checklist : List String → List String
checklist [] = []
checklist (l ∷ ls) = "" ∷ l ∷ ls

module _ (tools : Tools) where
  open tools use {parse_url, show}

  abbrev pub safe_reference : Option (String × String) → Option String
  safe_reference none = none
  safe_reference (some (protocol, href)) =
      if protocol == "http:" || protocol == "https:" then some (escape_parens href) else none

  unfoldable pub normalize_url : String → Option String
  unfolding escape_parens
  normalize_url value = safe_reference (parse_url value)

  abbrev pub hidden_line : ℕ → List String
  hidden_line hidden =
      if ltb 0 hidden
      then concat (
          "- _"
          ∷ show hidden
          ∷ " additional "
          ∷ (if eqb hidden 1 then "subtask" else "subtasks")
          ∷ " tracked_"
          ∷ [])
        ∷ []
      else []

  abbrev pub subtasks : Sessions → List String
  unfolding session_line
  subtasks [] = []
  subtasks (s ∷ ss) =
      ""
      ∷ "##### Subtasks"
      ∷ (map (λ e. session_line e.1) (take max_rendered (s ∷ ss))
          ++ hidden_line (length (s ∷ ss) - max_rendered))

  unfoldable pub render_card : Snapshot → String
  unfolding normalize_explanation session_line
  render_card s = join "\n" (
      concat ("#### Task progress · " ∷ render_status s.status ∷ [])
      ∷ (line_if s.title
          ++ (line_if (normalize_explanation s.explanation)
              ++ (checklist (map (λ t. checklist_line t) s.steps) ++ subtasks s.work_sessions))))
