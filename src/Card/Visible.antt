-- ===== src/Card/Visible.antt =====
-- src/mattermost/task-progress-card.ts: the subtasks that the host lists (`noteVisibleWorkSessions`).
use openclaw_mattermost_cust.Base.{
  suc, Bool, true, false, not, ◌&&◌, ◌||◌, String, Option, none, some, List, [], ◌∷◌, length,
  or_else, is_some, if◌then◌else◌,
}
use openclaw_mattermost_cust.Base.Text.{concat}
use openclaw_mattermost_cust.Base.Keyed.{value_at, put_at}
use openclaw_mattermost_cust.Stream.Value.{Js, undefined, text}
use openclaw_mattermost_cust.Card.Lines.{Tools, normalize_single_line, bounded_line}
use openclaw_mattermost_cust.Card.Render.{
  SessionStatus, VisibleStatus, normalize_status, normalize_url, Session, Sessions, is_active,
}
use openclaw_mattermost_cust.Card.State.{Card, publish_change}
use openclaw_mattermost_cust.Card.Sessions.{or_option, max_label_chars}

pub record VisibleSession : Type 0 where
  pub session_key : String
  pub url : Option String
  pub label : Option String
  pub run_id : Option String
  pub status : Option VisibleStatus

abbrev pub label_value : Option String → Js
label_value none = undefined
label_value (some s) = text s

-- A status that would reopen a subtask is not taken over.
abbrev pub with_status : SessionStatus → Session → Session
with_status status w =
    if is_active status && not (is_active w.status)
    then w
    else if is_active status
    then record w { status = status }
    else record w { status = status; progress = none }

module _ (tools : Tools) where
  open tools use {show}

  abbrev pub label_of : VisibleSession → Option Session → Sessions → String
  label_of v existing ss =
      or_else
        (or_option (bounded_line tools (label_value v.label) max_label_chars)
          (elim existing [ none ↦ none | some w ↦ some w.label ]))
        (concat ("Subtask " ∷ show (suc (length ss)) ∷ []))

  abbrev pub merged : VisibleSession → Option String → Option Session → Sessions → Session
  merged v url none ss = record {
    url = url;
    label = label_of v none ss;
    run_id = v.run_id;
    progress = none;
    status = normalize_status v.status;
  }
  merged v url (some w) ss = with_status (normalize_status v.status) (record w {
    url = or_option url w.url;
    label = label_of v (some w) ss;
    run_id = or_option v.run_id w.run_id;
  })

  abbrev pub reference_of : Option String → Option String
  unfolding normalize_url
  reference_of none = none
  reference_of (some url) = normalize_url tools url

  -- A key and a reference that can be used.
  abbrev pub is_usable : VisibleSession → Bool
  is_usable v =
      is_some (normalize_single_line (some v.session_key))
      && (not (is_some v.url) || is_some (reference_of v.url))

  abbrev pub note_visible : VisibleSession → Sessions → Sessions
  unfolding normalize_single_line bounded_line normalize_url
  note_visible v ss =
      let key = or_else (normalize_single_line (some v.session_key)) "" in
      put_at key (merged v (reference_of v.url) (value_at key ss) ss) ss

  -- With the flag whether a session was taken over.
  unfoldable pub note_all_visible : List VisibleSession → Bool → Sessions → Bool × Sessions
  unfolding note_visible normalize_single_line normalize_url
  note_all_visible [] changed ss = (changed, ss)
  note_all_visible (v ∷ vs) changed ss =
      if is_usable v
      then note_all_visible vs true (note_visible v ss)
      else note_all_visible vs changed ss

  unfoldable pub changed_sessions : Bool × Sessions → Card → Card
  unfolding publish_change
  changed_sessions (changed, ss) s =
      let next = record s { sessions = ss } in
      if not changed || not (is_some s.latest) then next else publish_change next

  unfoldable pub note_visible_sessions : List VisibleSession → Card → Card
  unfolding note_all_visible changed_sessions
  note_visible_sessions vs s =
      if s.settled then s else changed_sessions (note_all_visible vs false s.sessions) s
