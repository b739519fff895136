-- ===== src/Stop/Buttons.antt =====
-- src/mattermost/preview-stop.ts: what the cleanup takes off a post.
use mathlib.Core.List.{Memᴰ}
use mathlib.Core.List.Memᴰ
use openclaw_mattermost_cust.Base.{
  ◌≡◌, ◌≢◌, refl, ap, sym, ◌∙◌, Bool, Bool-cases, inl, inr, true, false, String, ◌==◌, eq_iff,
  Option, none, some, List, [], ◌∷◌, ◌++◌, any, arith,
}
use openclaw_mattermost_cust.Base.Text.{any-Mem}
use openclaw_mattermost_cust.Stream.Value.{
  Js, text, undefined, null, array, boolean, integer, other_number, object,
}
use openclaw_mattermost_cust.Stop.Registry.{Turn}
use openclaw_mattermost_cust.Stop.Cleanup.{
  Attachment, other, acting, Post, stop_action_id, is_token_of, is_stop, has_stop, without_stop,
  kept_attachment, without_control, is_own_post, cleaned,
}

-- The actions of all attachments, in order.
abbrev pub all_actions : List Attachment → List (Option String)
all_actions [] = []
all_actions (other value ∷ rest) = all_actions rest
all_actions (acting actions has_text ∷ rest) = actions ++ all_actions rest

any_stop-without_stop :
    (actions : List (Option String)) → any (λ a. is_stop a) (without_stop actions) ≡ false
unfolding without_stop
any_stop-without_stop [] = refl
any_stop-without_stop (a ∷ rest) = ground (arith, any_stop-without_stop rest)

without_stop-append :
    (xs ys : List (Option String)) → without_stop (xs ++ ys) ≡ without_stop xs ++ without_stop ys
unfolding without_stop
without_stop-append [] ys = refl
without_stop-append (x ∷ xs) ys = elim (Bool-cases (is_stop x)) [
  | inl stop ↦ rw stop (without_stop-append xs ys)
  | inr plain ↦ rw plain (ap (λ r. x ∷ r) (without_stop-append xs ys))
]

kept_actions :
    (actions : List (Option String)) (has_text : Bool) (rest : List Attachment)
    → all_actions (kept_attachment actions has_text ++ rest) ≡ actions ++ all_actions rest
kept_actions [] true rest = refl
kept_actions [] false rest = refl
kept_actions (a ∷ actions) has_text rest = refl

kept_stop :
    (actions : List (Option String)) (has_text : Bool) (rest : List Attachment)
    → any (λ a. is_stop a) actions ≡ false
    → has_stop rest ≡ false
    → has_stop (kept_attachment actions has_text ++ rest) ≡ false
kept_stop [] true rest h k = k
kept_stop [] false rest h k = k
kept_stop (a ∷ actions) has_text rest h k = ground arith

has_stop-without_control : (found : List Attachment) → has_stop (without_control found) ≡ false
unfolding without_control
has_stop-without_control [] = refl
has_stop-without_control (other value ∷ rest) = has_stop-without_control rest
has_stop-without_control (acting actions has_text ∷ rest) =
    kept_stop (without_stop actions) has_text (without_control rest) (any_stop-without_stop actions)
      (has_stop-without_control rest)

actions-without_control :
    (found : List Attachment)
    → all_actions (without_control found) ≡ without_stop (all_actions found)
unfolding without_control without_stop
actions-without_control [] = refl
actions-without_control (other value ∷ rest) = actions-without_control rest
actions-without_control (acting actions has_text ∷ rest) =
    kept_actions (without_stop actions) has_text (without_control rest)
    ∙ (ap (λ r. without_stop actions ++ r) (actions-without_control rest)
        ∙ sym (without_stop-append actions (all_actions rest)))

-- What the actions are without every one of the id "openclawstop", in their order.
pub data Remain : List (Option String) → List (Option String) → Type 0 where
  ended : Remain [] []
  dropped :
      {found kept : List (Option String)}
      → Remain found kept
      → Remain (some "openclawstop" ∷ found) kept
  stayed :
      {a : Option String} {found kept : List (Option String)}
      → a ≢ some "openclawstop"
      → Remain found kept
      → Remain (a ∷ found) (a ∷ kept)

other_action : (id : String) → (id == stop_action_id) ≡ false → some id ≢ some "openclawstop"
other_action id plain e =
    let same : some id ≡ some stop_action_id = e in
    let hit = (eq_iff id stop_action_id).1 (cc) in absurd (cc)

without_stop-Remain : (actions : List (Option String)) → Remain actions (without_stop actions)
unfolding without_stop
without_stop-Remain [] = ended
without_stop-Remain (none ∷ rest) = stayed (λ e. absurd (cc)) (without_stop-Remain rest)
without_stop-Remain (some id ∷ rest) = elim (Bool-cases (id == stop_action_id)) [
  | inl stop ↦ rw (stop, (eq_iff id stop_action_id).0 stop) (dropped (without_stop-Remain rest))
  | inr plain ↦ rw plain (stayed (other_action id plain) (without_stop-Remain rest))
]

-- The post is the one asked for, in the turn's channel, the bot's and not deleted, and its control is
-- one of the tokens that the turn was given.
abbrev pub IsOfTurn : String → Turn → String → Post → Type 0
IsOfTurn bot t id p =
    (p.id ≡ id)
    × (p.channel_id ≡ t.channel_id)
    × (p.user_id ≡ bot)
    × (p.deleted ≡ false)
    × ((token : String) × (p.control ≡ text token) × Memᴰ token t.tokens)

any_stop-Mem :
    (actions : List (Option String))
    → any (λ a. is_stop a) actions ≡ true
    → Memᴰ (some "openclawstop") actions
any_stop-Mem [] e = absurd (cc)
any_stop-Mem (none ∷ rest) e = Memᴰ.tail (any_stop-Mem rest e)
any_stop-Mem (some id ∷ rest) e = elim (Bool-cases (id == stop_action_id)) [
  | inl hit ↦ Memᴰ.head (ap some (sym ((eq_iff id stop_action_id).0 hit)))
  | inr miss ↦ Memᴰ.tail (any_stop-Mem rest (ground arith))
]

pub has_stop-Mem :
    (found : List Attachment)
    → has_stop found ≡ true
    → Memᴰ (some "openclawstop") (all_actions found)
has_stop-Mem [] e = absurd (cc)
has_stop-Mem (other value ∷ rest) e = has_stop-Mem rest e
has_stop-Mem (acting actions has_text ∷ rest) e = elim (Bool-cases (any (λ a. is_stop a) actions)) [
  | inl here ↦ Memᴰ.append_left (all_actions rest) (any_stop-Mem actions here)
  | inr later ↦ Memᴰ.append_right actions (has_stop-Mem rest (ground arith))
]

control-Mem :
    (t : Turn) (control : Js)
    → is_token_of t control ≡ true
    → (token : String) × (control ≡ text token) × Memᴰ token t.tokens
control-Mem t (text token) e = (token, refl, any-Mem token t.tokens e)
control-Mem t undefined e = absurd (cc)
control-Mem t null e = absurd (cc)
control-Mem t array e = absurd (cc)
control-Mem t (boolean b) e = absurd (cc)
control-Mem t (integer n) e = absurd (cc)
control-Mem t other_number e = absurd (cc)
control-Mem t (object fields) e = absurd (cc)

own-IsOfTurn :
    (bot : String) (t : Turn) (id : String) (p : Post)
    → is_own_post bot t id p ≡ true
    → IsOfTurn bot t id p
own-IsOfTurn bot t id p own = (
  (eq_iff p.id id).0 (ground arith),
  (eq_iff p.channel_id t.channel_id).0 (ground arith),
  (eq_iff p.user_id bot).0 (ground arith),
  ground arith,
  control-Mem t p.control (ground arith),
)

-- At the end of a turn a post is updated only if it is the one asked for, in the turn's channel, the
-- bot's, not deleted, and its control is a token of the turn. Of the actions of all its attachments
-- exactly those of the id "openclawstop" are gone, and the others stay, in their order.
pub has_stop-cleaned :
    (bot : String) (t : Turn) (id : String) (p : Post) (found kept : List Attachment)
    → p.attachments ≡ some found
    → cleaned bot t id p ≡ some kept
    → IsOfTurn bot t id p × (has_stop kept ≡ false) × Remain (all_actions found) (all_actions kept)
unfolding cleaned
has_stop-cleaned bot t id p found kept has gives = elim (Bool-cases (is_own_post bot t id p)) [
  | inl own ↦
      let given : cleaned bot t id p ≡ some (without_control found) = rw (own, has) refl in
      let same : kept ≡ without_control found = cc in
      (
        own-IsOfTurn bot t id p own,
        rw same (has_stop-without_control found),
        rw (same, actions-without_control found) (without_stop-Remain (all_actions found)),
      )
  | inr foreign ↦ let given : cleaned bot t id p ≡ none = rw foreign refl in absurd (cc)
]
