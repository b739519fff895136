-- ===== src/Stop/Capability.antt =====
-- src/mattermost/preview-stop.ts: what a click on Stop can stop, and under which conditions.
use mathlib.Core.List.{Memᴰ}
use openclaw_mattermost_cust.Base.{
  ℕ, ◌≡◌, ◌≢◌, refl, ap, sym, subst, ◌∙◌, Bool-cases, inl, inr, true, false, String, eq_iff,
  eqb_iff, Option, none, some, List, [], ◌∷◌, arith,
}
use openclaw_mattermost_cust.Base.Keyed.{value_at}
use openclaw_mattermost_cust.Base.Text.{any-Mem}
use openclaw_mattermost_cust.Stream.Value.{
  Js, text, undefined, null, array, boolean, integer, other_number, object, is_text,
}
use openclaw_mattermost_cust.Stop.Registry.{
  Entry, Monitor, Identity, threw, known, is_ref, same_option, is_same_session, is_current,
}
use openclaw_mattermost_cust.Stop.Click.{
  Click, requested, stale, has_control, fetching, stop_begin, begin_found, begin_control,
  find_entry, admits, Answers, stop_end, end_fetched, end_decided, abort, Decision,
}
use openclaw_mattermost_cust.Stop.Cleanup.{Attachment, Post, has_stop}
use openclaw_mattermost_cust.Stop.Buttons.{all_actions, has_stop-Mem}

-- The click carries the token of an entry that is registered, on a post that the entry's turn has
-- noted, in the entry's channel and by its sender.
abbrev pub IsAsked : Click → Entry → Monitor → Type 0
IsAsked c e m =
    (c.control ≡ some (text e.token))
    × ((key : String) × Memᴰ (key, e) m.entries)
    × Memᴰ c.post_id (m.turns e.owner).posts
    × (e.channel_id ≡ c.channel_id)
    × (e.sender_id ≡ c.user_id)

-- The entry's turn runs and was not stopped, the monitor was not shut down, the entry is the one that
-- is registered for its session, and the session is the one that it was registered for.
abbrev pub IsLive : Entry → Monitor → Type 0
IsLive e m =
    ((m.turns e.owner).finished ≡ false)
    × ((m.turns e.owner).stopped ≡ false)
    × (m.shut_down ≡ false)
    × ((f : Entry) × (value_at e.session_key m.entries ≡ some f) × (f.ref ≡ e.ref))
    × (m.identities e.session_key ≡ known (some e.session_id) e.revision)

-- The server gives the post that was clicked as one of the bot, in the entry's channel, not deleted,
-- under the entry's token and with a Stop button.
abbrev pub IsShown : String → Click → Entry → Post → Type 0
IsShown bot c e p =
    (p.id ≡ c.post_id)
    × (p.channel_id ≡ e.channel_id)
    × (p.user_id ≡ bot)
    × (p.deleted ≡ false)
    × (p.control ≡ text e.token)
    × ((found : List Attachment) × (p.attachments ≡ some found)
        × Memᴰ (some "openclawstop") (all_actions found))

abbrev pub IsAllowed : Decision → Type 0
IsAllowed d =
    (d.enabled ≡ true)
    × (d.allow_text_commands ≡ true)
    × (d.ok ≡ true)
    × (d.command_authorized ≡ true)

text_of : (v : Js) (s : String) → is_text v s ≡ true → v ≡ text s
text_of (text t) s e = ap text ((eq_iff t s).0 e)
text_of undefined s e = absurd (cc)
text_of null s e = absurd (cc)
text_of array s e = absurd (cc)
text_of (boolean b) s e = absurd (cc)
text_of (integer n) s e = absurd (cc)
text_of other_number s e = absurd (cc)
text_of (object fields) s e = absurd (cc)

same_text : (a b : Option String) → same_option a b ≡ true → a ≡ b
same_text none none e = refl
same_text (some a) (some b) e = ap some ((eq_iff a b).0 e)
same_text none (some b) e = absurd (cc)
same_text (some a) none e = absurd (cc)

same_session :
    (e : Entry) (i : Identity)
    → is_same_session e i ≡ true
    → i ≡ known (some e.session_id) e.revision
same_session e threw same = absurd (cc)
same_session e (known id revision) same =
    let a = same_text id (some e.session_id) (ground arith) in
    let b = same_text revision e.revision (ground arith) in rw (a, b) refl

registered_ref :
    (e : Entry) (o : Option Entry)
    → is_ref e.ref o ≡ true
    → (f : Entry) × (o ≡ some f) × (f.ref ≡ e.ref)
registered_ref e none same = absurd (cc)
registered_ref e (some f) same = (f, refl, (eqb_iff f.ref e.ref).0 same)

current-IsLive : (e : Entry) (m : Monitor) → is_current e m ≡ true → IsLive e m
unfolding is_current
current-IsLive e m live = (
  ground arith,
  ground arith,
  ground arith,
  registered_ref e (value_at e.session_key m.entries) (ground arith),
  same_session e (m.identities e.session_key) (ground arith),
)

find_entry-Mem :
    (token : Js) (es : List (String × Entry)) (e : Entry)
    → find_entry token es ≡ some e
    → (is_text token e.token ≡ true) × ((key : String) × Memᴰ (key, e) es)
unfolding find_entry
find_entry-Mem token [] e found = absurd (cc)
find_entry-Mem token (x ∷ es) e found = elim (Bool-cases (is_text token x.1.token)) [
  | inl hit ↦
      let same : some x.1 ≡ some e = rw (← found, hit) refl in
      let here : x.1 ≡ e = cc in (rw (← here) hit, (x.0, Memᴰ.head (rw here refl)))
  | inr miss ↦
      let later = find_entry-Mem token es e (rw (← found, miss) refl) in
      (later.0, (later.1.0, Memᴰ.tail later.1.1))
]

-- What `stop_begin` tests of the entry that it found.
admitted :
    (c : Click) (token : Js) (m : Monitor) (e : Entry)
    → c.control ≡ some token
    → find_entry token m.entries ≡ some e
    → admits c e m ≡ true
    → IsAsked c e m
unfolding admits
admitted c token m e here found admits_it =
    let at = find_entry-Mem token m.entries e found in
    (
      rw (here, text_of token e.token at.0) refl,
      at.1,
      any-Mem c.post_id (m.turns e.owner).posts (ground arith),
      (eq_iff e.channel_id c.channel_id).0 (ground arith),
      (eq_iff e.sender_id c.user_id).0 (ground arith),
    )

begin_found-IsAsked :
    (c : Click) (token : Js) (found : Option Entry) (m : Monitor) (e : Entry)
    → c.control ≡ some token
    → find_entry token m.entries ≡ found
    → begin_found c found m ≡ fetching e
    → IsAsked c e m
unfolding begin_found
begin_found-IsAsked c token none m e here at begun = absurd (cc)
begin_found-IsAsked c token (some f) m e here at begun =
    let same : f ≡ e = ground arith in
    admitted c token m e here (at ∙ ap some same)
      (subst (λ x. admits c x m ≡ true) same (ground arith))

begin_control-IsAsked :
    (c : Click) (control : Option Js) (m : Monitor) (e : Entry)
    → c.control ≡ control
    → begin_control c control m ≡ fetching e
    → IsAsked c e m
unfolding begin_control
begin_control-IsAsked c none m e here begun = absurd (cc)
begin_control-IsAsked c (some token) m e here begun =
    begin_found-IsAsked c token (find_entry token m.entries) m e here refl begun

-- The turn of the entry is stopped, and nothing else of the monitor has changed.
abbrev pub StopsOnly : Entry → ℕ → Monitor → Monitor → Type 0
StopsOnly e another m next =
    (next.turns e.owner ≡ record (m.turns e.owner) { stopped = true })
    × (next.turns another ≡ m.turns another)
    × (next.entries ≡ m.entries)
    × (next.made ≡ m.made)
    × (next.shut_down ≡ m.shut_down)

abort-StopsOnly :
    (e : Entry) (another : ℕ) (m : Monitor) → another ≢ e.owner → StopsOnly e another m (abort e m)
abort-StopsOnly e another m apart = (
  ground (arith, eqb_iff e.owner e.owner),
  ground (arith, eqb_iff another e.owner),
  refl,
  refl,
  refl,
)

end_decided_requested :
    (e : Entry) (d : Option Decision) (m next : Monitor)
    → end_decided e d m ≡ (requested, next)
    → ((given : Decision) × (d ≡ some given) × IsAllowed given)
      × (is_current e m ≡ true)
      × (next ≡ abort e m)
unfolding end_decided
end_decided_requested e none m next ended = let reply = ap (λ r. r.0) ended in absurd (cc)
end_decided_requested e (some d) m next ended = (
  (d, refl, (ground arith, ground arith, ground arith, ground arith)),
  ground arith,
  ground arith,
)

has_control-IsShown :
    (bot : String) (c : Click) (e : Entry) (p : Post)
    → has_control bot c e p ≡ true
    → IsShown bot c e p
has_control-IsShown bot c e p has = (
  (eq_iff p.id c.post_id).0 (ground arith),
  (eq_iff p.channel_id e.channel_id).0 (ground arith),
  (eq_iff p.user_id bot).0 (ground arith),
  ground arith,
  text_of p.control e.token (ground arith),
  shown p.attachments (ground arith),
)
  where
    shown :
        (o : Option (List Attachment))
        → elim o [ none ↦ false | some found ↦ has_stop found ] ≡ true
        → (found : List Attachment) × (o ≡ some found)
          × Memᴰ (some "openclawstop") (all_actions found)
    shown none e = absurd (cc)
    shown (some found) e = (found, refl, has_stop-Mem found e)

end_fetched_requested :
    (bot : String) (c : Click) (e : Entry) (p : Option Post) (d : Option Decision)
    (m next : Monitor)
    → end_fetched bot c e p d m ≡ (requested, next)
    → ((post : Post) × (p ≡ some post) × IsShown bot c e post)
      × (end_decided e d m ≡ (requested, next))
unfolding end_fetched
end_fetched_requested bot c e none d m next ended = let reply = ap (λ r. r.0) ended in absurd (cc)
end_fetched_requested bot c e (some p) d m next ended = elim (Bool-cases (has_control bot c e p)) [
  | inl has ↦ ((p, refl, has_control-IsShown bot c e p has), rw (← ended, has) refl)
  | inr bare ↦
      let given : end_fetched bot c e (some p) d m ≡ (stale, m) = rw bare refl in
      let reply : stale ≡ requested = ap (λ r. r.0) (sym given ∙ ended) in absurd (cc)
]

-- A click that stops a turn carried the token of a registered entry, on a post that the turn had
-- noted, in the entry's channel and by its sender. The server showed that post as the bot's, in the
-- channel, not deleted, under that token and with a Stop button, and the decision allowed the command.
-- When it takes effect, after whatever happened while the handler waited, the turn runs, its entry is
-- the one registered for the session and the session is the same. The turn is stopped, and any other
-- turn and the entries are as they were.
pub stop_end-stop_begin :
    (bot : String) (c : Click) (e : Entry) (a : Answers) (begun ended next : Monitor) (another : ℕ)
    → another ≢ e.owner
    → stop_begin c begun ≡ fetching e
    → stop_end bot c e a ended ≡ (requested, next)
    → IsAsked c e begun
      × ((post : Post) × (a.post ≡ some post) × IsShown bot c e post)
      × ((given : Decision) × (a.decision ≡ some given) × IsAllowed given)
      × IsLive e ended
      × StopsOnly e another ended next
unfolding stop_begin stop_end
stop_end-stop_begin bot c e a begun ended next another apart waits stops =
    let fetched = end_fetched_requested bot c e a.post a.decision ended next stops in
    let decided = end_decided_requested e a.decision ended next fetched.1 in
    (
      begin_control-IsAsked c c.control begun e refl waits,
      fetched.0,
      decided.0,
      current-IsLive e ended decided.1,
      rw decided.2 (abort-StopsOnly e another ended apart),
    )
