-- ===== src/Stop/Registry.antt =====
-- src/mattermost/preview-stop.ts: the turns of a monitor with their Stop entries
-- (`createMattermostPreviewStop`, without the cleanup of the posts).
use openclaw_mattermost_cust.Base.{
  ℕ, suc, Bool, true, false, not, ◌&&◌, ◌||◌, String, ◌==◌, Option, none, some, List, [], ◌∷◌, ◌++◌,
  any, eqb, if◌then◌else◌,
}
use openclaw_mattermost_cust.Base.Text.{is_empty}
use openclaw_mattermost_cust.Base.Keyed.{value_at, put_at, remove_at}
use openclaw_mattermost_cust.Reactions.Lifecycle.{write}

-- What `getSessionEntry` answers: the id and the revision of the session, or an exception.
pub data Identity : Type 0 where
  threw : Identity
  known : Option String → Option String → Identity

-- `ref` is the identity of the object, `owner` the turn whose closure made it.
pub record Entry : Type 0 where
  pub ref : ℕ
  pub owner : ℕ
  pub token : String
  pub channel_id : String
  pub sender_id : String
  pub session_key : String
  pub session_id : String
  pub revision : Option String

-- `stopped` says that the turn's signal is aborted, too: both are set in one place.
pub record Turn : Type 0 where
  pub channel_id : String
  pub sender_id : String
  pub session_key : String
  pub posts : List String
  pub tokens : List String
  pub entry : Option Entry
  pub finished : Bool
  pub stopped : Bool
  pub active_run : Option String

-- The registry of the monitor's client, the turns by number, and what the monitor says.
pub record Monitor : Type 0 where
  pub turns : ℕ → Turn
  pub made : ℕ
  pub entries : List (String × Entry)
  pub next_ref : ℕ
  pub identities : String → Identity
  pub shut_down : Bool

abbrev pub new_turn : String → String → String → Turn
new_turn channel sender key = record {
  channel_id = channel;
  sender_id = sender;
  session_key = key;
  posts = [];
  tokens = [];
  entry = none;
  finished = false;
  stopped = false;
  active_run = none;
}

abbrev pub new_monitor : Monitor
new_monitor = record {
  turns = λ n. new_turn "" "" "";
  made = 0;
  entries = [];
  next_ref = 0;
  identities = λ key. known none none;
  shut_down = false;
}

unfoldable pub create_turn : String → String → String → Monitor → Monitor
create_turn channel sender key m = record m {
  turns = write m.made (new_turn channel sender key) m.turns;
  made = suc m.made;
}

-- The set's `add`.
abbrev pub add_text : String → List String → List String
add_text s xs = if any (λ x. x == s) xs then xs else xs ++ s ∷ []

abbrev pub is_ref : ℕ → Option Entry → Bool
is_ref ref none = false
is_ref ref (some e) = eqb e.ref ref

abbrev pub set_turn : ℕ → Turn → Monitor → Monitor
set_turn n t m = record m { turns = write n t m.turns }

abbrev pub drop_entry : String → Option Entry → List (String × Entry) → List (String × Entry)
drop_entry key none es = es
drop_entry key (some e) es = if is_ref e.ref (value_at key es) then remove_at key es else es

unfoldable pub retire : ℕ → Monitor → Monitor
retire n m =
    let t = m.turns n in
    record m {
      entries = drop_entry t.session_key t.entry m.entries;
      turns = write n (record t { entry = none }) m.turns;
    }

abbrev pub same_option : Option String → Option String → Bool
same_option none none = true
same_option (some a) (some b) = a == b
same_option _ _ = false

abbrev pub is_same_session : Entry → Identity → Bool
is_same_session e threw = false
is_same_session e (known id revision) =
    same_option id (some e.session_id) && same_option revision e.revision

-- `current` of an entry.
unfoldable pub is_current : Entry → Monitor → Bool
is_current e m =
    not (
      (m.turns e.owner).finished
      || (m.turns e.owner).stopped
      || m.shut_down
      || not (is_ref e.ref (value_at e.session_key m.entries)))
    && is_same_session e (m.identities e.session_key)

abbrev pub new_entry : ℕ → String → String → Option String → Monitor → Entry
new_entry n token id revision m =
    let t = m.turns n in
    record {
      ref = m.next_ref;
      owner = n;
      token = token;
      channel_id = t.channel_id;
      sender_id = t.sender_id;
      session_key = t.session_key;
      session_id = id;
      revision = revision;
    }

abbrev pub enter : Entry → Monitor → Monitor
enter e m =
    let t = m.turns e.owner in
    record m {
      turns =
          write e.owner (record t { entry = some e; tokens = add_text e.token t.tokens }) m.turns;
      entries = put_at e.session_key e m.entries;
      next_ref = suc m.next_ref;
    }

abbrev pub own : Identity → ℕ → String → Monitor → Monitor
own threw n token m = m
own (known none revision) n token m = m
own (known (some id) revision) n token m =
    if is_empty id then m else enter (new_entry n token id revision m) m

abbrev pub is_run : String → Option String → Bool
is_run name active = same_option (some name) active

unfoldable pub activate_turn : ℕ → String → String → Monitor → Monitor
unfolding retire
activate_turn n name token m =
    let t = m.turns n in
    if t.finished || m.shut_down || is_run name t.active_run
    then m
    else let r = retire n m in
      own (m.identities t.session_key) n token
        (set_turn n (record (r.turns n) { active_run = some name }) r)

-- The token that `props` puts on a post.
unfoldable pub control_of : ℕ → Monitor → Option String
unfolding is_current
control_of n m = elim (m.turns n).entry [
  | none ↦ none
  | some e ↦ if is_current e m then some e.token else none
]

unfoldable pub note_post : ℕ → String → Monitor → Monitor
note_post n post m = let t = m.turns n in set_turn n (record t { posts = add_text post t.posts }) m

-- `finish` up to the cleanup of the posts.
unfoldable pub finish_turn : ℕ → Monitor → Monitor
unfolding retire
finish_turn n m = let t = m.turns n in retire n (set_turn n (record t { finished = true }) m)
