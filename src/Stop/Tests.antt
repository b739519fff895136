-- ===== src/Stop/Tests.antt =====
-- src/mattermost/preview-stop.ts: small cases, and the theorems at some of them.
use openclaw_mattermost_cust.Base.{◌≡◌, refl, true, false, none, some, List, [], ◌∷◌, arith}
use openclaw_mattermost_cust.Stream.Value.{undefined, text}
use openclaw_mattermost_cust.Stop.Registry.{Entry, Monitor, new_monitor, known, control_of}
use openclaw_mattermost_cust.Stop.Cleanup.{other, acting, Post, has_stop, cleaned, clean_up}
use openclaw_mattermost_cust.Stop.Click.{
  Click, Decision, Answers, answered, stale, is_requested, stop_begin, stop_end, abort,
}
use openclaw_mattermost_cust.Stop.Run.{Event, creates, activates, notes, finishes, identifies, run}
use openclaw_mattermost_cust.Stop.Capability.{
  IsAsked, IsShown, IsAllowed, IsLive, StopsOnly, stop_end-stop_begin,
}
use openclaw_mattermost_cust.Stop.Expiry.{stop_end-over}
use openclaw_mattermost_cust.Stop.Buttons.{Remain, IsOfTurn, has_stop-cleaned}

abbrev first_turn : List Event
first_turn =
    identifies "k" (known (some "s1") none)
    ∷ creates "c" "u" "k"
    ∷ activates 0 "r" "t0"
    ∷ notes 0 "p"
    ∷ []

abbrev running : Monitor
running = run first_turn new_monitor

abbrev first_entry : Entry
first_entry = record {
  ref = 0;
  owner = 0;
  token = "t0";
  channel_id = "c";
  sender_id = "u";
  session_key = "k";
  session_id = "s1";
  revision = none;
}

abbrev click : Click
click = record { control = some (text "t0"); post_id = "p"; channel_id = "c"; user_id = "u" }

abbrev stop_post : Post
stop_post = record {
  id = "p";
  channel_id = "c";
  user_id = "bot";
  deleted = false;
  control = text "t0";
  attachments = some (
      acting (some "openclawstop" ∷ []) false
      ∷ other undefined
      ∷ acting (some "a" ∷ some "openclawstop" ∷ none ∷ []) false
      ∷ []);
}

abbrev answers : Answers
answers = record {
  post = some stop_post;
  decision =
      some (record {
        enabled = true;
        allow_text_commands = true;
        ok = true;
        command_authorized = true;
      });
}

control_test : control_of 0 running ≡ some "t0"
unfolding control_of run
control_test = refl

-- The user of another turn cannot stop this one, nor can the click after the session was reset.
other_user_test : stop_begin (record click { user_id = "v" }) running ≡ answered stale
unfolding stop_begin run
other_user_test = refl

reset_test :
    (stop_end "bot" click first_entry answers
      (run (identifies "k" (known (some "s2") none) ∷ []) running)).0
    ≡ stale
unfolding stop_end run
reset_test = refl

clean_up_test :
    clean_up "bot" (λ id. some stop_post) (running.turns 0) ("p" ∷ "q" ∷ [])
    ≡ ("p", other undefined ∷ acting (some "a" ∷ none ∷ []) false ∷ []) ∷ []
unfolding clean_up run
clean_up_test = refl

stop_end-stop_begin_example :
    IsAsked click first_entry running
    × ((post : Post) × (some stop_post ≡ some post) × IsShown "bot" click first_entry post)
    × ((given : Decision) × (answers.decision ≡ some given) × IsAllowed given)
    × IsLive first_entry running
    × StopsOnly first_entry 1 running (abort first_entry running)
unfolding stop_begin stop_end run
stop_end-stop_begin_example =
    stop_end-stop_begin "bot" click first_entry answers running running (abort first_entry running)
      1 (λ e. omega arith) refl refl

-- A second turn takes the session over.
abbrev replaced : Monitor
replaced = run (creates "c" "u" "k" ∷ activates 1 "r2" "t1" ∷ []) running

stop_end-over_example :
    ((stop_end "bot" click first_entry answers (run (finishes 1 ∷ []) replaced)).1
      ≡ run (finishes 1 ∷ []) replaced)
    × (is_requested (stop_end "bot" click first_entry answers (run (finishes 1 ∷ []) replaced)).0
        ≡ false)
unfolding run
stop_end-over_example =
    stop_end-over (finishes 1 ∷ []) "bot" click first_entry answers replaced (omega arith)
      (omega arith) refl

has_stop-cleaned_example :
    IsOfTurn "bot" (running.turns 0) "p" stop_post
    × (has_stop (other undefined ∷ acting (some "a" ∷ none ∷ []) false ∷ []) ≡ false)
    × Remain
        (some "openclawstop" ∷ some "a" ∷ some "openclawstop" ∷ none ∷ [])
        (some "a" ∷ none ∷ [])
unfolding cleaned run
has_stop-cleaned_example =
    has_stop-cleaned "bot" (running.turns 0) "p" stop_post
      (acting (some "openclawstop" ∷ []) false
        ∷ other undefined
        ∷ acting (some "a" ∷ some "openclawstop" ∷ none ∷ []) false
        ∷ [])
      (other undefined ∷ acting (some "a" ∷ none ∷ []) false ∷ []) refl refl
