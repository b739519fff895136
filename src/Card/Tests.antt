-- ===== src/Card/Tests.antt =====
-- src/mattermost/task-progress-card.ts: small cases, and the theorems at some of them.
use openclaw_mattermost_cust.Base.{◌≡◌, ◌≤◌, refl, true, false, none, some, List, [], ◌∷◌, arith}
use openclaw_mattermost_cust.Base.Text.{join}
use openclaw_mattermost_cust.Card.Lines.{Tools, in_work}
use openclaw_mattermost_cust.Card.Render.{failed, escape_label}
use openclaw_mattermost_cust.Card.Native.{render_native}
use openclaw_mattermost_cust.Card.State.{Plan, new_card, idle}
use openclaw_mattermost_cust.Card.Writes.{created, create_failed, claimed}
use openclaw_mattermost_cust.Card.Run.{
  Event, calls, starts, create_answered, update_answered, plans, finishes, begins_continuation, run,
  step, settles_before_result,
}
use openclaw_mattermost_cust.Card.Creation.{creations, run-creations_closed}
use openclaw_mattermost_cust.Card.Board.{Advances, board}
use openclaw_mattermost_cust.Card.Revisions.{run-creations_bound, step-Advances}
use openclaw_mattermost_cust.Card.Endings.{HasEnded}
use openclaw_mattermost_cust.Card.Work.{all_steps}
use openclaw_mattermost_cust.Card.Draining.{Answer, serve_all, serve_all-rests}
use openclaw_mattermost_cust.Card.Ending.{run-HasEnded}
use openclaw_mattermost_cust.Card.Calls.{finish}
use openclaw_mattermost_cust.Card.Settling.{finish-serve_all}

-- Tools that cut nothing, read every reference as it is, and write every number as `n`.
abbrev plain_tools : Tools
plain_tools = record { slice_safe = λ n s. s; parse_url = λ s. some ("https:", s); show = λ n. "n" }

abbrev first_plan : Plan
first_plan = record {
  title = some "Work";
  explanation = none;
  markdown = none;
  steps = record { step = "one"; status = in_work } ∷ [];
  source = none;
}

abbrev second_plan : Plan
second_plan = record first_plan { title = some "More work" }

abbrev begun : List Event
begun = calls (plans first_plan) ∷ starts true ∷ create_answered (created "p1") ∷ []

sent_test : (run plain_tools true begun new_card).post_id ≡ some "p1"
unfolding run
sent_test = refl

-- The text that the card then shows, and what follows when the result is published.
abbrev resumed : List Event
resumed =
    calls (plans second_plan)
    ∷ starts true
    ∷ calls (settles_before_result true)
    ∷ update_answered true
    ∷ starts true
    ∷ calls (plans first_plan)
    ∷ starts true
    ∷ []

first_card_test :
    (run plain_tools true begun new_card).posts
    ≡ (1, "#### Task progress · In progress\nWork\n\n- [ ] **one**") ∷ []
unfolding run join
first_card_test = refl

escape_label_test : escape_label "a\\b [c](d) ~_*" ≡ "a\\\\b \\[c\\]\\(d\\) \\~\\_\\*"
unfolding escape_label
escape_label_test = refl

render_native_test :
    render_native (some " <progress value='1' ARIA-label = 'Half '></progress> more ")
    ≡ some "**Half**\n\nmore"
unfolding render_native
render_native_test = refl

abbrev attempts : List Event
attempts =
    calls (plans first_plan)
    ∷ starts true
    ∷ create_answered (create_failed false)
    ∷ calls (plans second_plan)
    ∷ starts true
    ∷ create_answered (create_failed false)
    ∷ calls (plans first_plan)
    ∷ starts true
    ∷ []

attempts_test : creations (run plain_tools true attempts new_card).sent ≡ 2
unfolding run creations
attempts_test = refl

run-creations_closed_example :
    creations (run plain_tools true resumed (run plain_tools true begun new_card)).sent
    ≡ creations (run plain_tools true begun new_card).sent
unfolding run
run-creations_closed_example =
    run-creations_closed plain_tools true resumed (run plain_tools true begun new_card) refl

run-creations_bound_example : creations (run plain_tools true attempts new_card).sent ≤ 2
run-creations_bound_example = run-creations_bound plain_tools true attempts

step-Advances_example : Advances plain_tools (board (run plain_tools true resumed new_card).posts) (
    board
      (step plain_tools true (update_answered true) (run plain_tools true resumed new_card)).posts)
step-Advances_example = step-Advances plain_tools true resumed (update_answered true)

abbrev good_answer : Answer
good_answer = record {
  is_current = true;
  claim = claimed (some "p2");
  creation = created "p1";
  update = true;
}

serve_all-rests_example :
    ((serve_all plain_tools true
        (good_answer ∷ good_answer ∷ good_answer ∷ [])
        (step plain_tools true (calls (plans first_plan)) new_card)).doing
      ≡ idle)
    × ((serve_all plain_tools true
          (good_answer ∷ good_answer ∷ good_answer ∷ [])
          (step plain_tools true (calls (plans first_plan)) new_card)).writes
        ≡ [])
unfolding step all_steps
serve_all-rests_example =
    serve_all-rests plain_tools true (good_answer ∷ good_answer ∷ good_answer ∷ [])
      (step plain_tools true (calls (plans first_plan)) new_card) (omega arith)

run-HasEnded_example : HasEnded failed (
    run plain_tools true
      (calls (begins_continuation "r2") ∷ starts true ∷ calls (plans second_plan) ∷ [])
      (run plain_tools true
        (calls (plans first_plan) ∷ calls (finishes (some failed) false none) ∷ [])
        new_card))
unfolding run
run-HasEnded_example =
    run-HasEnded plain_tools true failed refl
      (calls (begins_continuation "r2") ∷ starts true ∷ calls (plans second_plan) ∷ [])
      (run plain_tools true
        (calls (plans first_plan) ∷ calls (finishes (some failed) false none) ∷ []) new_card)
      refl (record { finished = refl; parent = refl; status = refl })

finish-serve_all_example :
    (serve_all plain_tools true
      (good_answer ∷ good_answer ∷ good_answer ∷ [])
      (finish (some failed) false (some true) (run plain_tools true begun new_card))).settled
    ≡ true
unfolding finish run all_steps
finish-serve_all_example =
    finish-serve_all plain_tools true (good_answer ∷ good_answer ∷ good_answer ∷ []) (some failed)
      false (some true) (run plain_tools true begun new_card) refl refl refl (omega arith)
