-- ===== src/Reconnect/Tests.antt =====
-- src/mattermost/reconnect.ts and src/mattermost/session-admission-retry.ts: the models on small
-- inputs, and the theorems at inputs that meet their hypotheses.
use openclaw_mattermost_cust.Base.{ℕ, ◌≡◌, refl, true, false, String, List, [], ◌∷◌, Result, err}
use openclaw_mattermost_cust.Reconnect.Loop.{
  Outcome, resolved, rejected, Round, Options, with_jitter, run_loop, run_with_reconnect,
}
use openclaw_mattermost_cust.Reconnect.Delays.{delays, run_with_reconnect-delays}
use openclaw_mattermost_cust.Reconnect.Admission.{
  Thrown, an_error, matches_race_pattern, some_then_tail,
}

abbrev always : Options
always = record {
  initial_delay = 2000;
  max_delay = 60000;
  jitter_ratio = record { num = 0; den = 1 };
  should_reconnect = λ attempt delay outcome. true;
}

abbrev ends : Outcome → Round
ends outcome = record {
  aborted_before = false;
  outcome = outcome;
  aborted_after = false;
  random = record { num = 1; den = 2 };
}

abbrev rounds : List Round
rounds = ends rejected ∷ ends rejected ∷ ends rejected ∷ ends resolved ∷ ends rejected ∷ []

run_test : run_with_reconnect always rounds ≡ 2000 ∷ 4000 ∷ 8000 ∷ 2000 ∷ 2000 ∷ []
unfolding run_with_reconnect run_loop with_jitter
run_test = refl

run_with_reconnect-delays_example : run_with_reconnect always rounds ≡ delays always rounds 0 0
run_with_reconnect-delays_example = run_with_reconnect-delays always rounds

abbrev lost_race : String
lost_race = "Session \"main\" changed while starting work. Retry."

race_test : matches_race_pattern lost_race ≡ true
unfolding matches_race_pattern some_then_tail
race_test = refl

abbrev first_run : Result Thrown ℕ
first_run = err (an_error lost_race)
