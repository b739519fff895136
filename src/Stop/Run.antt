-- ===== src/Stop/Run.antt =====
-- src/mattermost/preview-stop.ts: histories of a monitor: what its turns do, what becomes of the sessions,
-- and clicks whose handler goes on after its wait.
use openclaw_mattermost_cust.Base.{ℕ, true, String, List, [], ◌∷◌, ltb, if◌then◌else◌}
use openclaw_mattermost_cust.Reactions.Lifecycle.{write_key}
use openclaw_mattermost_cust.Stop.Registry.{
  Identity, Entry, Monitor, create_turn, activate_turn, note_post, finish_turn,
}
use openclaw_mattermost_cust.Stop.Click.{Click, Answers, stop_end}

-- `identifies` is a change of a session, such as a reset, `shuts_down` the end of the monitor.
pub data Event : Type 0 where
  creates : String → String → String → Event
  activates : ℕ → String → String → Event
  notes : ℕ → String → Event
  finishes : ℕ → Event
  ends_click : String → Click → Entry → Answers → Event
  identifies : String → Identity → Event
  shuts_down : Event

-- An operation is one of a turn that was created.
abbrev pub of_turn : ℕ → Monitor → Monitor → Monitor
of_turn n next m = if ltb n m.made then next else m

unfoldable pub step : Event → Monitor → Monitor
unfolding create_turn activate_turn note_post finish_turn stop_end
step (creates channel sender key) m = create_turn channel sender key m
step (activates n name token) m = of_turn n (activate_turn n name token m) m
step (notes n post) m = of_turn n (note_post n post m) m
step (finishes n) m = of_turn n (finish_turn n m) m
step (ends_click bot c e a) m = of_turn e.owner (stop_end bot c e a m).1 m
step (identifies key identity) m = record m { identities = write_key key identity m.identities }
step shuts_down m = record m { shut_down = true }

unfoldable pub run : List Event → Monitor → Monitor
unfolding step
run [] m = m
run (e ∷ es) m = run es (step e m)
