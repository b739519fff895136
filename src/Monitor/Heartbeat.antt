-- ===== src/Monitor/Heartbeat.antt =====
-- src/mattermost/monitor-ingress.ts: `keepMattermostIngressAliveWhileDispatchPending`. The state is
-- the variable `heartbeatTimer`, the intervals that the runtime runs, and the calls that reach the
-- callbacks of `source`, in their order.
use openclaw_mattermost_cust.Base.{
  ℕ, suc, Bool, ◌&&◌, Option, none, some, List, [], ◌∷◌, ◌++◌, any, is_some, eqb, if◌then◌else◌,
}
use openclaw_mattermost_cust.Base.Table.{delete_where}

-- Which of the optional callbacks the source has.
pub record Source : Type 0 where
  pub has_heartbeat : Bool
  pub has_failed : Bool
  pub has_cancelled : Bool

pub data Callback : Type 0 where
  on_adopted on_deferred on_heartbeat on_finalizing on_failed on_cancelled on_abandoned : Callback

pub record Bridge : Type 0 where
  pub timer : Option ℕ
  pub running : List ℕ
  pub next_timer : ℕ
  pub called : List Callback

abbrev pub new_bridge : Bridge
new_bridge = record { timer = none; running = []; next_timer = 0; called = [] }

abbrev pub call : Callback → Bridge → Bridge
call c b = record b { called = b.called ++ c ∷ [] }

-- `clearInterval` of the runtime.
abbrev pub clear_interval : ℕ → List ℕ → List ℕ
clear_interval timer running = delete_where (λ t. eqb t timer) running

abbrev pub stop_timer : Option ℕ → Bridge → Bridge
stop_timer none b = b
stop_timer (some timer) b = record b { timer = none; running = clear_interval timer b.running }

unfoldable pub stop : Bridge → Bridge
stop b = stop_timer b.timer b

unfoldable pub start : Source → Bridge → Bridge
start source b =
    if is_some b.timer
    then b
    else if source.has_heartbeat
    then record b {
      timer = some b.next_timer;
      running = b.running ++ b.next_timer ∷ [];
      next_timer = suc b.next_timer;
    }
    else b

-- What happens to the bridge: the calls of its lifecycle, `stop`, and an interval that fires. A
-- deferral carries `accepted !== false`.
pub data Event : Type 0 where
  adopted : Event
  deferred : Bool → Event
  heartbeat : Event
  finalizing failed cancelled abandoned stopped : Event
  fired : ℕ → Event

-- An interval fires only while the runtime runs it.
abbrev pub has_interval : ℕ → List ℕ → Bool
has_interval timer running = any (λ t. eqb t timer) running

-- The optional callbacks are there only if the source has them.
unfoldable pub handle : Source → Event → Bridge → Bridge
handle source adopted b = call on_adopted (stop b)
handle source (deferred accepted) b =
    let asked = call on_deferred b in if accepted then start source asked else asked
handle source heartbeat b = if source.has_heartbeat then call on_heartbeat b else b
handle source finalizing b = call on_finalizing (stop b)
handle source failed b = if source.has_failed then call on_failed (stop b) else b
handle source cancelled b = if source.has_cancelled then call on_cancelled (stop b) else b
handle source abandoned b = call on_abandoned (stop b)
handle source stopped b = stop b
handle source (fired timer) b =
    if has_interval timer b.running && source.has_heartbeat then call on_heartbeat b else b

unfoldable pub handle_all : Source → List Event → Bridge → Bridge
handle_all source [] b = b
handle_all source (e ∷ es) b = handle_all source es (handle source e b)
