-- ===== src/Monitor/Tests.antt =====
-- src/mattermost/monitor-ingress.ts: the bridge in a short history, and the theorems at it.
use openclaw_mattermost_cust.Base.{◌≡◌, refl, true, false, List, [], ◌∷◌, is_some}
use openclaw_mattermost_cust.Monitor.Heartbeat.{
  Source, new_bridge, Event, adopted, deferred, fired, on_deferred, on_heartbeat, on_adopted, start,
  stop, handle, handle_all,
}
use openclaw_mattermost_cust.Monitor.Leases.{handle_all-last_decision}

abbrev source : Source
source = record { has_heartbeat = true; has_failed = true; has_cancelled = false }

abbrev short : List Event
short = deferred true ∷ fired 0 ∷ deferred true ∷ adopted ∷ []

short_test :
    (handle_all source short new_bridge).called
    ≡ on_deferred ∷ on_heartbeat ∷ on_deferred ∷ on_adopted ∷ []
unfolding handle_all handle start stop
short_test = refl

handle_all-last_decision_example : is_some (handle_all source short new_bridge).timer ≡ false
handle_all-last_decision_example = handle_all-last_decision source short new_bridge
