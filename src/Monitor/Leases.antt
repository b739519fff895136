-- ===== src/Monitor/Leases.antt =====
-- src/mattermost/monitor-ingress.ts: when the bridge of a pending dispatch sends heartbeats.
use openclaw_mattermost_cust.Base.{
  ℕ, ◌≡◌, refl, Bool, true, false, ◌&&◌, Option, none, some, List, [], ◌∷◌, is_some, eqb_iff,
  if◌then◌else◌, arith, inl, inr, Option-cases, or_else, ap, ◌∙◌,
}
use openclaw_mattermost_cust.Monitor.Heartbeat.{
  Source, Bridge, new_bridge, stop, stop_timer, start, Event, adopted, deferred, heartbeat,
  finalizing, failed, cancelled, abandoned, stopped, fired, handle, handle_all,
}

abbrev pub held : Option ℕ → List ℕ
held none = []
held (some timer) = timer ∷ []

-- No interval leaks: the runtime runs exactly the interval that the bridge holds.
abbrev pub IsTidy : Bridge → Type 0
IsTidy b = b.running ≡ held b.timer

stop-IsTidy : (b : Bridge) → IsTidy b → IsTidy (stop b)
unfolding stop
stop-IsTidy b tidy = elim (Option-cases b.timer) [
  | inl off ↦ rw (off, tidy, off) refl
  | inr (t, on) ↦ rw (on, tidy, on) (ground (arith, eqb_iff t t))
]

start-IsTidy : (source : Source) (b : Bridge) → IsTidy b → IsTidy (start source b)
unfolding start
start-IsTidy source b tidy = ground arith

handle-IsTidy : (source : Source) (e : Event) (b : Bridge) → IsTidy b → IsTidy (handle source e b)
unfolding handle
handle-IsTidy source adopted b tidy = stop-IsTidy b tidy
handle-IsTidy source (deferred true) b tidy = start-IsTidy source _ tidy
handle-IsTidy source (deferred false) b tidy = tidy
handle-IsTidy source heartbeat b tidy = ground arith
handle-IsTidy source finalizing b tidy = stop-IsTidy b tidy
handle-IsTidy source failed b tidy = ground (arith, stop-IsTidy b tidy)
handle-IsTidy source cancelled b tidy = ground (arith, stop-IsTidy b tidy)
handle-IsTidy source abandoned b tidy = stop-IsTidy b tidy
handle-IsTidy source stopped b tidy = stop-IsTidy b tidy
handle-IsTidy source (fired timer) b tidy = ground arith

-- The runtime runs the interval that the bridge holds and no other, whatever the bridge went through.
pub handle_all-IsTidy :
    (source : Source) (es : List Event) (b : Bridge) → IsTidy b → IsTidy (handle_all source es b)
unfolding handle_all
handle_all-IsTidy source [] b tidy = tidy
handle_all-IsTidy source (e ∷ es) b tidy =
    handle_all-IsTidy source es (handle source e b) (handle-IsTidy source e b tidy)

-- What an event decides: an accepted deferral that claims are kept alive, where the source can be
-- asked to, and the end of the claim or `stop` that they are not.
abbrev pub decision : Source → Event → Option Bool
decision source (deferred accepted) = if accepted && source.has_heartbeat then some true else none
decision source heartbeat = none
decision source (fired timer) = none
decision source failed = if source.has_failed then some false else none
decision source cancelled = if source.has_cancelled then some false else none
decision source _ = some false

-- The last decision of a history, or else the given one.
abbrev pub last_decision : Source → List Event → Bool → Bool
last_decision source [] before = before
last_decision source (e ∷ es) before = last_decision source es (or_else (decision source e) before)

stop_timer_off : (t : Option ℕ) (b : Bridge) → b.timer ≡ t → (stop_timer t b).timer ≡ none
stop_timer_off none b e = e
stop_timer_off (some timer) b e = refl

stop_off : (b : Bridge) → (stop b).timer ≡ none
unfolding stop
stop_off b = stop_timer_off b.timer b refl

handle-decision :
    (source : Source) (e : Event) (b : Bridge)
    → is_some (handle source e b).timer ≡ or_else (decision source e) (is_some b.timer)
unfolding handle start
handle-decision source adopted b = ground (arith, stop_off b)
handle-decision source (deferred true) b = ground arith
handle-decision source (deferred false) b = ground arith
handle-decision source heartbeat b = ground arith
handle-decision source finalizing b = ground (arith, stop_off b)
handle-decision source failed b = ground (arith, stop_off b)
handle-decision source cancelled b = ground (arith, stop_off b)
handle-decision source abandoned b = ground (arith, stop_off b)
handle-decision source stopped b = ground (arith, stop_off b)
handle-decision source (fired timer) b = ground arith

-- After a history the bridge holds an interval exactly if the last decision of the history, or else
-- the state before it, was to keep the claim alive.
pub handle_all-last_decision :
    (source : Source) (es : List Event) (b : Bridge)
    → is_some (handle_all source es b).timer ≡ last_decision source es (is_some b.timer)
unfolding handle_all
handle_all-last_decision source [] b = refl
handle_all-last_decision source (e ∷ es) b =
    handle_all-last_decision source es (handle source e b)
    ∙ ap (λ on. last_decision source es on) (handle-decision source e b)

-- No interval that fires late reaches the source: after a history from the start whose last decision
-- was not to keep the claim alive, an interval's firing changes nothing.
pub handle-late :
    (source : Source) (es : List Event) (timer : ℕ)
    → last_decision source es false ≡ false
    → handle source (fired timer) (handle_all source es new_bridge)
      ≡ handle_all source es new_bridge
unfolding handle
handle-late source es timer quiet =
    let b = handle_all source es new_bridge in
    let off : is_some b.timer ≡ false = handle_all-last_decision source es new_bridge ∙ quiet in
    let none_held : b.timer ≡ none = ground arith in
    let idle : b.running ≡ [] = handle_all-IsTidy source es new_bridge refl ∙ ap held none_held in
    rw idle refl
