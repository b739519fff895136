-- ===== src/Stop/Expiry.antt =====
-- src/mattermost/preview-stop.ts: an entry that is no longer current stays so.
use openclaw_mattermost_cust.Base.{
  ◌<◌, ◌≡◌, refl, Bool, true, false, not, ◌||◌, String, ltb, Option, none, some, List, [], ◌∷◌,
  arith, if◌then◌else◌,
}
use openclaw_mattermost_cust.Base.Keyed.{value_at}
use openclaw_mattermost_cust.Stop.Registry.{Entry, Monitor, is_ref, is_current}
use openclaw_mattermost_cust.Stop.Click.{
  Click, Reply, unauthorized, requested, stale, is_requested, Answers, stop_end, end_fetched,
  end_decided, abort, may_stop, Decision, has_control,
}
use openclaw_mattermost_cust.Stop.Cleanup.{Post}
use openclaw_mattermost_cust.Stop.Run.{
  Event, creates, activates, notes, finishes, ends_click, identifies, shuts_down, step, run,
}
use openclaw_mattermost_cust.Stop.Retirement.{
  KeepsOver, over_kept, both, either, set_turn-KeepsOver, activate_turn-KeepsOver,
  finish_turn-KeepsOver, note_post-KeepsOver, create_turn-KeepsOver,
}

abort-KeepsOver : (e f : Entry) (m : Monitor) → KeepsOver e m (abort f m)
abort-KeepsOver e f m =
    set_turn-KeepsOver e f.owner (record (m.turns f.owner) { stopped = true }) m (λ g. g)

-- A reply with the monitor that it leaves.
abbrev LeavesOver : Entry → Monitor → Reply × Monitor → Type 0
LeavesOver e m r = KeepsOver e m r.1

end_decided-KeepsOver :
    (e f : Entry) (d : Option Decision) (m : Monitor) → KeepsOver e m (end_decided f d m).1
unfolding end_decided
end_decided-KeepsOver e f none m = over_kept e m
end_decided-KeepsOver e f (some d) m =
    decided (not d.enabled) (not (may_stop d)) (not (is_current f m))
  where
    decided :
        (a b c : Bool)
        → LeavesOver e m (
            if a
            then (stale, m)
            else if b
            then (unauthorized, m)
            else if c
            then (stale, m)
            else (requested, abort f m))
    decided true b c = over_kept e m
    decided false true c = over_kept e m
    decided false false true = over_kept e m
    decided false false false = abort-KeepsOver e f m

stop_end-KeepsOver :
    (e f : Entry) (bot : String) (c : Click) (a : Answers) (m : Monitor)
    → KeepsOver e m (stop_end bot c f a m).1
unfolding stop_end end_fetched
stop_end-KeepsOver e f bot c a m = fetched a.post
  where
    checked : (b : Bool) → LeavesOver e m (if b then end_decided f a.decision m else (stale, m))
    checked true = end_decided-KeepsOver e f a.decision m
    checked false = over_kept e m

    fetched : (p : Option Post) → KeepsOver e m (end_fetched bot c f p a.decision m).1
    fetched none = over_kept e m
    fetched (some p) = checked (has_control bot c f p)

step-KeepsOver : (e : Entry) (event : Event) (m : Monitor) → KeepsOver e m (step event m)
unfolding step
step-KeepsOver e (creates channel sender key) m = create_turn-KeepsOver e channel sender key m
step-KeepsOver e (activates n name token) m =
    either (ltb n m.made) (activate_turn-KeepsOver e n name token m) (over_kept e m)
step-KeepsOver e (notes n post) m =
    either (ltb n m.made) (note_post-KeepsOver e n post m) (over_kept e m)
step-KeepsOver e (finishes n) m =
    either (ltb n m.made) (finish_turn-KeepsOver e n m) (over_kept e m)
step-KeepsOver e (ends_click bot c f a) m =
    either (ltb f.owner m.made) (stop_end-KeepsOver e f bot c a m) (over_kept e m)
step-KeepsOver e (identifies key identity) m = record {
  made = omega arith;
  next = omega arith;
  finished = λ h f. f;
  gone = λ h f. f;
}
step-KeepsOver e shuts_down m = record {
  made = omega arith;
  next = omega arith;
  finished = λ h f. f;
  gone = λ h f. f;
}

run-KeepsOver : (e : Entry) (es : List Event) (m : Monitor) → KeepsOver e m (run es m)
unfolding run
run-KeepsOver e [] m = over_kept e m
run-KeepsOver e (event ∷ es) m = both (step-KeepsOver e event m) (run-KeepsOver e es (step event m))

-- The turn of the entry has finished, or the entry is not the registered one of its session.
abbrev pub is_retired : Entry → Monitor → Bool
is_retired e m = (m.turns e.owner).finished || not (is_ref e.ref (value_at e.session_key m.entries))

not_current : (e : Entry) (m : Monitor) → is_retired e m ≡ true → is_current e m ≡ false
unfolding is_current
not_current e m over = ground arith

end_decided_over :
    (e : Entry) (d : Option Decision) (m : Monitor)
    → is_current e m ≡ false
    → ((end_decided e d m).1 ≡ m) × (is_requested (end_decided e d m).0 ≡ false)
unfolding end_decided
end_decided_over e none m over = (refl, refl)
end_decided_over e (some d) m over = rw over (ground arith)

end_fetched_over :
    (bot : String) (c : Click) (e : Entry) (p : Option Post) (d : Option Decision) (m : Monitor)
    → is_current e m ≡ false
    → ((end_fetched bot c e p d m).1 ≡ m) × (is_requested (end_fetched bot c e p d m).0 ≡ false)
unfolding end_fetched
end_fetched_over bot c e none d m over = (refl, refl)
end_fetched_over bot c e (some p) d m over = checked (has_control bot c e p)
  where
    checked :
        (b : Bool)
        → ((if b then end_decided e d m else (stale, m)).1 ≡ m)
          × (is_requested (if b then end_decided e d m else (stale, m)).0 ≡ false)
    checked true = end_decided_over e d m over
    checked false = (refl, refl)

-- Once the turn of an entry has finished, or the entry was retired or replaced in the registry, no
-- click that waits with the entry stops anything, after any further history: the monitor is left as it is,
-- and the answer is not that a stop was requested.
pub stop_end-over :
    (es : List Event) (bot : String) (c : Click) (e : Entry) (a : Answers) (m : Monitor)
    → e.owner < m.made
    → e.ref < m.next_ref
    → is_retired e m ≡ true
    → ((stop_end bot c e a (run es m)).1 ≡ run es m)
      × (is_requested (stop_end bot c e a (run es m)).0 ≡ false)
unfolding stop_end
stop_end-over es bot c e a m made before over =
    let k = run-KeepsOver e es m in
    let still : is_retired e (run es m) ≡ true = ground (arith, k.finished made, k.gone before) in
    end_fetched_over bot c e a.post a.decision (run es m) (not_current e (run es m) still)
