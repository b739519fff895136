-- ===== src/Transition/Tests.antt =====
-- src/mattermost/channel-model-transition.ts: small cases, and the theorems at one of them.
use openclaw_mattermost_cust.Base.{◌≡◌, refl, none, List, [], ◌∷◌, ◌++◌}
use openclaw_mattermost_cust.Base.Keyed.{IsUnique}
use openclaw_mattermost_cust.Transition.Lock.{
  no_transitions, busy, begun, begin_transition, end_transition, waits_for, Event, begins, ends,
  advance,
}
use openclaw_mattermost_cust.Transition.Exclusion.{advance-Exclusive, end_transition-frees}

abbrev two_channels : List Event
two_channels = begins "a:c" "m" ∷ begins "a:d" "n" ∷ begins "a:c" "o" ∷ ends "a:d" 1 ∷ []

busy_test : (begin_transition "a:c" "p" (advance two_channels no_transitions)).0 ≡ busy "m"
unfolding advance begin_transition end_transition
busy_test = refl

advance-Exclusive_example :
    ((advance two_channels no_transitions).active ≡ (advance two_channels no_transitions).running)
    × IsUnique (advance two_channels no_transitions).running
advance-Exclusive_example = advance-Exclusive two_channels

end_transition-frees_example :
    (waits_for "a:c" (end_transition "a:c" 0 (advance two_channels no_transitions)) ≡ none)
    × ((begin_transition "a:c" "q" (end_transition "a:c" 0 (advance two_channels no_transitions))).0
        ≡ begun (advance two_channels no_transitions).next)
    × ((end_transition "a:c" 0 (advance two_channels no_transitions)).settled
        ≡ (advance two_channels no_transitions).settled ++ 0 ∷ [])
unfolding advance begin_transition end_transition
end_transition-frees_example = end_transition-frees two_channels "a:c" "q" 0 refl
