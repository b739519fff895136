-- ===== src/Reactions/Tests.antt =====
-- src/mattermost/monitor-turn-reactions.ts: the store in a short history, and the theorems at it.
use openclaw_mattermost_cust.Base.{◌≡◌, refl, true, false, some, List, [], ◌∷◌}
use openclaw_mattermost_cust.Reactions.Lifecycle.{
  Lifecycles, no_lifecycles, attach, update, transfer, settle, Call, attaches, run, step,
}
use openclaw_mattermost_cust.Reactions.Custody.{IsValid, run-keeps_maps}
use openclaw_mattermost_cust.Reactions.Handover.{transfer-settle}

-- Post 7 of owner 1 begins a session, and post 8 joins it.
abbrev joining : List Call
joining = attaches "s" 1 7 true ∷ attaches "s" 2 8 true ∷ []

abbrev both : Lifecycles
both = run joining no_lifecycles

no_lifecycles-IsValid : IsValid no_lifecycles
no_lifecycles-IsValid = record { current = λ c g e. absurd (cc); entered = λ k g e. absurd (cc) }

both_test : update "s" 1 both ≡ some (7 ∷ 8 ∷ [])
unfolding run step attach update
both_test = refl

run-keeps_maps_example : IsValid (run joining no_lifecycles)
run-keeps_maps_example = run-keeps_maps joining no_lifecycles no_lifecycles-IsValid

both-IsValid : IsValid both
both-IsValid = run-keeps_maps joining no_lifecycles no_lifecycles-IsValid

transfer-settle_example :
    (settle 0 8 (transfer "s" 2 8 both) ≡ (false, transfer "s" 2 8 both))
    × (update "s" 2 (transfer "s" 2 8 both) ≡ some (8 ∷ []))
unfolding run step attach
transfer-settle_example = transfer-settle "s" 2 8 0 both both-IsValid refl refl
