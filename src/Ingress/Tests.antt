-- ===== src/Ingress/Tests.antt =====
-- src/mattermost/ingress-queue.ts: the theorems at inputs that meet their hypotheses.
use openclaw_mattermost_cust.Base.{◌≡◌, ◌⊎◌, refl, true, false, none, some, [], ◌∷◌, ok}
use openclaw_mattermost_cust.Ingress.Phases.{at}
use openclaw_mattermost_cust.Ingress.Refinement.{Does, step-Does}
use openclaw_mattermost_cust.Ingress.Row.{
  Row, Table, select_row, QueueClaim, base_record, claim_record,
}
use openclaw_mattermost_cust.Ingress.Setup.{an_id}
use openclaw_mattermost_cust.Ingress.Operations.{enqueue}
use openclaw_mattermost_cust.Ingress.Claiming.{claim, claim_first, recover_one, includes}
use openclaw_mattermost_cust.Ingress.Maintenance.{prune}
use openclaw_mattermost_cust.Ingress.History.{step, enqueues, claims, after, run}
use openclaw_mattermost_cust.Ingress.Custody.{Stored}
use openclaw_mattermost_cust.Ingress.Consistency.{IsValid}
use openclaw_mattermost_cust.Ingress.Invariant.{run-IsValid}
use openclaw_mattermost_cust.Ingress.Rights.{settled_forever, held_until_presented}
use openclaw_mattermost_cust.Ingress.Taking.{claim_excludes}
use openclaw_mattermost_cust.Ingress.Selection.{Takes, claim_first_lem, claim_first-lane}
use openclaw_mattermost_cust.Ingress.Recovery.{IsDue, Returns, recover_one_lem}
use openclaw_mattermost_cust.Ingress.Retention.{prune_protects}
use openclaw_mattermost_cust.Ingress.Delivery.{claim-enqueue}
use openclaw_mattermost_cust.Ingress.Samples.{
  keep_e1, plain, queue, waiting, earlier, held, done, no_enqueue, skip_busy, named, claim_test,
  claim_first_test, waiting-IsValid, two-IsKeyed, held-IsKeyed, between,
}

claim_excludes_example :
    claim plain queue (an_id "e1") none "t3" 11 (run plain between (held ∷ []))
    ≡ ok (none, run plain between (held ∷ []))
claim_excludes_example =
    claim_excludes plain queue (an_id "e1") (an_id "e1") "e1" none none "t1" "t3" 9 11
      (waiting ∷ []) (held ∷ []) (claim_record plain queue held) between waiting-IsValid named named
      claim_test (refl, (refl, tt))

settled_forever_example : Stored "a" "e1" done (
    run plain
      ((queue, claims (an_id "e1") none "t" 9) ∷ (queue, enqueues "e1" "x" no_enqueue 9 9) ∷ [])
      (done ∷ []))
unfolding select_row
settled_forever_example =
    settled_forever plain "a" "e1" done
      ((queue, claims (an_id "e1") none "t" 9) ∷ (queue, enqueues "e1" "x" no_enqueue 9 9) ∷ [])
      (done ∷ []) refl (refl, (refl, tt)) refl

run-IsValid_example : IsValid (run plain between (waiting ∷ []))
run-IsValid_example = run-IsValid plain between (waiting ∷ []) waiting-IsValid

held_until_presented_example : Stored "a" "e1" held (run plain between (held ∷ []))
unfolding select_row
held_until_presented_example =
    held_until_presented plain "a" "e1" held "t1" between (held ∷ []) refl refl (refl, (refl, tt))
      refl

claim-enqueue_example :
    (c : QueueClaim plain) × (t' : Table) × (claim plain queue
        (an_id "e1")
        none
        "t1"
        9
        (after [] (enqueue plain queue "e1" "hello" no_enqueue 5 6 []))
      ≡ ok (some c, t'))
    × (c.base.payload ≡ "hello")
    × (c.base.metadata ≡ some "m")
    × (c.base.lane_key ≡ some "lane")
    × (c.base.attempts ≡ 0)
    × (c.token ≡ "t1")
unfolding select_row
claim-enqueue_example =
    claim-enqueue plain queue "e1" "hello" no_enqueue 5 6 [] "e1" none "t1" 9 named refl

claim_first_lem_example :
    Takes plain queue skip_busy "t1" 9
      (earlier ∷ waiting ∷ [])
      (claim_first plain queue skip_busy "t1" 9 (earlier ∷ waiting ∷ []))
claim_first_lem_example =
    claim_first_lem plain queue skip_busy "t1" 9 (earlier ∷ waiting ∷ []) two-IsKeyed

claim_first-lane_example : includes plain ("busy" ∷ []) "lane" ≡ false
unfolding claim_record base_record
claim_first-lane_example =
    claim_first-lane plain queue skip_busy "t1" 9 (earlier ∷ waiting ∷ [])
      (claim_record plain queue held) (earlier ∷ held ∷ []) two-IsKeyed claim_first_test refl

recover_one_lem_example :
    (let result = recover_one plain queue 100 50 none held (held ∷ []) in
      ((true ≡ true)
        × IsDue plain queue 100 50 none held (held ∷ []) held
        × (result.0 ≡ true)
        × ((s : Row) × Stored "a" "e1" s result.1
            × Returns plain queue 100 50 none held (held ∷ []) held s))
      ⊎ (¬ ((true ≡ true) × IsDue plain queue 100 50 none held (held ∷ []) held)
          × (result.0 ≡ false)
          × (result.1 ≡ held ∷ [])))
unfolding select_row
recover_one_lem_example =
    recover_one_lem plain queue 100 50 none held (held ∷ []) held held-IsKeyed refl

prune_protects_example : Stored "a" "e1" waiting (prune queue keep_e1 100 (waiting ∷ [])).1
unfolding select_row
prune_protects_example = prune_protects queue "a" "e1" waiting keep_e1 100 (waiting ∷ []) refl refl

step-Does_example :
    Does plain (claims (an_id "e1") none "t" 9) (at "a" "e1" (run plain between (waiting ∷ []))) (
      at "a" "e1"
        (step plain queue (claims (an_id "e1") none "t" 9) (run plain between (waiting ∷ []))))
step-Does_example =
    step-Does plain between (waiting ∷ []) queue (claims (an_id "e1") none "t" 9) "a" "e1"
      waiting-IsValid
