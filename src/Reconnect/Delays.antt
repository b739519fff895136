-- ===== src/Reconnect/Delays.antt =====
-- src/mattermost/reconnect.ts: the delays in closed form, and their bounds.
use Prim.Native.Nat.{◌^◌}
use native.Mathlib.Nat.{pow-suc}
use openclaw_mattermost_cust.Base.{
  ℕ, zero, suc, ◌*◌, ◌≤◌, min, max, ◌≡◌, refl, List, [], ◌∷◌, arith, if◌then◌else◌, All,
}
use openclaw_mattermost_cust.Reconnect.Loop.{
  Outcome, resolved, rejected, Round, Options, with_jitter, increase, current, next_delay, run_loop,
  run_with_reconnect,
}

-- The delay after a round that follows that many rejections in a row.
abbrev pub backoff : Options → ℕ → ℕ
backoff o zero = o.initial_delay
backoff o (suc k) = min (o.initial_delay * 2 ^ suc k) o.max_delay

-- The rejections in a row before the round, where its delay is computed and for the next round.
abbrev pub failures : Outcome → ℕ → ℕ
failures resolved k = 0
failures rejected k = k

abbrev pub failures_after : Outcome → ℕ → ℕ
failures_after resolved k = 0
failures_after rejected k = suc k

-- The loop with the closed form in the place of the backoff's state.
unfoldable pub delays : Options → List Round → ℕ → ℕ → List ℕ
delays o [] k attempt = []
delays o (r ∷ rs) k attempt =
    let wait = with_jitter (backoff o (failures r.outcome k)) o.jitter_ratio r.random in
    let rest = delays o rs (failures_after r.outcome k) (suc attempt) in
    if r.aborted_before
    then []
    else if r.aborted_after
    then []
    else if o.should_reconnect attempt wait r.outcome
    then wait ∷ rest
    else []

double-pow : (d k : ℕ) → d * 2 ^ suc k ≡ d * 2 ^ k * 2
double-pow d k = rw pow-suc (omega arith)

increase-backoff : (o : Options) (k : ℕ) → increase o.max_delay (backoff o k) ≡ backoff o (suc k)
increase-backoff o zero = omega (arith, double-pow o.initial_delay 0)
increase-backoff o (suc k) = omega (arith, double-pow o.initial_delay (suc k))

current-backoff :
    (o : Options) (c : Outcome) (k : ℕ) → current o c (backoff o k) ≡ backoff o (failures c k)
current-backoff o resolved k = refl
current-backoff o rejected k = refl

next_delay-backoff :
    (o : Options) (c : Outcome) (k : ℕ)
    → next_delay o c (backoff o (failures c k)) ≡ backoff o (failures_after c k)
next_delay-backoff o resolved k = refl
next_delay-backoff o rejected k = increase-backoff o k

run_loop-delays :
    (o : Options) (rs : List Round) (k attempt : ℕ)
    → run_loop o rs (backoff o k) attempt ≡ delays o rs k attempt
unfolding run_loop delays
run_loop-delays o [] k attempt = refl
run_loop-delays o (r ∷ rs) k attempt = rw (
  current-backoff o r.outcome k,
  next_delay-backoff o r.outcome k,
  run_loop-delays o rs (failures_after r.outcome k) (suc attempt),
)

-- The delays of the loop are those of the closed form, each with the jitter of its round: after a
-- connection that ended normally, and after the first rejection in a row, the initial delay as it is,
-- not capped by the maximum; after a rejection that follows k ≥ 1 others in a row,
-- min (initial * 2^k, max).
pub run_with_reconnect-delays :
    (o : Options) (rs : List Round) → run_with_reconnect o rs ≡ delays o rs 0 0
unfolding run_with_reconnect
run_with_reconnect-delays o rs = run_loop-delays o rs 0 0

delays-le :
    (o : Options) (rs : List Round) (delay attempt : ℕ)
    → o.jitter_ratio.num ≡ 0
    → delay ≤ max o.initial_delay o.max_delay
    → All (λ w. w ≤ max o.initial_delay o.max_delay) (run_loop o rs delay attempt)
unfolding run_loop with_jitter
delays-le o [] delay attempt plain h = tt
delays-le o (r ∷ rs) delay attempt plain h =
    let now : current o r.outcome delay ≤ max o.initial_delay o.max_delay = ground arith in
    let next : next_delay o r.outcome (current o r.outcome delay)
        ≤ max o.initial_delay o.max_delay =
      ground arith in
    ground (
      arith,
      delays-le o rs (next_delay o r.outcome (current o r.outcome delay)) (suc attempt) plain next,
    )

-- With no jitter no delay exceeds the larger of the initial and the greatest one.
pub run_with_reconnect-le :
    (o : Options) (rs : List Round)
    → o.jitter_ratio.num ≡ 0
    → All (λ w. w ≤ max o.initial_delay o.max_delay) (run_with_reconnect o rs)
unfolding run_with_reconnect
run_with_reconnect-le o rs plain = delays-le o rs o.initial_delay 0 plain (omega arith)
