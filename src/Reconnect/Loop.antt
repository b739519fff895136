-- ===== src/Reconnect/Loop.antt =====
-- src/mattermost/reconnect.ts: `runWithReconnect` over a list of rounds, each with what happened in
-- it. Delays are milliseconds; the jitter ratio and the random number are fractions, and the jitter
-- is computed exactly, where the source uses floating point.
use openclaw_mattermost_cust.Base.{
  ℕ, suc, ◌+◌, ◌-◌, ◌*◌, ◌/◌, min, max, Bool, List, [], ◌∷◌, eqb, if◌then◌else◌,
}

pub data Outcome : Type 0 where
  resolved rejected : Outcome

pub record Fraction : Type 0 where
  pub num : ℕ
  pub den : ℕ

-- One round: whether the signal had fired before it and when the connection had ended, how it
-- ended, and the random number drawn for the delay.
pub record Round : Type 0 where
  pub aborted_before : Bool
  pub outcome : Outcome
  pub aborted_after : Bool
  pub random : Fraction

pub record Options : Type 0 where
  pub initial_delay : ℕ
  pub max_delay : ℕ
  pub jitter_ratio : Fraction
  pub should_reconnect : ℕ → ℕ → Outcome → Bool

-- `Math.round` of a fraction that is not negative.
abbrev pub round : ℕ → ℕ → ℕ
round num den = (2 * num + den) / (2 * den)

-- `Math.max(0, Math.min(1, random()))`.
abbrev pub normalized : Fraction → ℕ
normalized f = min f.num f.den

-- The fraction under `Math.round`, over the product of the denominators. Where the spread exceeds
-- the base it may be negative in the source; here it stops at 0, and both round below 1.
unfoldable pub with_jitter : ℕ → Fraction → Fraction → ℕ
with_jitter base ratio random =
    if eqb ratio.num 0
    then base
    else max 1 (
        round
          (base * (ratio.den * random.den + 2 * ratio.num * normalized random)
            - base * (ratio.num * random.den))
          (ratio.den * random.den))

-- `backoff.increase`.
abbrev pub increase : ℕ → ℕ → ℕ
increase max_delay delay = min (delay * 2) max_delay

-- `backoff.current` where the delay is computed: a connection that ended resets it.
abbrev pub current : Options → Outcome → ℕ → ℕ
current o resolved delay = o.initial_delay
current o rejected delay = delay

-- The delay for the next round.
abbrev pub next_delay : Options → Outcome → ℕ → ℕ
next_delay o resolved delay = delay
next_delay o rejected delay = increase o.max_delay delay

-- The delays that `onReconnect` is told and the loop sleeps, in order, until it returns or the
-- rounds are used up.
unfoldable pub run_loop : Options → List Round → ℕ → ℕ → List ℕ
run_loop o [] delay attempt = []
run_loop o (r ∷ rs) delay attempt =
    let now = current o r.outcome delay in
    let wait = with_jitter now o.jitter_ratio r.random in
    let rest = run_loop o rs (next_delay o r.outcome now) (suc attempt) in
    if r.aborted_before
    then []
    else if r.aborted_after
    then []
    else if o.should_reconnect attempt wait r.outcome
    then wait ∷ rest
    else []

unfoldable pub run_with_reconnect : Options → List Round → List ℕ
run_with_reconnect o rs = run_loop o rs o.initial_delay 0
