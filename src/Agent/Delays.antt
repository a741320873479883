-- ===== src/Agent/Delays.antt =====
-- How long the agent sleeps between two attempts (`start_egress_with_retry` of agent/agent.py).
use nalang_project.Prelude.{
  ℕ, zero, suc, ◌+◌, ◌-◌, ◌<◌, ◌≤◌, ◌≡◌, refl, ap, Bool, true, false, ◌&&◌, List, [], ◌∷◌, arith,
  ltb, length, if◌then◌else◌,
}
use Prim.Native.Nat.{◌^◌}
use native.Mathlib.Nat.{pow-suc}
use nalang_project.Agent.Egress.{
  Attempt, started, twirp, other, raised, Delay, Trace, is_retryable, longer, judge, rounds,
  start_egress_with_retry,
}
use nalang_project.Agent.EgressLaws.{start_egress_with_retry-ends}

-- (3/2)^i seconds
abbrev pub power : ℕ → Delay
power i = record { num = 3 ^ i; den = 2 ^ i }

-- The first `k` sleeps from number `i` on.
abbrev pub powers : ℕ → ℕ → List Delay
powers zero i = []
powers (suc k) i = power i ∷ powers k (suc i)

longer-power : (i : ℕ) → longer (power i) ≡ power (suc i)
longer-power i = rw (pow-suc 3 i, pow-suc 2 i) refl

abbrev ArePowers : ℕ → Trace → Type 0
ArePowers i t = t.sleeps ≡ powers (length t.sleeps) i

judge-ArePowers :
    (a : Attempt) (more : Bool) (i : ℕ) (rest : Trace)
    → ArePowers (suc i) rest
    → ArePowers i (judge a more (power i) rest)
judge-ArePowers (started id) more i rest h = refl
judge-ArePowers (twirp code) more i rest h = retried (is_retryable code && more)
  where
    retried :
        (b : Bool)
        → ArePowers i (
            if b
            then record {
              attempts = rest.attempts + 1;
              sleeps = power i ∷ rest.sleeps;
              ending = rest.ending;
            }
            else record { attempts = 1; sleeps = []; ending = raised (twirp code) })
    retried true = ap (λ ds. power i ∷ ds) h
    retried false = refl
judge-ArePowers other more i rest h = refl

rounds-ArePowers :
    (answer : ℕ → Attempt) (retries left i j : ℕ)
    → ArePowers i (rounds answer retries left j (power i))
unfolding rounds
rounds-ArePowers answer retries zero i j = refl
rounds-ArePowers answer retries (suc left) i j =
    judge-ArePowers (answer j) (ltb j (retries - 1)) i _
      (rw (longer-power i) (rounds-ArePowers answer retries left (suc i) (j + 1)))

-- With one round at least and 34 at most there are fewer sleeps than rounds, and they last 1, 3/2,
-- 9/4, … seconds, the `i`-th of them (3/2)^i.
pub start_egress_with_retry-delays :
    (answer : ℕ → Attempt) (retries : ℕ)
    → 0 < retries
    → retries ≤ 34
    → let t = start_egress_with_retry answer retries in
      (length t.sleeps < retries) × (t.sleeps ≡ powers (length t.sleeps) 0)
unfolding start_egress_with_retry
start_egress_with_retry-delays answer retries h small =
    let ends = start_egress_with_retry-ends answer retries h in
    (omega (arith, ends.0, ends.1), rounds-ArePowers answer retries retries 0 0)
