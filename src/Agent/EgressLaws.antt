-- ===== src/Agent/EgressLaws.antt =====
-- How often the start of a recording is tried, and how long the agent sleeps in between.
use nalang_project.Prelude.{
  ℕ, zero, suc, ◌+◌, ◌-◌, ◌≤◌, ◌<◌, ◌≡◌, refl, ◌∙◌, Bool, true, false, ◌∷◌, arith, ltb, length,
  Bool-cases, inl, inr, ◌⊎◌, ap, subst,
}
use nalang_project.Agent.Egress.{
  Attempt, started, twirp, other, Ending, returned, raised, Delay, Trace, is_retryable, longer,
  judge, rounds, start_egress_with_retry,
}

-- There is a sleep between two attempts, and no more attempts than rounds.
attempts-rounds :
    (answer : ℕ → Attempt) (retries left i : ℕ) (d : Delay)
    → (rounds answer retries left i d).attempts ≤ left
unfolding rounds
attempts-rounds answer retries zero i d = omega arith
attempts-rounds answer retries (suc left) i d =
    ground (arith, attempts-rounds answer retries left (i + 1) (longer d))

-- In the last round nothing is retried, so every attempt but the last has its sleep.
sleeps-rounds :
    (answer : ℕ → Attempt) (retries left i : ℕ) (d : Delay)
    → i + suc left ≡ retries
    → (rounds answer retries (suc left) i d).attempts
      ≡ length (rounds answer retries (suc left) i d).sleeps + 1
unfolding rounds
sleeps-rounds answer retries zero i d h = ground arith
sleeps-rounds answer retries (suc left) i d h =
    ground (arith, sleeps-rounds answer retries left (i + 1) (longer d))

-- What the function makes of the last answer.
abbrev pub conclude : Attempt → Ending
conclude (started id) = returned id
conclude (twirp code) = raised (twirp code)
conclude other = raised other

abbrev pub can_retry : Attempt → Bool
can_retry (started id) = false
can_retry (twirp code) = is_retryable code
can_retry other = false

abbrev Last : (ℕ → Attempt) → ℕ → ℕ → Trace → Type 0
Last answer retries i t =
    (t.ending ≡ conclude (answer (i + length t.sleeps)))
    × ((i + length t.sleeps + 1 ≡ retries) ⊎ (can_retry (answer (i + length t.sleeps)) ≡ false))

Last-later :
    (answer : ℕ → Attempt) (retries i : ℕ) (d : Delay) (t : Trace)
    → Last answer retries (i + 1) t
    → Last answer retries i
        (record { attempts = t.attempts + 1; sleeps = d ∷ t.sleeps; ending = t.ending })
Last-later answer retries i d t (e, r) =
    let same : i + 1 + length t.sleeps ≡ i + suc (length t.sleeps) = omega arith in
    subst
      (λ n. (t.ending ≡ conclude (answer n)) × ((n + 1 ≡ retries) ⊎ (can_retry (answer n) ≡ false)))
      same (e, r)

Last-judge :
    (answer : ℕ → Attempt) (retries i : ℕ) (d : Delay) (a : Attempt) (rest : Trace)
    → answer i ≡ a
    → i < retries
    → (ltb i (retries - 1) ≡ true → Last answer retries (i + 1) rest)
    → Last answer retries i (judge a (ltb i (retries - 1)) d rest)
Last-judge answer retries i d (started id) rest e lt h =
    let here : answer (i + 0) ≡ started id = ap answer (omega arith) ∙ e in
    (rw here refl, inr (rw here refl))
Last-judge answer retries i d (twirp code) rest e lt h =
    let here : answer (i + 0) ≡ twirp code = ap answer (omega arith) ∙ e in
    elim (Bool-cases (is_retryable code)) [
      | inl r ↦ elim (Bool-cases (ltb i (retries - 1))) [
        | inl m ↦ rw (r, m) (Last-later answer retries i d rest (h m))
        | inr m ↦ rw (r, m) (rw here refl, inl (ground arith))
      ]
      | inr r ↦ rw r (rw here refl, inr (rw (here, r) refl))
    ]
Last-judge answer retries i d other rest e lt h =
    let here : answer (i + 0) ≡ other = ap answer (omega arith) ∙ e in
    (rw here refl, inr (rw here refl))

Last-rounds :
    (answer : ℕ → Attempt) (retries left i : ℕ) (d : Delay)
    → i + suc left ≡ retries
    → Last answer retries i (rounds answer retries (suc left) i d)
unfolding rounds
Last-rounds answer retries zero i d h =
    Last-judge answer retries i d (answer i) (rounds answer retries zero (i + 1) (longer d)) refl
      (omega arith) (λ m. absurd (ground arith))
Last-rounds answer retries (suc left) i d h =
    Last-judge answer retries i d (answer i) (rounds answer retries (suc left) (i + 1) (longer d))
      refl (omega arith) (λ m. Last-rounds answer retries left (i + 1) (longer d) (omega arith))

Last-first :
    (answer : ℕ → Attempt) (retries : ℕ) (t : Trace)
    → Last answer retries 0 t
    → (t.ending ≡ conclude (answer (length t.sleeps)))
      × ((length t.sleeps + 1 ≡ retries) ⊎ (can_retry (answer (length t.sleeps)) ≡ false))
Last-first answer retries t h =
    let same : 0 + length t.sleeps ≡ length t.sleeps = omega arith in
    subst
      (λ n. (t.ending ≡ conclude (answer n)) × ((n + 1 ≡ retries) ⊎ (can_retry (answer n) ≡ false)))
      same h

-- With at least one round the function makes between one and `retries` attempts, with one sleep
-- between two of them. It ends with what the last answer says, and it stops there only because the
-- rounds are used up or because that answer is not to be retried.
pub start_egress_with_retry-ends :
    (answer : ℕ → Attempt) (retries : ℕ)
    → 0 < retries
    → let t = start_egress_with_retry answer retries in
      (t.attempts ≤ retries)
      × (t.attempts ≡ length t.sleeps + 1)
      × (t.ending ≡ conclude (answer (length t.sleeps)))
      × ((length t.sleeps + 1 ≡ retries) ⊎ (can_retry (answer (length t.sleeps)) ≡ false))
unfolding start_egress_with_retry
start_egress_with_retry-ends answer (suc left) h =
    let d : Delay = record { num = 1; den = 1 } in
    let t : Trace = rounds answer (suc left) (suc left) 0 d in
    let last =
      Last-first answer (suc left) t (Last-rounds answer (suc left) left 0 d (omega arith)) in
    (
      attempts-rounds answer (suc left) (suc left) 0 d,
      sleeps-rounds answer (suc left) left 0 d (omega arith),
      last.0,
      last.1,
    )
start_egress_with_retry-ends answer zero h = absurd (omega arith)
