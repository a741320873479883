-- ===== src/Agent/WaitingLaws.antt =====
-- Laws of `wait_s3_object_exists`.
use nalang_project.Prelude.{
  ℕ, zero, suc, ◌+◌, ◌≤◌, ◌<◌, ◌≡◌, refl, ◌≢◌, inl, inr, arith, ltb, Bool-cases,
}
use nalang_project.Agent.Waiting.{
  Head, exists, missing, failed, Waited, found, timed_out, raised, unfinished, Storage, after_poll,
  poll, wait_s3_object_exists,
}

poll-finishes :
    (fuel : ℕ) (s3 : Storage) (now deadline : ℕ)
    → deadline ≤ now + fuel
    → poll (suc fuel) s3 now deadline ≢ unfinished
unfolding poll
poll-finishes zero s3 now deadline h = ground arith
poll-finishes (suc fuel) s3 now deadline h =
    ground (arith, poll-finishes fuel s3 (now + 2 + (s3 now).1) deadline)

-- A poll that was made in time and answered in a certain way.
abbrev pub Polled : Storage → ℕ → ℕ → Head → Type 0
Polled s3 now deadline a = (t : ℕ) × (now ≤ t) × (t < deadline) × ((s3 t).0 ≡ a)

Polled-later :
    (s3 : Storage) (now later deadline : ℕ) (a : Head)
    → now ≤ later
    → Polled s3 later deadline a
    → Polled s3 now deadline a
Polled-later s3 now later deadline a h (t, le, lt, e) = (t, omega arith, lt, e)

abbrev pub Explains : Storage → ℕ → ℕ → Waited → Type 0
Explains s3 now deadline found = Polled s3 now deadline exists
Explains s3 now deadline raised = Polled s3 now deadline failed
Explains s3 now deadline timed_out = Unit
Explains s3 now deadline unfinished = Unit

Explains-step :
    (s3 : Storage) (now later deadline : ℕ) (a : Head) (rest : Waited)
    → (s3 now).0 ≡ a
    → now < deadline
    → now ≤ later
    → Explains s3 later deadline rest
    → Explains s3 now deadline (after_poll a rest)
Explains-step s3 now later deadline exists rest e lt le h = (now, omega arith, lt, e)
Explains-step s3 now later deadline failed rest e lt le h = (now, omega arith, lt, e)
Explains-step s3 now later deadline missing found e lt le h =
    Polled-later s3 now later deadline exists le h
Explains-step s3 now later deadline missing raised e lt le h =
    Polled-later s3 now later deadline failed le h
Explains-step s3 now later deadline missing timed_out e lt le h = tt
Explains-step s3 now later deadline missing unfinished e lt le h = tt

poll-Explains :
    (fuel : ℕ) (s3 : Storage) (now deadline : ℕ)
    → Explains s3 now deadline (poll fuel s3 now deadline)
unfolding poll
poll-Explains zero s3 now deadline = tt
poll-Explains (suc fuel) s3 now deadline = elim (Bool-cases (ltb now deadline)) [
  | inl e ↦ rw e (
      Explains-step s3 now (now + 2 + (s3 now).1) deadline (s3 now).0 _ refl (ground arith)
        (omega arith) (poll-Explains fuel s3 (now + 2 + (s3 now).1) deadline))
  | inr e ↦ rw e tt
]

-- The wait ends. It answers `True` only after a poll before the deadline that found the object, and
-- raises only after such a poll that failed otherwise than by status 404.
pub wait_s3_object_exists-ends :
    (s3 : Storage) (now timeout_sec : ℕ)
    → (wait_s3_object_exists s3 now timeout_sec ≢ unfinished)
      × Explains s3 now (now + timeout_sec) (wait_s3_object_exists s3 now timeout_sec)
unfolding wait_s3_object_exists
wait_s3_object_exists-ends s3 now timeout_sec = (
  poll-finishes timeout_sec s3 now (now + timeout_sec) (omega arith),
  poll-Explains (suc timeout_sec) s3 now (now + timeout_sec),
)

poll-missing :
    (fuel : ℕ) (s3 : Storage) (now deadline : ℕ)
    → ((t : ℕ) → (s3 t).0 ≡ missing)
    → deadline ≤ now + fuel
    → poll (suc fuel) s3 now deadline ≡ timed_out
unfolding poll
poll-missing zero s3 now deadline h le = ground arith
poll-missing (suc fuel) s3 now deadline h le =
    ground (arith, h now, poll-missing fuel s3 (now + 2 + (s3 now).1) deadline h)

-- Without an object and without other errors the wait times out.
pub wait_s3_object_exists-missing :
    (s3 : Storage) (now timeout_sec : ℕ)
    → ((t : ℕ) → (s3 t).0 ≡ missing)
    → wait_s3_object_exists s3 now timeout_sec ≡ timed_out
unfolding wait_s3_object_exists
wait_s3_object_exists-missing s3 now timeout_sec h =
    poll-missing timeout_sec s3 now (now + timeout_sec) h (omega arith)
