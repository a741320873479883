-- ===== src/Agent/Egress.antt =====
-- `start_egress_with_retry` of agent/agent.py. What LiveKit answers to each attempt is an argument;
-- the delays are exact: `delay` is `num / den` seconds.
use nalang_project.Prelude.{
  ℕ, zero, suc, ◌+◌, ◌-◌, ◌*◌, String, Bool, ◌&&◌, ◌||◌, List, [], ◌∷◌, ltb, if◌then◌else◌, ◌==◌,
  string_eq,
}

-- The answer to an attempt: the number of the recording, the code of a TwirpError, or another
-- exception.
pub data Attempt : Type 0 where
  started : String → Attempt
  twirp : String → Attempt
  other : Attempt

-- How the function ends: with the answer, with an exception, or with `None` after no attempt.
pub data Ending : Type 0 where
  returned : String → Ending
  raised : Attempt → Ending
  nothing : Ending

-- A fraction of a second.
pub record Delay : Type 0 where
  pub num : ℕ
  pub den : ℕ

abbrev pub is_retryable : String → Bool
is_retryable code = code == "unavailable" || code == "internal" || code == "deadline_exceeded"

-- The rounds that are left, from round `i` on; the list holds the sleeps so far.
pub record Trace : Type 0 where
  pub attempts : ℕ
  pub sleeps : List Delay
  pub ending : Ending

abbrev add_attempt : Delay → Trace → Trace
add_attempt d t = record t { attempts = t.attempts + 1; sleeps = d ∷ t.sleeps }

-- `delay *= 1.5`: a float holds (3/2)^i as it is up to i = 33, since 3^33 has 53 bits
abbrev pub longer : Delay → Delay
longer d = record { num = d.num * 3; den = d.den * 2 }

abbrev pub judge : Attempt → Bool → Delay → Trace → Trace
judge (started id) more d rest = record { attempts = 1; sleeps = []; ending = returned id }
judge (twirp code) more d rest =
    if is_retryable code && more
    then add_attempt d rest
    else record { attempts = 1; sleeps = []; ending = raised (twirp code) }
judge other more d rest = record { attempts = 1; sleeps = []; ending = raised other }

-- `left` rounds of `range(retries)`, of which this is number `i`
unfoldable pub rounds : (ℕ → Attempt) → ℕ → ℕ → ℕ → Delay → Trace
rounds answer retries zero i d = record { attempts = 0; sleeps = []; ending = nothing }
rounds answer retries (suc left) i d =
    let rest = rounds answer retries left (i + 1) (longer d) in
    judge (answer i) (ltb i (retries - 1)) d rest

unfoldable pub start_egress_with_retry : (ℕ → Attempt) → ℕ → Trace
unfolding rounds
start_egress_with_retry answer retries =
    rounds answer retries retries 0 (record { num = 1; den = 1 })
