-- ===== src/Agent/Waiting.antt =====
-- `wait_s3_object_exists` of agent/agent.py. S3's answers to the polls are an argument; a poll and the
-- sleep after it take some time, at least the two seconds of the sleep.
use nalang_project.Prelude.{ℕ, zero, suc, ◌+◌, ltb, if◌then◌else◌}

-- The answer to `head_object`.
pub data Head : Type 0 where
  exists : Head
  -- a ClientError with status 404
  missing : Head
  -- any other exception
  failed : Head

pub data Waited : Type 0 where
  found : Waited
  timed_out : Waited
  raised : Waited
  -- not an answer of the function: the fuel ran out
  unfinished : Waited

-- At each time that the clock shows, the answer to a poll and the seconds until the next look at the
-- clock, beyond the two that are slept.
abbrev pub Storage : Type 0
Storage = ℕ → Head × ℕ

abbrev pub after_poll : Head → Waited → Waited
after_poll exists rest = found
after_poll missing rest = rest
after_poll failed rest = raised

unfoldable pub poll : ℕ → Storage → ℕ → ℕ → Waited
poll zero s3 now deadline = unfinished
poll (suc fuel) s3 now deadline =
    let rest = poll fuel s3 (now + 2 + (s3 now).1) deadline in
    let answer = after_poll (s3 now).0 rest in if ltb now deadline then answer else timed_out

-- Every round takes two seconds or more, so `timeout_sec` rounds are enough.
unfoldable pub wait_s3_object_exists : Storage → ℕ → ℕ → Waited
unfolding poll
wait_s3_object_exists s3 now timeout_sec = poll (suc timeout_sec) s3 now (now + timeout_sec)
