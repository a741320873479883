-- ===== src/Agent/Tests.antt =====
-- Runs of the agent: a service that fails twice, and an object that appears after some polls.
use nalang_project.Prelude.{
  some, ℕ, zero, suc, ◌+◌, ◌≤◌, ◌<◌, ◌≡◌, ◌≢◌, ◌⊎◌, false, arith, leb, if◌then◌else◌, length,
}
use nalang_project.Agent.Egress.{Attempt, started, twirp, start_egress_with_retry}
use nalang_project.Calendar.{DateTime}
use nalang_project.Agent.Entrypoint.{Env}
use nalang_project.Agent.EgressLaws.{conclude, can_retry, start_egress_with_retry-ends}
use nalang_project.Agent.Delays.{powers, start_egress_with_retry-delays}
use nalang_project.Agent.Waiting.{exists, missing, Storage, unfinished, wait_s3_object_exists}
use nalang_project.Agent.WaitingLaws.{Explains, wait_s3_object_exists-ends}

abbrev flaky : ℕ → Attempt
flaky zero = twirp "unavailable"
flaky (suc zero) = twirp "internal"
flaky (suc (suc n)) = started "EG_1"

start_egress_with_retry-ends_example :
    let t = start_egress_with_retry flaky 3 in
    (t.attempts ≤ 3)
    × (t.attempts ≡ length t.sleeps + 1)
    × (t.ending ≡ conclude (flaky (length t.sleeps)))
    × ((length t.sleeps + 1 ≡ 3) ⊎ (can_retry (flaky (length t.sleeps)) ≡ false))
start_egress_with_retry-ends_example = start_egress_with_retry-ends flaky 3 (omega arith)

start_egress_with_retry-delays_example :
    let t = start_egress_with_retry flaky 3 in
    (length t.sleeps < 3) × (t.sleeps ≡ powers (length t.sleeps) 0)
start_egress_with_retry-delays_example =
    start_egress_with_retry-delays flaky 3 (omega arith) (omega arith)

-- The object is there from second 105 on, and each request takes no time.
abbrev upload : Storage
upload t = (if leb 105 t then exists else missing, 0)

wait_s3_object_exists-ends_example :
    (wait_s3_object_exists upload 100 300 ≢ unfinished)
    × Explains upload 100 (100 + 300) (wait_s3_object_exists upload 100 300)
wait_s3_object_exists-ends_example = wait_s3_object_exists-ends upload 100 300

abbrev env : Env
env = record {
  s3_bucket = some "calls";
  s3_region = some "ap-northeast-2";
  s3_access_key = some "k";
  s3_secret_key = some "s";
  call_record_api = some "https://server/record";
  audio_prefix = "/recordings/";
}

abbrev start : DateTime
start = record {
  date = record { year = 2025; month = 7; day = 1 };
  hour = 9;
  minute = 5;
  second = 0;
  microsecond = 0;
}
