-- ===== src/Agent/Entrypoint.antt =====
-- `entrypoint` and its `on_shutdown` of agent/agent.py. The answers of LiveKit, of S3 and of the
-- server are arguments; what the server answers to the record is only logged.
use Prim.Native.Char.{code}
use nalang_project.Prelude.{
  ℕ, String, Bool, true, false, ◌&&◌, Option, none, some, if◌then◌else◌, nat_beq, ◌==◌, string_eq,
}
use nalang_project.Text.{◌+s◌}
use nalang_project.Calendar.{DateTime, put2, put4}
use nalang_project.Agent.Egress.{
  Attempt, Ending, returned, raised, nothing, start_egress_with_retry,
}
use nalang_project.Agent.Waiting.{
  Storage, Waited, found, timed_out, unfinished, wait_s3_object_exists,
}

pub record Env : Type 0 where
  pub s3_bucket : Option String
  pub s3_region : Option String
  pub s3_access_key : Option String
  pub s3_secret_key : Option String
  pub call_record_api : Option String
  pub audio_prefix : String

abbrev pub is_present : Option String → Bool
is_present none = false
is_present (some s) = if s == "" then false else true

abbrev pub value_of : Option String → String
value_of none = "None"
value_of (some s) = s

-- The first of the four variables that is not set.
unfoldable pub missing_env : Env → Option String
missing_env e =
    if is_present e.s3_bucket
    then (if is_present e.s3_region
        then (if is_present e.s3_access_key
            then (if is_present e.s3_secret_key then none else some "S3_SECRET_KEY")
            else some "S3_ACCESS_KEY")
        else some "S3_REGION")
    else some "S3_BUCKET_NAME"

abbrev pub is_slash : String → Bool
is_slash String.[] = true
is_slash (String.◌∷◌ c s) = nat_beq (code c) b'/' && is_slash s

unfoldable pub strip_front : String → String
strip_front String.[] = ""
strip_front (String.◌∷◌ c s) =
    let rest = strip_front s in if nat_beq (code c) b'/' then rest else String.◌∷◌ c s

unfoldable pub strip_back : String → String
strip_back String.[] = ""
strip_back (String.◌∷◌ c s) =
    let rest = strip_back s in if is_slash (String.◌∷◌ c s) then "" else String.◌∷◌ c rest

-- `text.strip("/")`
unfoldable pub strip_slashes : String → String
unfolding strip_front strip_back
strip_slashes s = strip_back (strip_front s)

-- `start_time.strftime("%Y%m%d_%H%M%S")`
unfoldable pub stamp : DateTime → String
stamp t = put4 t.date.year (
    put2 t.date.month
      (put2 t.date.day (String.◌∷◌ "_" (put2 t.hour (put2 t.minute (put2 t.second ""))))))

unfoldable pub audio_s3_key : Env → String → DateTime → String
unfolding strip_slashes stamp
audio_s3_key e room_name t =
    let prefix = strip_slashes e.audio_prefix in
    let basename = room_name +s "_" +s stamp t +s ".ogg" in
    if prefix == "" then basename else prefix +s "/" +s basename

unfoldable pub audio_url : Env → String → String
audio_url e key =
    "https://" +s value_of e.s3_bucket +s ".s3." +s value_of e.s3_region +s ".amazonaws.com/" +s key

-- What the job is after `entrypoint`: an error for a missing variable, no recording, or a recording
-- under a key with `on_shutdown` registered.
pub data Job : Type 0 where
  missing_variable : String → Job
  not_recorded : Job
  recording : String → String → String → Job

abbrev or_not_recorded : Ending → String → String → Job
or_not_recorded (returned egress_id) room_name key = recording egress_id room_name key
or_not_recorded (raised a) room_name key = not_recorded
-- no answer after no attempt, where `retries` would be 0
or_not_recorded nothing room_name key = not_recorded

abbrev boot : Option String → Job → Job
boot none job = job
boot (some name) job = missing_variable name

unfoldable pub entrypoint : Env → (ℕ → Attempt) → String → DateTime → Job
unfolding missing_env audio_s3_key
entrypoint e answer room_name t = boot (missing_env e) (
    or_not_recorded (start_egress_with_retry answer 3).ending room_name
      (audio_s3_key e room_name t))

-- The request that reports the recording.
pub record Put : Type 0 where
  pub api : String
  pub room_name : String
  pub recording_url : String

pub data Shutdown : Type 0 where
  reported : Put → Shutdown
  silent : Shutdown
  failed : Shutdown
  endless : Shutdown

abbrev pub report : Env → String → String → Waited → Shutdown
report e room_name key found =
    if is_present e.call_record_api
    then reported (record {
      api = value_of e.call_record_api;
      room_name = room_name;
      recording_url = audio_url e key;
    })
    else silent
report e room_name key timed_out = silent
report e room_name key nalang_project.Agent.Waiting.raised = failed
report e room_name key unfinished = endless

unfoldable pub on_shutdown : Env → Storage → ℕ → String → String → Shutdown
unfolding audio_url
on_shutdown e s3 now room_name key = report e room_name key (wait_s3_object_exists s3 now 300)
