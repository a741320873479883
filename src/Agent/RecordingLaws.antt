-- ===== src/Agent/RecordingLaws.antt =====
-- Where the recording is stored, and what is reported of it.
use Prim.Native.Char.{code}
use nalang_project.Prelude.{
  ℕ, ◌+◌, ◌≡◌, refl, ◌≢◌, String, Bool, true, false, Option, none, some, arith, nat_beq, ◌==◌,
  string_eq, Bool-cases, inl, inr,
}
use nalang_project.Text.{◌+s◌}
use nalang_project.Calendar.{DateTime}
use nalang_project.Agent.Waiting.{exists, Storage, Waited, found, timed_out, raised, unfinished}
use nalang_project.Agent.WaitingLaws.{Polled, Explains, wait_s3_object_exists-ends}
use nalang_project.Agent.Entrypoint.{
  Env, is_present, value_of, strip_front, strip_back, strip_slashes, stamp, audio_s3_key, audio_url,
  reported, Shutdown, endless, on_shutdown, report,
}

abbrev pub starts_with_slash : String → Bool
starts_with_slash String.[] = false
starts_with_slash (String.◌∷◌ c s) = nat_beq (code c) b'/'

front-strip_front : (s : String) → starts_with_slash (strip_front s) ≡ false
unfolding strip_front
front-strip_front String.[] = refl
front-strip_front (String.◌∷◌ c s) = ground (arith, front-strip_front s)

front-strip_back :
    (s : String) → starts_with_slash s ≡ false → starts_with_slash (strip_back s) ≡ false
unfolding strip_back
front-strip_back String.[] h = refl
front-strip_back (String.◌∷◌ c s) h = ground (arith)

front-append :
    (s t : String)
    → starts_with_slash s ≡ false
    → starts_with_slash t ≡ false
    → starts_with_slash (s +s t) ≡ false
front-append String.[] t h k = k
front-append (String.◌∷◌ c s) t h k = h

front-slash :
    (s t : String)
    → starts_with_slash s ≡ false
    → (s == "") ≡ false
    → starts_with_slash (s +s t) ≡ false
front-slash String.[] t h k = cc
front-slash (String.◌∷◌ c s) t h k = h

-- Whatever slashes stand around the prefix, the key of a recording does not begin with one, if the
-- name of the room does not.
pub audio_s3_key-front :
    (e : Env) (room_name : String) (t : DateTime)
    → starts_with_slash room_name ≡ false
    → starts_with_slash (audio_s3_key e room_name t) ≡ false
unfolding audio_s3_key strip_slashes
audio_s3_key-front e room_name t h =
    let clean : starts_with_slash (strip_slashes e.audio_prefix) ≡ false =
      front-strip_back (strip_front e.audio_prefix) (front-strip_front e.audio_prefix) in
    elim (Bool-cases (strip_slashes e.audio_prefix == "")) [
      | inl k ↦ rw k (front-append room_name ("_" +s stamp t +s ".ogg") h refl)
      | inr k ↦ rw k (front-slash (strip_slashes e.audio_prefix) _ clean k)
    ]

abbrev pub Reports : Env → Storage → ℕ → String → String → Shutdown → Type 0
Reports e s3 now room_name key (reported p) =
    Polled s3 now (now + 300) exists
    × (some p.api ≡ e.call_record_api)
    × (p.room_name ≡ room_name)
    × (p.recording_url ≡ audio_url e key)
Reports e s3 now room_name key _ = Unit

present-value : (v : Option String) → is_present v ≡ true → some (value_of v) ≡ v
present-value none h = cc
present-value (some s) h = refl

report-Reports :
    (e : Env) (s3 : Storage) (now : ℕ) (room_name key : String) (a : Waited)
    → Explains s3 now (now + 300) a
    → Reports e s3 now room_name key (report e room_name key a)
report-Reports e s3 now room_name key found h = elim (Bool-cases (is_present e.call_record_api)) [
  | inl k ↦ rw k (h, present-value e.call_record_api k, refl, refl)
  | inr k ↦ rw k tt
]
report-Reports e s3 now room_name key timed_out h = tt
report-Reports e s3 now room_name key raised h = tt
report-Reports e s3 now room_name key unfinished h = tt

report-endless :
    (e : Env) (room_name key : String) (a : Waited)
    → a ≢ unfinished
    → report e room_name key a ≢ endless
report-endless e room_name key found h k = ground arith
report-endless e room_name key timed_out h k = cc
report-endless e room_name key raised h k = cc
report-endless e room_name key unfinished h k = h refl

-- The shut-down ends. It reports a recording only after a poll within 300 seconds that found the
-- object, and then to the address that is set, with the room's name and the address of the object's
-- key in the bucket.
pub on_shutdown-Reports :
    (e : Env) (s3 : Storage) (now : ℕ) (room_name key : String)
    → (on_shutdown e s3 now room_name key ≢ endless)
      × Reports e s3 now room_name key (on_shutdown e s3 now room_name key)
unfolding on_shutdown
on_shutdown-Reports e s3 now room_name key =
    let ends = wait_s3_object_exists-ends s3 now 300 in
    (report-endless e room_name key _ ends.0, report-Reports e s3 now room_name key _ ends.1)
