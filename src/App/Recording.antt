-- ===== src/App/Recording.antt =====
-- The agent reports a recording to the server: `requests.put(CALL_RECORD_API, json=payload)` of
-- agent/agent.py, where `CALL_RECORD_API` is the address of the server's PUT /api/v1/call/record.
use nalang_project.Prelude.{
  ap, ℕ, ◌+◌, ◌≡◌, ◌≢◌, refl, ◌⊎◌, inl, inr, String, not, Option, none, some, [], ◌∷◌, keep, All,
  ◌==◌, string_eq,
}
use nalang_project.Auth.World.{Settings, Libraries, Clock, Server}
use nalang_project.Agent.Waiting.{Storage, exists}
use nalang_project.Agent.WaitingLaws.{Polled}
use nalang_project.Agent.Entrypoint.{
  Env, Put, Shutdown, reported, silent, failed, endless, audio_url, on_shutdown,
}
use nalang_project.Agent.RecordingLaws.{Reports, on_shutdown-Reports}
use nalang_project.Call.History.{update_audio_url}
use nalang_project.Call.HistoryLaws.{update_audio_url-rows}
use nalang_project.Routes
use nalang_project.Routes.Table
use nalang_project.Routes.Table.{IsRouter}
use nalang_project.Routes.Table.{Handler}
use nalang_project.App.{respond_to, Services, Input, handle, HttpRequest, respond}

abbrev read_payload : Put → (h : Handler) → Option (Input h)
read_payload p Table.record_audio_url =
    some (record { room_name = p.room_name; recording_url = some p.recording_url })
read_payload p _ = none

unfoldable pub put_record : Put → HttpRequest
put_record p = record {
  method = Table.put;
  path = "api" ∷ "v1" ∷ "call" ∷ "record" ∷ [];
  read = read_payload p;
}

-- The recording was there, and every call of the room has its address; no other call is changed.
abbrev pub Recorded : Env → Storage → ℕ → String → String → Server → Server → Type 0
Recorded e s3 now room key s s' =
    Polled s3 now (now + 300) exists
    × All (λ h. h.recording_url ≡ some (audio_url e key))
        (keep (λ h. h.room_name == room) s'.db.histories)
    × (keep (λ h. not (h.room_name == room)) s'.db.histories
        ≡ keep (λ h. not (h.room_name == room)) s.db.histories)

module _ (c : Settings) (x : Libraries) (v : Services) (t : Clock) where
  -- The server after the shut-down of a job.
  unfoldable pub after_shutdown : Shutdown → Server → Server
  unfolding put_record
  after_shutdown (reported p) s = (respond c x v t (put_record p) s).1
  after_shutdown _ s = s

  after_reported :
      (p : Put) (s : Server)
      → IsRouter v.route
      → after_shutdown (reported p) s ≡ (update_audio_url p.room_name (some p.recording_url) s).1
  unfolding after_shutdown put_record respond Table.resolve Table.search_routes Table.answers
      Table.touches Table.fits handle Routes.record_audio_url
  after_reported p s router =
      ap (λ a. (respond_to c x v t (put_record p) a s).1)
        ((router Table.put ("api" ∷ "v1" ∷ "call" ∷ "record" ∷ []) Table.record_audio_url).1 refl)

  Reports-Recorded :
      (e : Env) (s3 : Storage) (now : ℕ) (room key : String) (a : Shutdown) (s : Server)
      → IsRouter v.route
      → Reports e s3 now room key a
      → Recorded e s3 now room key s (after_shutdown a s) ⊎ (after_shutdown a s ≡ s)
  Reports-Recorded e s3 now room key (reported p) s router (polled, _, same_room, same_url) =
      let (urls, others, _, _) = update_audio_url-rows p.room_name (some p.recording_url) s in
      inl (rw (after_reported p s router, ← same_room, ← same_url) (polled, urls, others))
  Reports-Recorded e s3 now room key silent s router h = inr (unfold after_shutdown in refl)
  Reports-Recorded e s3 now room key failed s router h = inr (unfold after_shutdown in refl)
  Reports-Recorded e s3 now room key endless s router h = inr (unfold after_shutdown in refl)

  -- With a router that answers by the first route that fits, the shut-down of a job whose reports go
  -- to the server ends. Then the recording was there within
  -- 300 seconds, every call that is recorded for the room has the address of the recording, and the
  -- other calls are as before; or the server is as before.
  pub on_shutdown-Recorded :
      (e : Env) (s3 : Storage) (now : ℕ) (room key : String) (s : Server)
      → IsRouter v.route
      → let s' = after_shutdown (on_shutdown e s3 now room key) s in
        (on_shutdown e s3 now room key ≢ endless) × (Recorded e s3 now room key s s' ⊎ (s' ≡ s))
  on_shutdown-Recorded e s3 now room key s router =
      let (ends, reports) = on_shutdown-Reports e s3 now room key in
      (ends, Reports-Recorded e s3 now room key (on_shutdown e s3 now room key) s router reports)
