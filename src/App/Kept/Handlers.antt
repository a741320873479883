-- ===== src/App/Kept/Handlers.antt =====
-- What every change of the database keeps is kept by every handler and by every event.
use nalang_project.Prelude.{refl, List, [], ◌∷◌, Option-cases, inl, inr}
use nalang_project.Models.{Db}
use nalang_project.Raise.Keeps.{Keeps, Keeps-bind}
use nalang_project.Auth.World.{Settings, Libraries, Clock, Server}
use nalang_project.Auth.CurrentUser.{get_current_user-IsRead, get_current_user_ws-IsRead}
use nalang_project.Call.History.{update_audio_url}
use nalang_project.Profile.Seeding.{main-adds}
use nalang_project.Auth.Login.{logout_user}
use nalang_project.Routes
use nalang_project.Routes.Table
use nalang_project.Routes.Table.{Handler, Answer}
use nalang_project.App.{
  accepted, Services, Input, handle, HttpRequest, Event, request, seed, respond_to, respond, after,
  run_events,
}
use nalang_project.Redis.{Redis}
use nalang_project.Waiting.State.{Value}
use nalang_project.App.Kept.Waiting.{Keeps-serve}
use nalang_project.App.Kept.Changes.{
  update_user_profile-keeps, upload_profile_image-keeps, register_for_call_queue-keeps,
  call_websocket-keeps,
}
use nalang_project.App.Kept.Bodies.{IsAccepted, accepted-IsAccepted}
use nalang_project.App.Kept.Providers.{
  Keeps-handle_google_callback, Keeps-handle_line_callback, Keeps-handle_kakao_callback,
  Keeps-handle_naver_callback,
}
use nalang_project.App.Stable.{IsStable}
use nalang_project.App.Kept.{
  OnServer, Keeps-create_call_history_with_check, Keeps-read, Keeps-login_user, Keeps-register_user,
  Keeps-refresh_access_token,
}

module _ {x : Libraries} {P : Db → Redis Value → Type 0} (k : IsStable x P) where
  module _ (c : Settings) (v : Services) where
    Keeps-handle :
        (t : Clock) (h : Handler) (i : Input h)
        → IsAccepted x h i
        → Keeps (OnServer k) (handle c x v t h i)
    unfolding handle Routes.login Routes.logout Routes.register Routes.refresh_token Routes.get_me
        Routes.save_profile Routes.save_profile_image Routes.get_interests Routes.get_languages
        Routes.get_genders Routes.get_call_token Routes.register_for_call_waiting Routes.record_call
        Routes.record_audio_url Routes.history_list update_audio_url
    Keeps-handle t Table.login i a =
        Keeps-bind (OnServer k) _ _ (Keeps-login_user k c t i.username i.password) (λ _ s h. h)
    Keeps-handle t Table.logout i a =
        λ s h. unfold logout_user in k.delete i.refresh_token s.db s.redis h
    Keeps-handle t Table.register_user i a =
        Keeps-bind (OnServer k) _ _ (Keeps-register_user k c t i a) (λ _ s h. h)
    Keeps-handle t Table.refresh_token i a =
        Keeps-bind (OnServer k) _ _ (Keeps-refresh_access_token k c t i.refresh_token) (λ _ s h. h)
    Keeps-handle t Table.refresh_token_route i a =
        Keeps-bind (OnServer k) _ _ (Keeps-refresh_access_token k c t i) (λ _ s h. h)
    Keeps-handle t Table.google_callback i a = Keeps-handle_google_callback k c t v.client i
    Keeps-handle t Table.line_callback i a = Keeps-handle_line_callback k c t v.client i
    Keeps-handle t Table.kakao_callback i a = Keeps-handle_kakao_callback k c t v.client i
    Keeps-handle t Table.naver_callback i a = Keeps-handle_naver_callback k c t v.client i
    Keeps-handle t Table.get_me i a =
        Keeps-read k _ _ _ (get_current_user-IsRead c x t i.token) (λ u s found h. h)
    Keeps-handle t Table.get_partner i a = λ s h. h
    Keeps-handle t Table.save_profile i a =
        Keeps-read k _ _ _ (get_current_user-IsRead c x t i.token)
          (λ u s found h. update_user_profile-keeps k u i.input s.db s.redis found h)
    Keeps-handle t Table.upload_profile_image i a =
        Keeps-read k _ _ _ (get_current_user-IsRead c x t i.token) (λ u s found h.
          upload_profile_image-keeps k v.upload v.bucket i.input.0 i.input.1 u s.db s.redis found h)
    Keeps-handle t Table.get_call_token i a =
        Keeps-read k _ _ _ (get_current_user-IsRead c x t i.token) (λ u s found h. h)
    Keeps-handle t Table.register_for_call_waiting i a =
        Keeps-read k _ _ _ (get_current_user-IsRead c x t i.token)
          (λ u s found h. register_for_call_queue-keeps k t.now u.id s.db s.redis h)
    Keeps-handle t Table.history_list i a =
        Keeps-read k _ _ _ (get_current_user-IsRead c x t i.token) (λ u s found h. h)
    Keeps-handle t Table.record_call i a = Keeps-create_call_history_with_check k t i
    Keeps-handle t Table.record_audio_url i a =
        λ s h. k.set_urls i.room_name i.recording_url s.db s.redis h
    Keeps-handle t Table.websocket_waiting i a =
        Keeps-read k _ _ _ (get_current_user_ws-IsRead c x t i.0) (λ u s found h.
          Keeps-serve k s.db i.1 u (rw found refl) (record i.2 { redis = s.redis }) h)
    Keeps-handle t Table.call_websocket i a =
        Keeps-read k _ _ _ (get_current_user_ws-IsRead c x t i.0)
          (λ u s found h. call_websocket-keeps k t.now u.id i.1 s.db s.redis h)
    Keeps-handle t Table.health_check i a = λ s h. h
    Keeps-handle t Table.api_health_check i a = λ s h. h
    Keeps-handle t Table.google_login i a = λ s h. h
    Keeps-handle t Table.line_login i a = λ s h. h
    Keeps-handle t Table.kakao_login i a = λ s h. h
    Keeps-handle t Table.naver_login i a = λ s h. h
    Keeps-handle t Table.get_interests i a = λ s h. h
    Keeps-handle t Table.get_languages i a = λ s h. h
    Keeps-handle t Table.get_genders i a = λ s h. h
    Keeps-handle t Table.delete_room_api i a = λ s h. h
    Keeps-handle t Table.room_test i a = λ s h. h

    respond_to-keeps :
        (t : Clock) (r : HttpRequest) (a : Answer) (s : Server)
        → OnServer k s
        → OnServer k (respond_to c x v t r a s).1
    respond_to-keeps t r Table.not_found s h = h
    respond_to-keeps t r Table.method_not_allowed s h = h
    respond_to-keeps t r (Table.reached g) s h = elim (Option-cases (accepted x g (r.read g))) [
      | inl e ↦ rw e h
      | inr (i, e) ↦ rw e (Keeps-handle t g i (accepted-IsAccepted x g (r.read g) i e) s h)
    ]

    after-keeps : (e : Event) (s : Server) → OnServer k s → OnServer k (after c x v e s)
    unfolding after respond
    after-keeps (request t r) s h = respond_to-keeps t r (v.route r.method r.path) s h
    after-keeps (seed n) s h = elim (main-adds n s.db) [
      | inl q ↦ rw q h
      | inr (i, l, g, q) ↦ rw q (k.insert_options i l g s.db s.redis h)
    ]

    pub run_events-keeps :
        (es : List Event) (s : Server) → OnServer k s → OnServer k (run_events c x v es s)
    unfolding run_events
    run_events-keeps [] s h = h
    run_events-keeps (e ∷ es) s h = run_events-keeps es (after c x v e s) (after-keeps e s h)
