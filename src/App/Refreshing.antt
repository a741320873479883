-- ===== src/App/Refreshing.antt =====
-- The route `/refresh` after any history of requests.
use nalang_project.Prelude.{
  ℕ, ◌≡◌, refl, sym, ◌∙◌, ap, String, true, Option, none, some, List, [], ◌∷◌, inl, inr, leb,
  Bool-cases, ==_iff, string_eq, subst, pos,
}
use nalang_project.Text.{str, int}
use nalang_project.Text.RoundTrip.{int-str, str-injective}
use nalang_project.Dict.{All-lookup, lookup}
use nalang_project.Redis
use nalang_project.Redis.{Redis, Entry}
use nalang_project.Raise.{ok}
use nalang_project.Models.{Db}
use nalang_project.Waiting.State.{Value, text}
use nalang_project.Auth.World.{Settings, Libraries, Claims, Clock}
use nalang_project.Auth.Login.{same_user, refresh_access_token}
use nalang_project.Call.History.{has_user}
use nalang_project.App.{Services, Event, run_events}
use nalang_project.App.Sessions.{IsSession, HasSessions}
use nalang_project.App.Histories.{empty_server, run_events-IsSound}

live-IsSession :
    (now : ℕ) (d : Db) (o : Option (Entry Value)) (v : Value)
    → ((e : Entry Value) → o ≡ some e → IsSession d e.value)
    → Redis.live now o ≡ some v
    → IsSession d v
live-IsSession now d none v h p = cc
live-IsSession now d (some e) v h p = elim (Bool-cases (leb e.expires now)) [
  | inl k ↦ cc (rw k at p)
  | inr k ↦ subst (IsSession d) (cc (rw k at p)) (h e refl)
]

get-IsSession :
    (now : ℕ) (key : String) (d : Db) (redis : Redis Value) (v : Value)
    → HasSessions d redis
    → Redis.get now key redis ≡ some v
    → IsSession d v
unfolding Redis.get
get-IsSession now key d redis v h p =
    live-IsSession now d (lookup key redis) v
      (λ e q. All-lookup (λ e. IsSession d e.value) key e redis h q) p

str-waiting : (id : ℕ) → str id ≡ "waiting" → some (pos id) ≡ none
unfolding int
str-waiting id h = sym (int-str id) ∙ ap int h

text_value : Value → String
text_value (text s) = s
text_value (Value.profile u f) = ""

text-Known : (d : Db) (id : ℕ) → IsSession d (text (str id)) → has_user id d ≡ true
unfolding text_value
text-Known d id (inl e) = cc (str-waiting id (ap text_value e))
text-Known d id (inr (inl (k, e, known))) = rw (str-injective id k (ap text_value e)) known
text-Known d id (inr (inr (mine, f, e, known))) = cc

same_user-Known :
    (c : Settings) (x : Libraries) (t : Clock) (d : Db) (o : Option Value) (id : ℕ)
    → ((v : Value) → o ≡ some v → IsSession d v)
    → same_user c x t o (some (str id)) ≡ true
    → has_user id d ≡ true
same_user-Known c x t d none id h p = cc
same_user-Known c x t d (some (text s)) id h p =
    text-Known d id (rw (sym ((==_iff s (str id)).0 p)) (h (text s) refl))
same_user-Known c x t d (some (Value.profile u f)) id h p = cc

-- After any history of requests and seeds from the empty server: a refresh with a token whose subject
-- is the number of a user gives a new access token only if the row of that user is there.
pub refresh_access_token-Known :
    (c : Settings) (x : Libraries) (v : Services) (es : List Event) (t : Clock) (token : String)
    (p : Claims) (id : ℕ) (answer : String × String)
    → x.decode t.now token c.jwt_refresh_secret_key ("HS256" ∷ []) ≡ some p
    → p.sub ≡ some (str id)
    → let last = run_events c x v es empty_server in
      (refresh_access_token c x t token last).0 ≡ ok answer → has_user id last.db ≡ true
unfolding refresh_access_token
refresh_access_token-Known c x v es t token p id answer signed sub ok_answer =
    let last = run_events c x v es empty_server in
    same_user-Known c x t last.db (Redis.get t.now token last.redis) id
      (λ w q. get-IsSession t.now token last.db last.redis w (run_events-IsSound c x v es).1 q)
      (elim (Bool-cases (same_user c x t (Redis.get t.now token last.redis) (some (str id)))) [
        | inl k ↦ k
        | inr k ↦ cc (rw (signed, sub, k) at ok_answer)
      ])
