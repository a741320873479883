-- ===== src/Auth/Tests.antt =====
-- Libraries that keep the laws, with tokens in clear, and a server with two accounts.
use Prim.Native.Char.{Char, code}
use nalang_project.Prelude.{
  ◌↔◌, ℕ, zero, suc, ◌+◌, ◌≡◌, refl, sym, ◌≢◌, ◌∙◌, ap, String, true, false, Option, none, some, [],
  ◌∷◌, ltb, nat_beq, if◌then◌else◌, pos, arith, ◌==◌, nat_eq, string_eq, subst, ==_refl, ◌≤◌,
}
use nalang_project.Text.{str}
use nalang_project.Text.RoundTrip.{str-injective}
use nalang_project.Redis.{Redis}
use nalang_project.Raise.{ok, err, http}
use nalang_project.Models.{User}
use nalang_project.Auth.World.{Settings, Claims, Libraries, IsLawful, Clock, Server}
use nalang_project.Auth.Accounts.{RegisterRequest, validate, new_user, find_by_email, find_by_id}
use nalang_project.Auth.Validation.{Accepts, validate_iff}
use nalang_project.Json
use nalang_project.Json.{Json}
use nalang_project.Auth.Oauth.{
  Client, Profile, to_request, redirect, naver_profile, handle_naver_callback,
}
use nalang_project.Auth.OauthLaws.{tokens_of, handle_naver_callback-account}
use nalang_project.Auth.AccountLaws.{IsConsistent}
use nalang_project.Auth.Login.{
  create_access_token, create_refresh_token, login_user, refresh_access_token, logout_user,
  register_user, get_current_user, refresh_claims,
}
use nalang_project.Auth.Sessions.{refresh-login, refresh-logout, register_user-signs_in}

abbrev x_char : Char
x_char = "x"

-- A stroke for each second, a dot, and the subject.
abbrev ticks : ℕ → String → String
ticks zero rest = rest
ticks (suc n) rest = String.◌∷◌ x_char (ticks n rest)

abbrev put_sub : Option String → String
put_sub none = ""
put_sub (some s) = String.◌∷◌ x_char s

abbrev take_sub : String → Option String
take_sub String.[] = none
take_sub (String.◌∷◌ c s) = some s

abbrev parse : ℕ → ℕ → String → Option Claims
parse now n String.[] = none
parse now n (String.◌∷◌ c s) =
    let rest = parse now (n + 1) s in
    if nat_beq (code c) b'x'
    then rest
    else if ltb n now
    then none
    else some (record { sub = take_sub s; exp = n })

abbrev dot : String → String
dot s = String.◌∷◌ "." s

parse-ticks :
    (now n k : ℕ) (s : String)
    → parse now n (ticks k (dot s))
      ≡ (if ltb (n + k) now then none else some (record { sub = take_sub s; exp = n + k }))
parse-ticks now n zero s = ground arith
parse-ticks now n (suc k) s = ground (arith, parse-ticks now (n + 1) k s)

take-put : (sub : Option String) → take_sub (put_sub sub) ≡ sub
take-put none = refl
take-put (some s) = refl

abbrev plain : Option String → String
plain none = ""
plain (some s) = s

abbrev pub libraries : Libraries
libraries = record {
  encode = λ c key alg. ticks c.exp (dot (put_sub c.sub));
  decode = λ now token key algs. parse now 0 token;
  hash = λ p. p;
  verify = λ p h. plain h == p;
  email = λ s. some s;
  urlencode = λ fields. "";
  repr = λ j. "";
}

in_time :
    (now : ℕ) (c : Claims)
    → now ≤ c.exp
    → (if ltb (0 + c.exp) now then none else some (record { sub = c.sub; exp = 0 + c.exp }))
      ≡ some c
in_time now c h =
    let same : 0 + c.exp ≡ c.exp = omega arith in
    let fresh : ltb c.exp now ≡ false = ground arith in rw (same, fresh)

pub lawful : IsLawful libraries
lawful = record {
  decode-encode = λ now exp sub key h.
      parse-ticks now 0 exp (put_sub (some sub))
      ∙ rw (take-put (some sub)) (in_time now (record { sub = some sub; exp = exp }) h);
  verify-hash = λ password. ==_refl password;
}

abbrev pub settings : Settings
settings = record {
  jwt_secret_key = "a";
  jwt_refresh_secret_key = "b";
  algorithm = "HS256";
  access_token_expire_minutes = 30;
  refresh_token_expire_days = 14;
  front_redirect_url = "";
  google_client_id = "";
  google_client_secret = "";
  google_redirect_uri = "";
  line_client_id = "";
  line_client_secret = "";
  line_redirect_uri = "";
  kakao_client_id = "";
  kakao_redirect_uri = "";
  naver_client_id = "";
  naver_client_secret = "";
  naver_redirect_uri = "";
}

abbrev user : ℕ → String → User
user id email = record {
  id = id;
  email = email;
  hashed_password = some "secret12";
  name = "Ann";
  profile_image = none;
  provider = some "local";
  birth_date = none;
  created_at = 0;
  interest_links = [];
  language_links = [];
  gender_links = [];
}

abbrev pub server : Server
server = record {
  db = record {
    users = user 1 "a@b.kr" ∷ user 2 "b@b.kr" ∷ [];
    next_user = 3;
    interests = [];
    languages = [];
    genders = [];
    histories = [];
    next_history = 1;
  };
  redis = [];
}

abbrev pub at : ℕ → Clock
at n = record { now = n; local_now = n }

abbrev pub request : RegisterRequest
request = record {
  email = "c@b.kr";
  name = "Cho";
  password = some "secret34";
  provider = some "local";
  profile_image = none;
}

abbrev taken : RegisterRequest
taken = record request { email = "a@b.kr" }

finds_ann : find_by_id (pos 1) server.db.users ≡ some (user 1 "a@b.kr")
unfolding find_by_id
finds_ann = refl

finds_address : find_by_email "a@b.kr" server.db.users ≡ some (user 1 "a@b.kr")
unfolding find_by_email
finds_address = refl

pub no_address : find_by_email "c@b.kr" server.db.users ≡ none
unfolding find_by_email
no_address = refl

abbrev address_a : String
address_a = "a@b.kr"

abbrev address_b : String
address_b = "b@b.kr"

addresses_differ : address_b ≢ address_a
addresses_differ e =
    let same : (address_b == address_a) ≡ true = subst (λ s. (address_b == s) ≡ true) e refl in
    let differ : (address_b == address_a) ≡ false = refl in cc (same, differ)

pub consistent : IsConsistent server.db
consistent = record {
  unique = (((addresses_differ, omega arith), tt), (tt, tt));
  below = (omega arith, (omega arith, tt));
}

refresh-login_example :
    let (_, s1) = login_user settings libraries (at 10) "a@b.kr" "secret12" server in
    let refresh_token = create_refresh_token settings libraries (at 10) (some (str 1)) in
    let access_token = create_access_token settings libraries (at 5000) (some (str 1)) in
    (refresh_access_token settings libraries (at 5000) refresh_token s1
      ≡ (ok (access_token, refresh_token), s1))
    × (get_current_user settings libraries (at 6000) access_token s1 ≡ (ok (user 1 "a@b.kr"), s1))
refresh-login_example =
    refresh-login settings libraries lawful refl (at 10) (at 5000) (at 6000) "a@b.kr" "secret12"
      (user 1 "a@b.kr") server finds_address refl finds_ann (omega arith) (omega arith)
      (omega arith)

abbrev subject : Option Claims → Option String
subject none = none
subject (some c) = c.sub

tokens_differ :
    create_refresh_token settings libraries (at 10) (some (str 1))
    ≢ create_refresh_token settings libraries (at 10) (some (str 2))
unfolding create_refresh_token
tokens_differ e =
    let read1 =
      lawful.decode-encode 10 (refresh_claims settings libraries (at 10) (some (str 1))).exp (str 1)
        "b" (unfold refresh_claims in omega arith) in
    let read2 =
      lawful.decode-encode 10 (refresh_claims settings libraries (at 10) (some (str 2))).exp (str 2)
        "b" (unfold refresh_claims in omega arith) in
    let subjects : some (str 1) ≡ some (str 2) =
      unfold refresh_claims in
      ap subject (sym read1 ∙ ap (λ t. libraries.decode 10 t "b" ("HS256" ∷ [])) e ∙ read2) in
    absurd (omega (arith, str-injective 1 2 (cc subjects)))

refresh-logout_example :
    let token = create_refresh_token settings libraries (at 10) (some (str 1)) in
    let token2 = create_refresh_token settings libraries (at 10) (some (str 2)) in
    let s1 = (logout_user settings libraries (at 20) token server).1 in
    (refresh_access_token settings libraries (at 30) token s1
      ≡ (err (http 401 "Mismatch Refresh Token"), s1))
    × ((refresh_access_token settings libraries (at 30) token2 s1).0
        ≡ (refresh_access_token settings libraries (at 30) token2 server).0)
refresh-logout_example =
    refresh-logout settings libraries lawful refl (at 10) (at 20) (at 30) 1 2 server (omega arith)
      tokens_differ

register_user-signs_in_example :
    let u = new_user libraries (at 10) request 3 in
    let access_token = create_access_token settings libraries (at 10) (some (str 3)) in
    let refresh_token = create_refresh_token settings libraries (at 10) (some (str 3)) in
    let (answer, s1) = register_user settings libraries (at 10) request server in
    (answer ≡ ok (access_token, refresh_token, u))
    × (get_current_user settings libraries (at 20) access_token s1 ≡ (ok u, s1))
    × (refresh_access_token settings libraries (at 20) refresh_token s1
        ≡ (err (http 401 "Mismatch Refresh Token"), s1))
unfolding nalang_project.Redis.get
register_user-signs_in_example =
    register_user-signs_in settings libraries lawful refl (at 10) (at 20) request server consistent
      no_address (omega arith) (omega arith) refl

abbrev pair : String → Json → Json
pair key v = Json.obj (Json.field key v Json.end)

-- Naver reports one user, whatever the code.
abbrev naver : Client
naver = record {
  post =
      λ url form. ok (record { status_code = 200; json = ok (pair "access_token" (Json.str "T")) });
  fetch = λ url token. ok (record {
    status_code = 200;
    json = ok (
        pair "response" (
          Json.obj (
            Json.field "email" (Json.str "c@b.kr") (
              Json.field "name" (Json.str "Cho")
                (Json.field "profile_image" Json.null Json.end)))));
  });
}

abbrev reported : Profile
reported = record { email = Json.str "c@b.kr"; name = Json.str "Cho"; image = Json.null }

abbrev wanted : RegisterRequest
wanted = record {
  email = "c@b.kr";
  name = "Cho";
  password = none;
  provider = some "naver";
  profile_image = none;
}

reports : (code : Option String) → naver_profile settings libraries naver code ≡ ok reported
unfolding naver_profile Json.index
reports code = refl

requests : to_request libraries "naver" reported ≡ ok wanted
unfolding to_request validate
requests = refl

handle_naver_callback-account_example :
    let u = new_user libraries (at 10) wanted 3 in
    let (answer1, s1) = handle_naver_callback settings libraries naver (at 10) (some "a") server in
    let (answer2, s2) = handle_naver_callback settings libraries naver (at 99) (some "b") s1 in
    (answer1 ≡ ok (redirect settings libraries (tokens_of settings libraries (at 10) u)))
    × (find_by_email "c@b.kr" s1.db.users ≡ some u)
    × (answer2 ≡ ok (redirect settings libraries (tokens_of settings libraries (at 99) u)))
    × (s2.db ≡ s1.db)
handle_naver_callback-account_example =
    handle_naver_callback-account settings libraries naver (at 10) (at 99) (some "a") (some "b")
      "c@b.kr" (Json.str "Cho") Json.null wanted server (reports (some "a")) (reports (some "b"))
      requests refl no_address

validate_iff_example : (validate libraries request ≡ ok request) ↔ Accepts libraries request request
validate_iff_example = validate_iff libraries request request
