-- ===== src/App/Tests/Flow.antt =====
-- A registration and a log-in with libraries that keep the laws.
use nalang_project.Prelude.{◌≡◌, refl, none, some, [], arith}
use nalang_project.Text.{str}
use nalang_project.Raise.{ok}
use nalang_project.Auth.Login.{create_access_token, create_refresh_token}
use nalang_project.Auth.Tests.{
  libraries, settings, server, request, at, lawful, consistent, no_address,
}
use nalang_project.Auth.Accounts.{validate}
use nalang_project.Routes.Table
use nalang_project.App.{handle}
use nalang_project.App.Flow.{register-login-get_me}
use nalang_project.App.Tests.{services}

register-login-get_me_example :
    let access = create_access_token settings libraries (at 20) (some (str 3)) in
    let (_, s1) = handle settings libraries services (at 10) Table.register_user request server in
    let (tokens, s2) =
      handle settings libraries services
        (at 20)
        Table.login
        (record { username = "c@b.kr"; password = "secret34" })
        s1 in
    let (profile, s3) =
      handle settings libraries services
        (at 30)
        Table.get_me
        (record { token = access; input = none })
        s2 in
    (tokens
      ≡ ok (record {
        access_token = access;
        refresh_token = create_refresh_token settings libraries (at 20) (some (str 3));
        token_type = "bearer";
      }))
    × (profile
        ≡ ok (record {
          id = 3;
          name = "Cho";
          email = "c@b.kr";
          interests = [];
          languages = [];
          gender = none;
          image_path = none;
        }))
    × (s3 ≡ s2)
unfolding validate
register-login-get_me_example =
    register-login-get_me settings libraries services lawful refl (at 10) (at 20) (at 30) request
      request "secret34" none server refl consistent no_address refl (omega arith)
