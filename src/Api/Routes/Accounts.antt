-- ===== src/Api/Routes/Accounts.antt =====
-- backend/app/api/v1/auth.py.
use job_schedular.Prelude.{Option}
use job_schedular.Model.{Time, Db, Organization}
use job_schedular.Services.Accounts.{
  SignupRequest, LoginRequest, Fresh, TokenResponse, UserResponse, signup, login, refresh_token,
  user_response, organization_of,
}
use job_schedular.Services.Access.{Result, ok, ◌>>=◌}
use job_schedular.Api.Routes.{Host}
use job_schedular.Api.Guards.{get_current_user}

module _ {Token : Type 0} (host : Host Token) (credentials : Option Token) (now : Time) where
  unfoldable pub signup_route : SignupRequest → Fresh → Db → Db → Result (TokenResponse Token × Db)
  unfolding signup
  signup_route req fresh db mid = signup host.crypto host.settings host.tables req fresh now db mid

  unfoldable pub login_route : LoginRequest → Db → Result (TokenResponse Token)
  unfolding login
  login_route req db = login host.crypto host.settings req now db

  unfoldable pub refresh_route : Token → Db → Result (TokenResponse Token)
  unfolding refresh_token
  refresh_route token db = refresh_token host.crypto host.settings token now db

  unfoldable pub me_route : Db → Result (UserResponse × Organization)
  unfolding get_current_user user_response
  me_route db = do
    user ← get_current_user host.crypto host.settings credentials now db
    org ← organization_of user db
    ok (user_response user, org)
