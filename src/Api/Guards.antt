-- ===== src/Api/Guards.antt =====
-- backend/app/api/deps.py: who asks, and whether the role suffices. The credentials are `none`
-- where the request has no bearer token or an empty one.
pub mod Tokens
use job_schedular.Prelude.{String, Bool, ◌||◌, Option, none, some, List, any_where}
use job_schedular.Model.{Time, User, UserRole, Db, is_role}
use job_schedular.Services.Access.{
  Result, ok, err, unauthorized, forbidden, not_found, ◌>>=◌, ◌>>◌, raise_unless, or_error,
}
use job_schedular.Services.Tokens.{Crypto, Settings, decode_token, typed_payload, subject_uuid}
use job_schedular.Services.Accounts.{user_by_id}

abbrev pub may_develop : User → Bool
may_develop user = is_role user.role UserRole.admin || is_role user.role UserRole.member

module _ {Token : Type 0} (crypto : Crypto Token) (settings : Settings) where
  unfoldable pub get_current_user : Option Token → Time → Db → Result User
  unfolding decode_token typed_payload user_by_id
  get_current_user credentials now db = do
    token ← or_error credentials unauthorized
    payload ← typed_payload (decode_token crypto settings token now) "access"
    id ← subject_uuid payload.subject
    or_error (user_by_id id db) not_found

  unfoldable pub require_admin : Option Token → Time → Db → Result User
  unfolding get_current_user
  require_admin credentials now db = do
    user ← get_current_user credentials now db
    raise_unless (is_role user.role UserRole.admin) forbidden
    ok user

  unfoldable pub require_developer_or_admin : Option Token → Time → Db → Result User
  unfolding get_current_user
  require_developer_or_admin credentials now db = do
    user ← get_current_user credentials now db
    raise_unless (may_develop user) forbidden
    ok user

  unfoldable pub require_roles : List UserRole → Option Token → Time → Db → Result User
  unfolding get_current_user
  require_roles allowed credentials now db = do
    user ← get_current_user credentials now db
    raise_unless (any_where (is_role user.role) allowed) forbidden
    ok user
