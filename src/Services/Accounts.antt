-- ===== src/Services/Accounts.antt =====
-- backend/app/services/auth_service.py: registration, login, and the refreshing of tokens.
pub mod Login
use job_schedular.Prelude.{
  ℕ, zero, suc, ◌+◌, ◌*◌, ◌≤◌, String, Bool, true, false, not, ◌&&◌, ◌||◌, Option, none, some, List,
  [], ◌∷◌, ◌++◌, ◌==◌, ◌≡◌, ◌⊎◌, str_eq, opt_str_is, any_where, find_where,
}
use Prim.Native.String.{◌++◌ as append}
use job_schedular.Model.{
  Uuid, Time, seconds, User, UserRole, Organization, Project, Queue, RetryPolicy, Db,
}
use job_schedular.Services.Access.{
  Result, ok, err, bad_request, unauthorized, not_found, server_error, ◌>>=◌, ◌>>◌, raise_unless,
  or_error,
}
use job_schedular.Services.Queues.{new_policy}
use job_schedular.Services.Slugs.{CharTables, slugify}
use job_schedular.Services.Tokens.{
  Crypto, Settings, typed_payload, subject_uuid, create_access_token, create_refresh_token,
  decode_token,
}

-- schemas/auth.py
pub record SignupRequest : Type 0 where
  pub email : String
  pub password : String
  pub full_name : String
  pub organization_name : String

pub record LoginRequest : Type 0 where
  pub email : String
  pub password : String

-- schemas/user.py
pub record UserResponse : Type 0 where
  pub id : Uuid
  pub org_id : Uuid
  pub email : String
  pub full_name : String
  pub role : UserRole
  pub created_at : Time

pub record TokenResponse (Token : Type 0) : Type 0 where
  pub access_token : Token
  pub refresh_token : Token
  pub token_type : String
  pub user : UserResponse
  pub organization : Organization

-- what a registration draws at random
pub record Fresh : Type 0 where
  pub org_id : Uuid
  pub user_id : Uuid
  pub project_id : Uuid
  pub queue_id : Uuid
  pub policy_id : Uuid
  pub hex6 : String
  pub hex4 : String
  pub salt : String

unfoldable pub user_response : User → UserResponse
user_response u = record {
  id = u.id;
  org_id = u.org_id;
  email = u.email;
  full_name = u.full_name;
  role = u.role;
  created_at = u.created_at;
}

-- select(Organization).where(…).scalar_one(), which raises where there is none
abbrev pub organization_of : User → Db → Result Organization
organization_of u db = or_error (find_where (λ o. o.id == u.org_id) db.organizations) server_error

unfoldable pub user_with_email : String → Db → Option User
user_with_email email db = find_where (λ u. str_eq u.email email) db.users

unfoldable pub user_by_id : Uuid → Db → Option User
user_by_id id db = find_where (λ u. u.id == id) db.users

unfoldable pub new_org : SignupRequest → String → Fresh → Time → Organization
new_org req slug fresh now = record {
  id = fresh.org_id;
  name = req.organization_name;
  slug = slug;
  created_at = now;
}

unfoldable pub new_admin : SignupRequest → String → Fresh → Time → User
new_admin req hash fresh now = record {
  id = fresh.user_id;
  org_id = fresh.org_id;
  email = req.email;
  hashed_password = hash;
  full_name = req.full_name;
  role = UserRole.admin;
  created_at = now;
}

unfoldable pub default_project : Fresh → Time → Project
default_project fresh now = record {
  id = fresh.project_id;
  org_id = fresh.org_id;
  name = "Default Project";
  slug = append "default-" fresh.hex4;
  description = some "Default project for asynchronous jobs";
  created_at = now;
}

unfoldable pub default_queue : Fresh → Time → Queue
default_queue fresh now = record {
  id = fresh.queue_id;
  project_id = fresh.project_id;
  name = "default";
  priority = 10;
  concurrency_limit = 10;
  rate_limit_rps = none;
  is_paused = false;
  created_at = now;
}

unfoldable pub account_rows : Organization → User → Fresh → Time → Db → Db
unfolding default_project default_queue new_policy
account_rows org user fresh now db = record db {
  organizations = db.organizations ++ org ∷ [];
  users = db.users ++ user ∷ [];
  projects = db.projects ++ default_project fresh now ∷ [];
  queues = db.queues ++ default_queue fresh now ∷ [];
  policies = db.policies ++ new_policy fresh.policy_id fresh.queue_id none ∷ [];
}

-- The rows of a registration, against the unique columns users.email and organizations.slug.
unfoldable pub insert_account : Organization → User → Fresh → Time → Db → Result Db
unfolding account_rows
insert_account org user fresh now db = do
  raise_unless (not (any_where (λ o. str_eq o.slug org.slug) db.organizations)) server_error
  raise_unless (not (any_where (λ u. str_eq u.email user.email) db.users)) server_error
  ok (account_rows org user fresh now db)

module _ {Token : Type 0} (crypto : Crypto Token) (settings : Settings) where
  unfoldable pub token_response : User → Organization → Time → TokenResponse Token
  unfolding create_access_token create_refresh_token user_response
  token_response user org now = record {
    access_token = create_access_token crypto settings user.id none now;
    refresh_token = create_refresh_token crypto settings user.id none now;
    token_type = "bearer";
    user = user_response user;
    organization = org;
  }

  -- `db` is what the test of the address reads, and `mid` what the rows are written to
  unfoldable pub signup :
      CharTables → SignupRequest → Fresh → Time → Db → Db → Result (TokenResponse Token × Db)
  unfolding slugify user_with_email new_org new_admin insert_account token_response
  signup tables req fresh now db mid = elim (user_with_email req.email db) [
    | some existing ↦ err bad_request
    | none ↦
        let slug = append (slugify tables req.organization_name) (append "-" fresh.hex6) in
        let org = new_org req slug fresh now in
        let user = new_admin req (crypto.hashpw req.password fresh.salt) fresh now in
        do db' ← insert_account org user fresh now mid; ok (token_response user org now, db')
  ]

  unfoldable pub login : LoginRequest → Time → Db → Result (TokenResponse Token)
  unfolding user_with_email token_response
  login req now db = do
    user ← or_error (user_with_email req.email db) unauthorized
    raise_unless (crypto.checkpw req.password user.hashed_password) unauthorized
    org ← organization_of user db
    ok (token_response user org now)

  unfoldable pub refresh_token : Token → Time → Db → Result (TokenResponse Token)
  unfolding decode_token typed_payload user_by_id token_response
  refresh_token token now db = do
    payload ← typed_payload (decode_token crypto settings token now) "refresh"
    id ← subject_uuid payload.subject
    user ← or_error (user_by_id id db) not_found
    org ← organization_of user db
    ok (token_response user org now)
