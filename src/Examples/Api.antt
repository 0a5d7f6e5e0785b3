-- ===== src/Examples/Api.antt =====
-- The theorems on accounts, tokens, slugs and roles, at concrete inputs. The libraries
-- are stood in for by functions that are good enough for the laws, and by nothing secure.
use job_schedular.Prelude.{
  ◌+◌, String, true, false, ◌&&◌, ◌||◌, none, some, [], ◌∷◌, ◌≡◌, refl, arith, if◌then◌else◌, leb,
  ◌==◌, str_eq, str_eq_refl, Bool-cases, inl, inr, find_where, any_where, update_where,
}
use Prim.Native.Char.{code}
use Prim.Native.String.{◌++◌ as append}
use job_schedular.Model.{User, UserRole, Organization, Db, empty_db}
use job_schedular.Services.Access.{ok, err, forbidden, unauthorized}
use job_schedular.Services.Slugs.{CharTables, slugify}
use job_schedular.Services.Slugs.Shape.{IsSlug, KnowsLetters, slugify-IsSlug}
use job_schedular.Services.Tokens.{
  Crypto, Lawful, Settings, Claims, payload_of, create_access_token, create_refresh_token,
}
use job_schedular.Services.Accounts.{
  Fresh, SignupRequest, TokenResponse, signup, login, refresh_token, user_by_id, user_response,
  token_response, account_rows,
}
use job_schedular.Api.Guards.{get_current_user}
use job_schedular.Api.Guards.Tokens.{tokens_keep_apart, registered_account_logs_in}
use job_schedular.Api.Routes.{Host}
use job_schedular.Api.Roles.{serve, needs_admin, pause_queue, cancel_job}
use job_schedular.Api.Roles.Refusals.{suffices, serve-suffices, small_role_refused}
use job_schedular.Examples.Listings.{figures}
use job_schedular.Examples.Data.{alice, mail, queued, with_jobs}

abbrev pub Token : Type 0
Token = Claims × String

abbrev crypto : Crypto Token
crypto = record {
  hashpw = λ password salt. append "hash of " password;
  checkpw = λ password hash. str_eq (append "hash of " password) hash;
  encode = λ c key. (c, key);
  decode = λ token key now.
      if str_eq token.1 key && leb now token.0.expires then some (payload_of token.0) else none;
}

crypto-Lawful : Lawful crypto
crypto-Lawful = record {
  check_hash = λ password salt. str_eq_refl (append "hash of " password);
  decode_cases = λ c key now. rw (str_eq_refl key) (elim (Bool-cases (leb now c.expires)) [
    | inl early ↦ rw early (inl refl)
    | inr late ↦ rw late (inr refl)
  ]);
  decode_encode = λ c key now h.
      let early : leb now c.expires ≡ true = ground arith in rw (str_eq_refl key, early) refl;
  decode_expired = λ c key now h.
      let late : leb now c.expires ≡ false = ground arith in rw (str_eq_refl key, late) refl;
}

abbrev settings : Settings
settings = record {
  secret_key = "secret";
  access_token_expire_minutes = 60;
  refresh_token_expire_days = 7;
}

abbrev tables : CharTables
tables = record {
  lower = λ s. s;
  is_word = λ c. leb 97 (code c) && leb (code c) 122 || code c == 95;
  is_space = λ c. code c == 32;
}

tables-KnowsLetters : KnowsLetters tables
tables-KnowsLetters c h k = (ground arith, ground arith)

abbrev pub host : Host Token
host = record {
  crypto = crypto;
  settings = settings;
  tables = tables;
  figures = figures;
  sha256 = λ s. s;
  next_fire = λ e t. t + 60;
}

-- where Alice is the only user
abbrev alone : Db
alone = record empty_db { users = alice ∷ [] }

slug_test : slugify tables "  -ab  _c! -" ≡ "ab-c"
unfolding slugify
slug_test = refl

slugify-IsSlug_example : IsSlug tables (slugify tables "ab  c")
slugify-IsSlug_example = slugify-IsSlug tables tables-KnowsLetters "ab  c"

tokens_keep_apart_example :
    (get_current_user crypto settings (some (create_refresh_token crypto settings 1 none 0)) 5 alone
      ≡ err unauthorized)
    × (refresh_token crypto settings (create_access_token crypto settings 1 none 0) 5 alone
        ≡ err unauthorized)
tokens_keep_apart_example = tokens_keep_apart crypto crypto-Lawful settings 1 none 0 5 alone

abbrev request : SignupRequest
request = record {
  email = "bob@acme.example";
  password = "builder";
  full_name = "Bob";
  organization_name = "bob and co";
}

abbrev fresh : Fresh
fresh = record {
  org_id = 12;
  user_id = 3;
  project_id = 21;
  queue_id = 33;
  policy_id = 34;
  hex6 = "0a1b2c";
  hex4 = "0d4e";
  salt = "";
}

abbrev bobs : Organization
bobs = record { id = 12; name = "bob and co"; slug = "bob-and-co-0a1b2c"; created_at = 7 }

abbrev bob : User
bob = record {
  id = 3;
  org_id = 12;
  email = "bob@acme.example";
  hashed_password = "hash of builder";
  full_name = "Bob";
  role = UserRole.admin;
  created_at = 7;
}

-- before and after Bob's registration
abbrev registered : Db
registered = account_rows bobs bob fresh 7 alone

abbrev response : TokenResponse Token
response = token_response crypto settings bob bobs 7

signup_test : signup crypto settings tables request fresh 7 alone alone ≡ ok (response, registered)
unfolding signup find_where any_where
signup_test = refl

new_user : user_by_id 3 alone ≡ none
unfolding user_by_id find_where
new_user = refl

new_org_id : find_where (λ o. o.id == 12) alone.organizations ≡ none
unfolding find_where
new_org_id = refl

registered_account_logs_in_example :
    (user : User) × (s : TokenResponse Token) × (user.id ≡ 3)
    × (user.email ≡ "bob@acme.example")
    × (response.user ≡ user_response user)
    × (s.user ≡ user_response user)
    × (login crypto settings
          (record { email = "bob@acme.example"; password = "builder" })
          9
          registered
        ≡ ok s)
    × (get_current_user crypto settings (some s.access_token) 10 registered ≡ ok user)
registered_account_logs_in_example =
    registered_account_logs_in crypto crypto-Lawful settings tables request fresh 7 alone alone
      registered response 9 10 signup_test new_user new_org_id (omega arith)

-- Alice, who administers, and Victor, who only looks
abbrev victor : User
victor = record alice { id = 4; email = "victor@acme.example"; role = UserRole.viewer }

abbrev pub office : Db
office = record (with_jobs (queued 1 10 ∷ [])) { users = alice ∷ victor ∷ [] }

abbrev pub badge : User → Token
badge user = create_access_token crypto settings user.id none 0

abbrev paused_office : Db
paused_office = record office { queues = record mail { is_paused = true } ∷ [] }

alice_pauses : serve host (some (badge alice)) 5 (pause_queue 30) office office ≡ ok paused_office
unfolding serve create_access_token find_where any_where update_where
alice_pauses = refl

serve-suffices_example :
    (user : User) × (get_current_user crypto settings (some (badge alice)) 5 office ≡ ok user)
    × (suffices (needs_admin (pause_queue 30)) user ≡ true)
serve-suffices_example =
    serve-suffices host (some (badge alice)) 5 (pause_queue 30) office office paused_office
      alice_pauses

victor_asks : get_current_user crypto settings (some (badge victor)) 5 office ≡ ok victor
unfolding get_current_user create_access_token find_where
victor_asks = refl

small_role_refused_example :
    serve host (some (badge victor)) 5 (cancel_job 1) office office ≡ err forbidden
small_role_refused_example =
    small_role_refused host (some (badge victor)) 5 (cancel_job 1) office office victor victor_asks
      (inr refl)
