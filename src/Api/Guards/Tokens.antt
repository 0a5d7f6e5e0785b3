-- ===== src/Api/Guards/Tokens.antt =====
-- Tokens, from the login that issues them to the guards that read them.
use job_schedular.Prelude.{
  ◌≡◌, refl, ap, subst, ◌≤◌, ◌+◌, ◌*◌, true, false, ◌==◌, Option, some, none, inl, inr, String,
  find_where, ◌⊎◌, opt_str_is,
}
use job_schedular.Model.{Uuid, Time, seconds, User, Organization, Db}
use job_schedular.Services.Access.{ok, err, unauthorized, not_found, or_error}
use job_schedular.Services.Access.Returns.{Returns, Returns-ok}
use job_schedular.Services.Slugs.{CharTables}
use job_schedular.Services.Tokens.{
  Crypto, Lawful, Settings, Payload, payload_of, typed_payload, create_access_token,
  create_refresh_token, decode_token, access_claims, refresh_claims,
}
use job_schedular.Services.Accounts.{
  Fresh, SignupRequest, TokenResponse, refresh_token, user_by_id, user_response, token_response,
  new_org, new_admin, signup, login, insert_account,
}
use job_schedular.Services.Accounts.Login.{
  HasAccount, account_rows-HasAccount, Returns-insert_account, Returns-signup, login-HasAccount,
}
use job_schedular.Api.Guards.{get_current_user}

other_type :
    (found : Option Payload) (p : Payload) (kind : String)
    → (found ≡ some p) ⊎ (found ≡ none)
    → opt_str_is p.token_type kind ≡ false
    → typed_payload found kind ≡ err unauthorized
unfolding typed_payload
other_type found p kind (inl e) other = rw (e, other) refl
other_type found p kind (inr e) other = rw e refl

module _ {Token : Type 0} (crypto : Crypto Token) (lawful : Lawful crypto)
    (settings : Settings) where
  -- At no time is a refresh token accepted where an access token is asked for, nor an access token
  -- where a refresh token is: both are answered as unauthorized.
  pub tokens_keep_apart :
      (id : Uuid) (delta : Option Time) (issued now : Time) (db : Db)
      → (get_current_user crypto settings
            (some (create_refresh_token crypto settings id delta issued))
            now
            db
          ≡ err unauthorized)
        × (refresh_token crypto settings
              (create_access_token crypto settings id delta issued)
              now
              db
            ≡ err unauthorized)
  unfolding get_current_user refresh_token create_access_token create_refresh_token decode_token
  tokens_keep_apart id delta issued now db =
      let key = settings.secret_key in
      let access = access_claims settings id delta issued in
      let refresh = refresh_claims settings id delta issued in
      (
        rw (other_type _ (payload_of refresh) "access" (lawful.decode_cases refresh key now) refl)
            refl,
        rw (other_type _ (payload_of access) "refresh" (lawful.decode_cases access key now) refl)
            refl,
      )

  access_token_lem :
      (user : User) (issued now : Time) (db : Db)
      → user_by_id user.id db ≡ some user
      → now ≤ issued + seconds (60 * settings.access_token_expire_minutes)
      → get_current_user crypto settings
          (some (create_access_token crypto settings user.id none issued))
          now
          db
        ≡ ok user
  unfolding get_current_user create_access_token decode_token typed_payload
  access_token_lem user issued now db found fresh =
      rw
        (lawful.decode_encode (access_claims settings user.id none issued) settings.secret_key now
          fresh)
        (ap (λ o. or_error o not_found) found)

  -- the account of a registration, at the login and at the guards
  abbrev OpensAccount : SignupRequest → Fresh → Time → Time → TokenResponse Token × Db → Type 0
  OpensAccount req fresh later t (r, db) =
      (user : User) × (s : TokenResponse Token) × (user.id ≡ fresh.user_id)
      × (user.email ≡ req.email)
      × (r.user ≡ user_response user)
      × (s.user ≡ user_response user)
      × (login crypto settings (record { email = req.email; password = req.password }) later db
          ≡ ok s)
      × (get_current_user crypto settings (some s.access_token) t db ≡ ok user)

  account_opens :
      (org : Organization) (user : User) (req : SignupRequest) (fresh : Fresh) (now later t : Time)
      (db : Db)
      → user.id ≡ fresh.user_id
      → user.email ≡ req.email
      → user.org_id ≡ org.id
      → HasAccount org user db
      → crypto.checkpw req.password user.hashed_password ≡ true
      → t ≤ later + seconds (60 * settings.access_token_expire_minutes)
      → OpensAccount req fresh later t (token_response crypto settings user org now, db)
  unfolding token_response
  account_opens org user req fresh now later t db same_id same_email same_org account passes
        unexpired =
      let logged_in =
        login-HasAccount crypto settings org user req.password later db account same_org passes in
      (
        user,
        token_response crypto settings user org later,
        same_id,
        same_email,
        refl,
        refl,
        subst
            (λ m.
              login crypto settings (record { email = m; password = req.password }) later db
              ≡ ok (token_response crypto settings user org later))
            same_email logged_in,
        access_token_lem user later t db account.1 unexpired,
      )

  -- Let a registration succeed whose new keys no user and no organisation has. On the database that
  -- it leaves, at any time, the same address and password log in, and until the token that this
  -- gives expires it authenticates its bearer there as the user that was registered.
  pub registered_account_logs_in :
      (tables : CharTables) (req : SignupRequest) (fresh : Fresh) (now : Time) (db mid after : Db)
      (r : TokenResponse Token) (later t : Time)
      → signup crypto settings tables req fresh now db mid ≡ ok (r, after)
      → user_by_id fresh.user_id mid ≡ none
      → find_where (λ o. o.id == fresh.org_id) mid.organizations ≡ none
      → t ≤ later + seconds (60 * settings.access_token_expire_minutes)
      → (user : User) × (s : TokenResponse Token) × (user.id ≡ fresh.user_id)
        × (user.email ≡ req.email)
        × (r.user ≡ user_response user)
        × (s.user ≡ user_response user)
        × (login crypto settings (record { email = req.email; password = req.password }) later after
            ≡ ok s)
        × (get_current_user crypto settings (some s.access_token) t after ≡ ok user)
  unfolding new_admin new_org
  registered_account_logs_in tables req fresh now db mid after r later t e new_id new_org_id
        unexpired =
      Returns-ok (OpensAccount req fresh later t) _ (r, after) e
        (Returns-signup crypto settings tables req fresh now db mid (OpensAccount req fresh later t)
          opens)
    where
      opens :
          (slug : String)
          → let org = new_org req slug fresh now in
            let user = new_admin req (crypto.hashpw req.password fresh.salt) fresh now in
            Returns
              (λ after'.
                OpensAccount req fresh later t
                  (token_response crypto settings user org now, after'))
              (insert_account org user fresh now mid)
      opens slug =
          let org = new_org req slug fresh now in
          let user = new_admin req (crypto.hashpw req.password fresh.salt) fresh now in
          Returns-insert_account org user fresh now mid _ (λ new.
            account_opens org user req fresh now later t _ refl refl refl
              (account_rows-HasAccount org user fresh now mid new_id new_org_id new)
              (lawful.check_hash req.password fresh.salt) unexpired)
