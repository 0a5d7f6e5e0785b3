-- ===== src/Services/Accounts/Login.antt =====
-- A registered account: the rows that a registration leaves, and the login that finds them.
use job_schedular.Prelude.{
  ◌≡◌, refl, true, false, some, none, Bool-cases, inl, inr, ==-refl, str_eq, str_eq_refl, ◌==◌,
  find_where, any_where, find_where-insert, find_where-absent, String, Option,
}
use job_schedular.Model.{Time, Organization, User, Db}
use Prim.Native.String.{◌++◌ as append}
use job_schedular.Services.Slugs.{CharTables, slugify}
use job_schedular.Services.Access.{ok, err, bad_request, ◌>>=◌}
use job_schedular.Services.Access.Returns.{Returns, Returns-bind}
use job_schedular.Services.Tokens.{Crypto, Settings}
use job_schedular.Services.Accounts.{
  Fresh, SignupRequest, TokenResponse, new_org, new_admin, signup, insert_account, account_rows,
  user_with_email, user_by_id, login, token_response,
}

-- The user and the organisation are there, and are found under their keys.
abbrev pub HasAccount : Organization → User → Db → Type 0
HasAccount org user db =
    (user_with_email user.email db ≡ some user)
    × (user_by_id user.id db ≡ some user)
    × (find_where (λ o. o.id == org.id) db.organizations ≡ some org)

module _ (org : Organization) (user : User) (fresh : Fresh) (now : Time) (mid : Db) where
  -- What the rows have that are written when the address is new.
  pub Returns-insert_account :
      (Q : Db → Type 0)
      → (any_where (λ u. str_eq u.email user.email) mid.users ≡ false
          → Q (account_rows org user fresh now mid))
      → Returns Q (insert_account org user fresh now mid)
  unfolding insert_account
  Returns-insert_account Q h =
      elim (Bool-cases (any_where (λ o. str_eq o.slug org.slug) mid.organizations)) [
        | inl taken ↦ rw taken tt
        | inr free ↦
            rw free (elim (Bool-cases (any_where (λ u. str_eq u.email user.email) mid.users)) [
              | inl taken ↦ rw taken tt
              | inr new ↦ rw new (h new)
            ])
      ]

  pub account_rows-HasAccount :
      user_by_id user.id mid ≡ none
      → find_where (λ o. o.id == org.id) mid.organizations ≡ none
      → any_where (λ u. str_eq u.email user.email) mid.users ≡ false
      → HasAccount org user (account_rows org user fresh now mid)
  unfolding account_rows user_by_id user_with_email
  account_rows-HasAccount new_id new_org_id new = (
    find_where-insert _ mid.users user (find_where-absent _ mid.users new) (str_eq_refl user.email),
    find_where-insert _ mid.users user new_id (==-refl user.id),
    find_where-insert _ mid.organizations org new_org_id (==-refl org.id),
  )

module _ {Token : Type 0} (crypto : Crypto Token) (settings : Settings) where
  -- A registration that succeeds returns what `Q` holds of.
  pub Returns-signup :
      (tables : CharTables) (req : SignupRequest) (fresh : Fresh) (now : Time) (db mid : Db)
      (Q : TokenResponse Token × Db → Type 0)
      → ((slug : String)
          → let org = new_org req slug fresh now in
            let user = new_admin req (crypto.hashpw req.password fresh.salt) fresh now in
            Returns
              (λ after. Q (token_response crypto settings user org now, after))
              (insert_account org user fresh now mid))
      → Returns Q (signup crypto settings tables req fresh now db mid)
  unfolding signup
  Returns-signup tables req fresh now db mid Q h = taken (user_with_email req.email db)
    where
      slug : String
      slug = append (slugify tables req.organization_name) (append "-" fresh.hex6)

      org : Organization
      org = new_org req slug fresh now

      user : User
      user = new_admin req (crypto.hashpw req.password fresh.salt) fresh now

      taken :
          (found : Option User)
          → Returns Q (elim found [
            | some existing ↦ err bad_request
            | none ↦ do
              after ← insert_account org user fresh now mid
              ok (token_response crypto settings user org now, after)
          ])
      taken (some existing) = tt
      taken none =
          Returns-bind (λ after. Q (token_response crypto settings user org now, after)) Q
            (insert_account org user fresh now mid) _ (h slug) (λ after q. q)

  pub login-HasAccount :
      (org : Organization) (user : User) (password : String) (now : Time) (db : Db)
      → HasAccount org user db
      → user.org_id ≡ org.id
      → crypto.checkpw password user.hashed_password ≡ true
      → login crypto settings (record { email = user.email; password = password }) now db
        ≡ ok (token_response crypto settings user org now)
  unfolding login
  login-HasAccount org user password now db account same_org passes =
      rw (account.0, passes, same_org, account.2) refl
