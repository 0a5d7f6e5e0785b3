-- ===== src/Services/Projects.antt =====
-- backend/app/services/project_service.py: projects and their API keys. A random text, and the
-- hexadecimal SHA-256 digest of `hashlib`, are parameters.
use job_schedular.Prelude.{
  ℕ, zero, suc, ◌+◌, ◌*◌, String, ◌&&◌, Option, none, some, List, [], ◌∷◌, ◌++◌, map, ◌==◌, leb,
  or_else, is_some, if◌then◌else◌, str_eq, not, any_where, select_where, find_where, update_where,
  count_where, sort_by,
}
use Prim.Native.String.{◌++◌ as append}
use job_schedular.Model.{Uuid, Time, seconds, User, Project, ProjectApiKey, Db}
use job_schedular.Services.Access.{
  Result, ok, not_found, server_error, ◌>>=◌, ◌>>◌, raise_unless, or_error,
}
use job_schedular.Services.Slugs.{CharTables, slugify}

-- schemas/project.py
pub record ProjectCreate : Type 0 where
  pub name : String
  pub description : Option String
  pub slug : Option String

pub record ProjectUpdate : Type 0 where
  pub name : Option String
  pub description : Option String

pub record ProjectApiKeyCreate : Type 0 where
  pub name : String
  pub expires_in_days : Option ℕ

unfoldable pub get_project : Db → User → Uuid → Result Project
get_project db user id =
    or_error (find_where (λ p. p.id == id && p.org_id == user.org_id) db.projects) not_found

-- the projects of the organisation, each with the number of its queues
unfoldable pub list_projects : Db → User → List (Project × ℕ)
list_projects db user =
    map (λ p. (p, count_where (λ q. q.project_id == p.id) db.queues))
      (sort_by (λ p q. leb q.created_at p.created_at)
        (select_where (λ p. p.org_id == user.org_id) db.projects))

-- `a or b` of an optional text and a text
abbrev pub or_text : Option String → String → String
or_text none b = b
or_text (some a) b = if str_eq a "" then b else a

-- INSERT INTO projects, with the constraint on (org_id, slug)
unfoldable pub insert_project : Project → Db → Result Db
insert_project p db = do
  raise_unless (not (any_where (λ r. r.org_id == p.org_id && str_eq r.slug p.slug) db.projects))
      server_error
  ok (record db { projects = db.projects ++ p ∷ [] })

unfoldable pub create_project :
    CharTables → User → ProjectCreate → Uuid → String → Time → Db → Result (Project × Db)
unfolding slugify insert_project
create_project tables user req id hex4 now db =
    let p : Project = record {
      id = id;
      org_id = user.org_id;
      name = req.name;
      slug = append (slugify tables (or_text req.slug req.name)) (append "-" hex4);
      description = req.description;
      created_at = now;
    } in
    do db' ← insert_project p db; ok (p, db')

unfoldable pub update_project_row : ProjectUpdate → Project → Project
update_project_row req p = record p {
  name = or_else req.name p.name;
  description = if is_some req.description then req.description else p.description;
}

unfoldable pub update_project : User → Uuid → ProjectUpdate → Db → Result Db
unfolding get_project update_project_row
update_project user project_id req db = do
  p ← get_project db user project_id
  ok (record db {
    projects = update_where (λ r. r.id == p.id) (update_project_row req) db.projects;
  })

-- text[:n]
abbrev pub first_chars : ℕ → String → String
first_chars zero s = ""
first_chars (suc n) String.[] = ""
first_chars (suc n) (String.◌∷◌ c s) = String.◌∷◌ c (first_chars n s)

-- if req.expires_in_days: now + timedelta(days=…)
abbrev pub key_expiry : Option ℕ → Time → Option Time
key_expiry none now = none
key_expiry (some zero) now = none
key_expiry (some (suc n)) now = some (now + seconds (86400 * suc n))

unfoldable pub raw_key : Project → String → String
raw_key p token = append "cjs_live_" (append (first_chars 8 p.slug) (append "_" token))

-- the new row, with the key that is shown this once
unfoldable pub create_api_key :
    (String → String)
    → User
    → Uuid
    → ProjectApiKeyCreate
    → Uuid
    → String
    → Time
    → Db
    → Result ((ProjectApiKey × String) × Db)
unfolding get_project raw_key
create_api_key sha256 user project_id req id token now db = do
  p ← get_project db user project_id
  let key : ProjectApiKey = record {
    id = id;
    project_id = p.id;
    key_hash = sha256 (raw_key p token);
    name = req.name;
    prefix = append "cjs_live_" (append (first_chars 4 p.slug) "...");
    expires_at = key_expiry req.expires_in_days now;
    created_at = now;
  }
  raise_unless (not (any_where (λ k. str_eq k.key_hash key.key_hash) db.api_keys)) server_error
  ok ((key, raw_key p token), record db { api_keys = db.api_keys ++ key ∷ [] })

unfoldable pub list_api_keys : Db → User → Uuid → Result (List ProjectApiKey)
unfolding get_project
list_api_keys db user project_id = do
  p ← get_project db user project_id
  ok (
      sort_by (λ k l. leb l.created_at k.created_at)
        (select_where (λ k. k.project_id == p.id) db.api_keys))
