-- ===== src/Migrations/Tables/Tenants.antt =====
-- alembic/versions: the tables of organisations, users, projects and API keys.
use job_schedular.Prelude.{[], ◌∷◌}
use job_schedular.Migrations.Schema.{
  Table, EnumType, cascade, uuid, timestamp, string, enum, required, optional, unnamed_reference,
}

abbrev pub userrole_type : EnumType
userrole_type = record { name = "userrole"; values = "admin" ∷ "member" ∷ "viewer" ∷ [] }

abbrev pub organizations_table : Table
organizations_table = record {
  name = "organizations";
  columns =
      required "id" uuid
      ∷ required "name" (string 255)
      ∷ required "slug" (string 100)
      ∷ required "created_at" timestamp
      ∷ required "updated_at" timestamp
      ∷ [];
  primary_key = "id" ∷ [];
  uniques = [];
  references = [];
  indexes = [];
}

abbrev pub projects_table : Table
projects_table = record {
  name = "projects";
  columns =
      required "id" uuid
      ∷ required "org_id" uuid
      ∷ required "name" (string 255)
      ∷ required "slug" (string 100)
      ∷ optional "description" (string 500)
      ∷ required "created_at" timestamp
      ∷ required "updated_at" timestamp
      ∷ [];
  primary_key = "id" ∷ [];
  uniques = ("org_id" ∷ "slug" ∷ []) ∷ [];
  references = unnamed_reference ("org_id" ∷ []) "organizations.id" cascade ∷ [];
  indexes = [];
}

abbrev pub users_table : Table
users_table = record {
  name = "users";
  columns =
      required "id" uuid
      ∷ required "org_id" uuid
      ∷ required "email" (string 255)
      ∷ required "hashed_password" (string 255)
      ∷ required "full_name" (string 255)
      ∷ required "role" (enum "userrole")
      ∷ required "created_at" timestamp
      ∷ required "updated_at" timestamp
      ∷ [];
  primary_key = "id" ∷ [];
  uniques = [];
  references = unnamed_reference ("org_id" ∷ []) "organizations.id" cascade ∷ [];
  indexes = [];
}

abbrev pub project_api_keys_table : Table
project_api_keys_table = record {
  name = "project_api_keys";
  columns =
      required "id" uuid
      ∷ required "project_id" uuid
      ∷ required "key_hash" (string 255)
      ∷ required "name" (string 100)
      ∷ required "prefix" (string 16)
      ∷ optional "expires_at" timestamp
      ∷ required "created_at" timestamp
      ∷ [];
  primary_key = "id" ∷ [];
  uniques = [];
  references = unnamed_reference ("project_id" ∷ []) "projects.id" cascade ∷ [];
  indexes = [];
}
