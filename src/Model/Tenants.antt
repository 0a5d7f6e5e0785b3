-- ===== src/Model/Tenants.antt =====
-- The rows of organisations, their users, projects and API keys
-- (backend/app/models/organization.py and project.py).
use job_schedular.Prelude.{String, Option}
use job_schedular.Model.Enums.{UserRole}
use job_schedular.Model.Values.{Uuid, Time}

pub record User : Type 0 where
  pub id : Uuid
  pub org_id : Uuid
  pub email : String
  pub hashed_password : String
  pub full_name : String
  pub role : UserRole
  pub created_at : Time

pub record Organization : Type 0 where
  pub id : Uuid
  pub name : String
  pub slug : String
  pub created_at : Time

pub record Project : Type 0 where
  pub id : Uuid
  pub org_id : Uuid
  pub name : String
  pub slug : String
  pub description : Option String
  pub created_at : Time

pub record ProjectApiKey : Type 0 where
  pub id : Uuid
  pub project_id : Uuid
  pub key_hash : String
  pub name : String
  pub prefix : String
  pub expires_at : Option Time
  pub created_at : Time
