-- ===== src/Api/Routes/Projects.antt =====
-- backend/app/api/v1/projects.py.
use job_schedular.Prelude.{ℕ, String, Option, List, length}
use job_schedular.Model.{Uuid, Time, Db, Project, ProjectApiKey, Queue}
use job_schedular.Services.Projects.{
  ProjectCreate, ProjectUpdate, ProjectApiKeyCreate, list_projects, get_project, create_project,
  update_project, create_api_key, list_api_keys,
}
use job_schedular.Services.Queues.{QueueCreate, create_queue}
use job_schedular.Services.Queues.Stats.{QueueStats, list_queues}
use job_schedular.Services.Access.{Result, ok, ◌>>=◌}
use job_schedular.Api.Routes.{Host}
use job_schedular.Api.Guards.{get_current_user, require_admin}

module _ {Token : Type 0} (host : Host Token) (credentials : Option Token) (now : Time) where
  unfoldable pub list_projects_route : Db → Result (List (Project × ℕ))
  unfolding get_current_user list_projects
  list_projects_route db = do
    user ← get_current_user host.crypto host.settings credentials now db
    ok (list_projects db user)

  unfoldable pub create_project_route : ProjectCreate → Uuid → String → Db → Result (Project × Db)
  unfolding require_admin create_project
  create_project_route req id hex4 db = do
    user ← require_admin host.crypto host.settings credentials now db
    create_project host.tables user req id hex4 now db

  unfoldable pub get_project_route : Uuid → Db → Result (Project × ℕ)
  unfolding get_current_user get_project list_queues
  get_project_route id db = do
    user ← get_current_user host.crypto host.settings credentials now db
    p ← get_project db user id
    queues ← list_queues host.figures user id now db
    ok (p, length queues)

  unfoldable pub update_project_route : Uuid → ProjectUpdate → Db → Result Db
  unfolding require_admin update_project
  update_project_route id req db = do
    user ← require_admin host.crypto host.settings credentials now db
    update_project user id req db

  unfoldable pub create_api_key_route :
      Uuid → ProjectApiKeyCreate → Uuid → String → Db → Result ((ProjectApiKey × String) × Db)
  unfolding require_admin create_api_key
  create_api_key_route p req id token db = do
    user ← require_admin host.crypto host.settings credentials now db
    create_api_key host.sha256 user p req id token now db

  unfoldable pub list_api_keys_route : Uuid → Db → Result (List ProjectApiKey)
  unfolding get_current_user list_api_keys
  list_api_keys_route p db = do
    user ← get_current_user host.crypto host.settings credentials now db
    list_api_keys db user p

  unfoldable pub list_queues_route : Uuid → Db → Result (List (Queue × QueueStats))
  unfolding get_current_user list_queues
  list_queues_route p db = do
    user ← get_current_user host.crypto host.settings credentials now db
    list_queues host.figures user p now db

  unfoldable pub create_queue_route : Uuid → QueueCreate → Uuid → Uuid → Db → Result (Queue × Db)
  unfolding require_admin create_queue
  create_queue_route p req id policy_id db = do
    user ← require_admin host.crypto host.settings credentials now db
    create_queue user p req id policy_id now db
