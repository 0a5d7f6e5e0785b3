-- ===== src/Api/Roles/Isolation.antt =====
-- Each writing request leaves the jobs of the other organisations as they are.
use job_schedular.Prelude.{Option, List, ◌≡◌, select_where}
use job_schedular.Model.{Uuid, Time, User, Job, Db}
use job_schedular.Services.Access.{ok, ◌>>=◌, owns_queue}
use job_schedular.Services.Access.Returns.{Returns}
use job_schedular.Services.Isolation.{foreign, Spares}
use job_schedular.Services.Isolation.Writes.{IsSound}
use job_schedular.Services.Isolation.Users.{cut_off}
use job_schedular.Api.Guards.{get_current_user}
use job_schedular.Api.Routes.{Host}
use job_schedular.Api.Roles.{Write, delete_queue}

-- What a request leaves of the jobs of others, which are the second list.
abbrev pub severed : Write → Db → List Job → List Job
severed (delete_queue q) db others = cut_off q db others
severed w db others = others

module _ {Token : Type 0} (host : Host Token) (credentials : Option Token) (now : Time)
    (home : Uuid → Uuid) (user : User) (db : Db)
    (logged_in : get_current_user host.crypto host.settings credentials now db ≡ ok user)
    (sound : IsSound home db) where
  -- The jobs of others after the request, `jobs` before it.
  abbrev OthersAre : List Job → Db → Type 0
  OthersAre jobs after = select_where (foreign (owns_queue db user)) after.jobs ≡ jobs

  abbrev KeepsOthers : Db → Db → Type 0
  KeepsOthers d after = Spares (owns_queue db user) d.jobs after.jobs
