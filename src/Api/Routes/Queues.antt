-- ===== src/Api/Routes/Queues.antt =====
-- backend/app/api/v1/queues.py.
use job_schedular.Prelude.{true, false, Option}
use job_schedular.Model.{Uuid, Time, Db, Queue}
use job_schedular.Services.Queues.{QueueUpdate, update_queue, pause_queue, delete_queue}
use job_schedular.Services.Queues.Stats.{QueueStats, get_queue_stats}
use job_schedular.Services.Access.{Result, ok, ◌>>=◌, get_queue}
use job_schedular.Api.Routes.{Host}
use job_schedular.Api.Guards.{get_current_user, require_admin}

module _ {Token : Type 0} (host : Host Token) (credentials : Option Token) (now : Time) where
  unfoldable pub get_queue_route : Uuid → Db → Result (Queue × QueueStats)
  unfolding get_current_user get_queue get_queue_stats
  get_queue_route id db = do
    user ← get_current_user host.crypto host.settings credentials now db
    q ← get_queue db user id
    ok (q, get_queue_stats host.figures id q.concurrency_limit now db)

  unfoldable pub update_queue_route : Uuid → QueueUpdate → Uuid → Db → Result Db
  unfolding require_admin update_queue
  update_queue_route id req policy_id db = do
    user ← require_admin host.crypto host.settings credentials now db
    update_queue user id req policy_id db

  unfoldable pub pause_queue_route : Uuid → Db → Result Db
  unfolding require_admin pause_queue
  pause_queue_route id db = do
    user ← require_admin host.crypto host.settings credentials now db
    pause_queue user id true db

  unfoldable pub resume_queue_route : Uuid → Db → Result Db
  unfolding require_admin pause_queue
  resume_queue_route id db = do
    user ← require_admin host.crypto host.settings credentials now db
    pause_queue user id false db

  unfoldable pub delete_queue_route : Uuid → Db → Result Db
  unfolding require_admin delete_queue
  delete_queue_route id db = do
    user ← require_admin host.crypto host.settings credentials now db
    delete_queue user id db
