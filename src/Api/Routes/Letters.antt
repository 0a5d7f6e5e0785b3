-- ===== src/Api/Routes/Letters.antt =====
-- backend/app/api/v1/dlq.py.
use job_schedular.Prelude.{ℕ, Option, some, List}
use job_schedular.Model.{Uuid, Time, Db, DlqEntry}
use job_schedular.Services.Dlq.{
  get_dlq_entry, replay_dlq_entry, replay_all_dlq_entries, purge_dlq_entry, list_dlq_entries,
}
use job_schedular.Services.Access.{Result, ok, unprocessable, ◌>>=◌, ◌>>◌, raise_unless}
use job_schedular.Api.Routes.{Host, is_page}
use job_schedular.Api.Guards.{get_current_user, require_developer_or_admin}

module _ {Token : Type 0} (host : Host Token) (credentials : Option Token) (now : Time) where
  unfoldable pub list_dlq_route : (Uuid → ℕ) → Uuid → ℕ → ℕ → Db → Result (List DlqEntry × ℕ × ℕ)
  unfolding get_current_user list_dlq_entries
  list_dlq_route tie q page page_size db = do
    user ← get_current_user host.crypto host.settings credentials now db
    raise_unless (is_page 100 page page_size) unprocessable
    ok (list_dlq_entries tie user (some q) page page_size db)

  unfoldable pub get_dlq_entry_route : Uuid → Db → Result DlqEntry
  unfolding get_current_user get_dlq_entry
  get_dlq_entry_route id db = do
    user ← get_current_user host.crypto host.settings credentials now db
    get_dlq_entry user id db

  unfoldable pub replay_dlq_entry_route : Uuid → Db → Result (List Uuid × Db)
  unfolding require_developer_or_admin replay_dlq_entry
  replay_dlq_entry_route id db = do
    user ← require_developer_or_admin host.crypto host.settings credentials now db
    replay_dlq_entry user id now db

  unfoldable pub replay_all_dlq_entries_route : Uuid → Db → Result (List Uuid × Db)
  unfolding require_developer_or_admin replay_all_dlq_entries
  replay_all_dlq_entries_route q db = do
    user ← require_developer_or_admin host.crypto host.settings credentials now db
    ok (replay_all_dlq_entries user q now db)

  unfoldable pub purge_dlq_entry_route : Uuid → Db → Result Db
  unfolding require_developer_or_admin purge_dlq_entry
  purge_dlq_entry_route id db = do
    user ← require_developer_or_admin host.crypto host.settings credentials now db
    purge_dlq_entry user id db
