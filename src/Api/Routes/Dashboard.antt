-- ===== src/Api/Routes/Dashboard.antt =====
-- backend/app/api/v1/telemetry.py.
use job_schedular.Prelude.{Option}
use job_schedular.Model.{Uuid, Time, Db}
use job_schedular.Services.Access.{Result, ok, ◌>>=◌}
use job_schedular.Services.Telemetry.{FullTelemetryResponse, get_telemetry}
use job_schedular.Api.Routes.{Host}
use job_schedular.Api.Guards.{get_current_user}

module _ {Token : Type 0} (host : Host Token) (credentials : Option Token) (now : Time) where
  unfoldable pub telemetry_route : Option Uuid → Db → Result FullTelemetryResponse
  unfolding get_current_user get_telemetry
  telemetry_route project_id db = do
    user ← get_current_user host.crypto host.settings credentials now db
    ok (get_telemetry host.figures user project_id now db)
