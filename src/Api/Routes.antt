-- ===== src/Api/Routes.antt =====
-- What all endpoints share: the libraries behind them, and the bounds of a page.
pub mod Accounts
pub mod Jobs
pub mod Queues
pub mod Projects
pub mod Batches
pub mod Schedules
pub mod Letters
pub mod Workers
pub mod Dashboard
use job_schedular.Prelude.{ℕ, String, Bool, ◌&&◌, leb}
use job_schedular.Model.{Time}
use job_schedular.Services.Slugs.{CharTables}
use job_schedular.Services.Figures.{Figures}
use job_schedular.Services.Tokens.{Crypto, Settings}

-- The third-party code that a request may reach, and the settings.
pub record Host (Token : Type 0) : Type 0 where
  pub crypto : Crypto Token
  pub settings : Settings
  pub tables : CharTables
  pub figures : Figures
  pub sha256 : String → String
  pub next_fire : String → Time → Time

-- page: int = Query(…, ge=1), page_size: int = Query(…, ge=1, le=largest)
abbrev pub is_page : ℕ → ℕ → ℕ → Bool
is_page largest page page_size = leb 1 page && leb 1 page_size && leb page_size largest
