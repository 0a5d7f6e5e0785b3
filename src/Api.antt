-- ===== src/Api.antt =====
-- backend/app/api: the guards in front of the endpoints, and the endpoints of api/v1, each a guard
-- and the call of its service. FastAPI runs the guard before it looks at the query parameters. The
-- services commit the session; on an error it is rolled back (core/database.py).
pub mod Guards
pub mod Routes
pub mod Roles
pub mod Live
