-- ===== src/Migrations.antt =====
-- alembic: the revisions of the database schema.
pub mod Schema
pub mod Undo
pub mod Tables
pub mod Revisions
pub mod Downgrades
pub mod Types
