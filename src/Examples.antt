-- ===== src/Examples.antt =====
-- The theorems at concrete inputs.
mod Numbers
mod Data
mod Listings
mod Engine
mod Runner
mod Services
mod System
mod Api
mod Loop
mod Tenants
mod Daemons
mod Migrations
