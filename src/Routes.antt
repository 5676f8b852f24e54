-- ===== src/Routes.antt =====
-- app/api/routes: what the HTTP handlers do with the database.
pub mod Ids
pub mod Offers
pub mod Failures
