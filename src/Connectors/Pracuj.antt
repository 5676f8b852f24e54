-- ===== src/Connectors/Pracuj.antt =====
-- app/connectors/pracuj.py: a site that is read with a browser, first its listing and then each offer.
-- The pauses between the requests are left out.
pub mod Browser
pub mod Page
pub mod Listing
pub mod Salary
pub mod Mapping
pub mod Enumeration
pub mod Run
