-- ===== src/Connectors.antt =====
-- app/connectors
pub mod ProxyPool
pub mod Http
pub mod Payload
pub mod JobBoard
pub mod Boards
pub mod Pracuj
pub mod SitemapDetail
