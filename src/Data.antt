-- ===== src/Data.antt =====
-- The values that the parts exchange: Python texts, parsed JSON and the rows of the database.
pub mod Text
pub mod Json
