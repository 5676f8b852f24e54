-- ===== src/Ingestion/Types.antt =====
-- app/ingestion/types.py
use recru_flow.Base.{ℕ, String, Bool, Option}

pub record IngestionResult : Type 0 where
  pub ok : Bool
  pub fetched : ℕ
  pub created : ℕ
  pub error_message : Option String
  pub blocked_status : Option ℕ
