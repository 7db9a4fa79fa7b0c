-- ===== src/Model/Bulk.antt =====
-- BulkOperationResponse of models/job.rs.
use serverust_less.Prelude.{ℕ, String, List}

pub record BulkOperationResponse : Type 0 where
  pub success_count : ℕ
  pub failure_count : ℕ
  pub errors : List String
