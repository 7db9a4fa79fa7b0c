-- ===== src/Model/QueueItem.antt =====
-- QueueItem of models/queue.rs: an element of the in-memory queue, and its order.
use serverust_less.Prelude.{
  Bool, String, Option, ℤ, compare_ℤ, compare_text, then_with, Ordering, ◌==◌, IsOrder,
  compare_ℤ-IsOrder, compare_text-IsOrder, then_with-IsOrder, key-IsOrder,
}

pub record QueueItem : Type 0 where
  pub execution_id : String
  pub job_id : String
  pub priority : ℤ
  pub python_code : String
  pub timeout_seconds : ℤ
  pub memory_limit_mb : ℤ
  pub input_data : Option String
  pub use_custom_venv : Bool

-- Higher priority first, then by execution id.
abbrev pub cmp : QueueItem → QueueItem → Ordering
cmp a b = then_with (compare_ℤ a.priority b.priority) (compare_text a.execution_id b.execution_id)

-- Two items are the same if they represent the same execution.
abbrev pub eq : QueueItem → QueueItem → Bool
eq a b = a.execution_id == b.execution_id

-- The heap's order is total and transitive, so a greatest item is well defined.
pub cmp-IsOrder : IsOrder cmp
cmp-IsOrder =
    then_with-IsOrder (key-IsOrder (λ a. a.priority) compare_ℤ-IsOrder)
      (key-IsOrder (λ a. a.execution_id) compare_text-IsOrder)
