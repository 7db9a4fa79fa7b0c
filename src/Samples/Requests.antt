-- ===== src/Samples/Requests.antt =====
-- The requests of api/executions.rs at the samples.
use serverust_less.Prelude.{none, some, [], ◌∷◌, pos, true, ◌≡◌, refl}
use serverust_less.Model.Execution.{Execution}
use serverust_less.Model.Execution
use serverust_less.Model.QueueEntry.{QueueEntry}
use serverust_less.Model.QueueEntry
use serverust_less.Model.QueueItem.{QueueItem}
use serverust_less.Db.{System}
use serverust_less.Model.ExecutionStatus
use serverust_less.Model.ExecutionStatus.{from_str}
use serverust_less.Model.QueueStatus
use serverust_less.Model.PackageStatus
use serverust_less.Model.VenvStatus
use serverust_less.Model.Statuses.{from_str-as_str}
use serverust_less.Queue.{item_of}
use serverust_less.Executions
use serverust_less.Api
use serverust_less.Model.Job.{UpdateJobRequest}
use serverust_less.Jobs.{only_enabled}
use serverust_less.Jobs.Names.{WellNamed}
use serverust_less.Jobs.Unique.{updates, serve, serve-WellNamed}
use serverust_less.Samples.{noon, job, execution, entry, item, waiting, loaded}

-- Two executions are queued, one is cancelled.
abbrev second_execution : Execution
second_execution = Execution.new noon "e2" "j1" none

abbrev second : QueueItem
second = item_of second_execution job (pos 1)

abbrev two : System
two = record loaded {
  db = record loaded.db {
    executions = execution ∷ second_execution ∷ [];
    job_queue = entry ∷ QueueEntry.new noon "q2" "e2" "j1" (pos 1) ∷ [];
  };
  memory_queue = item ∷ second ∷ [];
}

from_str-as_str_example :
    (ExecutionStatus.from_str "timeout" ≡ some ExecutionStatus.timeout)
    × (QueueStatus.from_str "dead_letter" ≡ some QueueStatus.dead_letter)
    × (PackageStatus.from_str "installing" ≡ some PackageStatus.installing)
    × (VenvStatus.from_str "updating" ≡ some VenvStatus.updating)
from_str-as_str_example =
    from_str-as_str ExecutionStatus.timeout QueueStatus.dead_letter PackageStatus.installing
      VenvStatus.updating

abbrev rename : UpdateJobRequest
rename = record (only_enabled true) { name = some "other" }

waiting-WellNamed : WellNamed waiting.jobs
waiting-WellNamed = record { ids_nodup = (refl, tt); names_nodup = (refl, tt) }

serve-WellNamed_example : WellNamed (serve (updates "" noon "j1" rename) waiting).jobs
serve-WellNamed_example = serve-WellNamed (updates "" noon "j1" rename) waiting waiting-WellNamed
