-- ===== src/Model/Statuses.antt =====
-- The texts of the statuses are read back.
use serverust_less.Prelude.{◌≡◌, refl, some}
use serverust_less.Model.ExecutionStatus
use serverust_less.Model.ExecutionStatus.{ExecutionStatus}
use serverust_less.Model.QueueStatus
use serverust_less.Model.QueueStatus.{QueueStatus}
use serverust_less.Model.PackageStatus
use serverust_less.Model.PackageStatus.{PackageStatus}
use serverust_less.Model.VenvStatus
use serverust_less.Model.VenvStatus.{VenvStatus}
use serverust_less.Model.Text.{lowercase_eq}

execution_status_lem :
    (s : ExecutionStatus) → ExecutionStatus.from_str (ExecutionStatus.as_str s) ≡ some s
unfolding ExecutionStatus.from_str lowercase_eq
execution_status_lem ExecutionStatus.pending = refl
execution_status_lem ExecutionStatus.queued = refl
execution_status_lem ExecutionStatus.running = refl
execution_status_lem ExecutionStatus.success = refl
execution_status_lem ExecutionStatus.failed = refl
execution_status_lem ExecutionStatus.timeout = refl
execution_status_lem ExecutionStatus.cancelled = refl

queue_status_lem : (s : QueueStatus) → QueueStatus.from_str (QueueStatus.as_str s) ≡ some s
unfolding QueueStatus.from_str lowercase_eq
queue_status_lem QueueStatus.queued = refl
queue_status_lem QueueStatus.processing = refl
queue_status_lem QueueStatus.completed = refl
queue_status_lem QueueStatus.failed = refl
queue_status_lem QueueStatus.dead_letter = refl

package_status_lem : (s : PackageStatus) → PackageStatus.from_str (PackageStatus.as_str s) ≡ some s
unfolding PackageStatus.from_str lowercase_eq
package_status_lem PackageStatus.installing = refl
package_status_lem PackageStatus.ready = refl
package_status_lem PackageStatus.failed = refl

venv_status_lem : (s : VenvStatus) → VenvStatus.from_str (VenvStatus.as_str s) ≡ some s
unfolding VenvStatus.from_str lowercase_eq
venv_status_lem VenvStatus.creating = refl
venv_status_lem VenvStatus.ready = refl
venv_status_lem VenvStatus.updating = refl
venv_status_lem VenvStatus.failed = refl
venv_status_lem VenvStatus.deleted = refl

-- Reading the text of a status gives that status back, for executions, queue entries, packages and
-- environments.
pub from_str-as_str :
    (s : ExecutionStatus) (q : QueueStatus) (p : PackageStatus) (v : VenvStatus)
    → (ExecutionStatus.from_str (ExecutionStatus.as_str s) ≡ some s)
      × (QueueStatus.from_str (QueueStatus.as_str q) ≡ some q)
      × (PackageStatus.from_str (PackageStatus.as_str p) ≡ some p)
      × (VenvStatus.from_str (VenvStatus.as_str v) ≡ some v)
from_str-as_str s q p v =
    (execution_status_lem s, queue_status_lem q, package_status_lem p, venv_status_lem v)
