-- ===== src/Model/Audit.antt =====
-- AuditLog and AuditAction of models/audit.rs.
use serverust_less.Prelude.{String, Option}
use serverust_less.Model.Clock.{Clock}

pub data AuditAction : Type 0 where
  job_create job_update job_delete job_enable job_disable job_execute job_clone : AuditAction
  execution_cancel execution_retry execution_delete : AuditAction
  package_install package_uninstall : AuditAction
  venv_create venv_delete venv_update : AuditAction
  system_startup system_shutdown : AuditAction

abbrev pub as_str : AuditAction → String
as_str job_create = "job.create"
as_str job_update = "job.update"
as_str job_delete = "job.delete"
as_str job_enable = "job.enable"
as_str job_disable = "job.disable"
as_str job_execute = "job.execute"
as_str job_clone = "job.clone"
as_str execution_cancel = "execution.cancel"
as_str execution_retry = "execution.retry"
as_str execution_delete = "execution.delete"
as_str package_install = "package.install"
as_str package_uninstall = "package.uninstall"
as_str venv_create = "venv.create"
as_str venv_delete = "venv.delete"
as_str venv_update = "venv.update"
as_str system_startup = "system.startup"
as_str system_shutdown = "system.shutdown"

abbrev pub resource_type : AuditAction → String
resource_type job_create = "job"
resource_type job_update = "job"
resource_type job_delete = "job"
resource_type job_enable = "job"
resource_type job_disable = "job"
resource_type job_execute = "job"
resource_type job_clone = "job"
resource_type execution_cancel = "execution"
resource_type execution_retry = "execution"
resource_type execution_delete = "execution"
resource_type package_install = "package"
resource_type package_uninstall = "package"
resource_type venv_create = "venv"
resource_type venv_delete = "venv"
resource_type venv_update = "venv"
resource_type system_startup = "system"
resource_type system_shutdown = "system"

pub record AuditLog : Type 0 where
  pub id : String
  pub action : String
  pub resource_kind : String
  pub resource_id : Option String
  pub user_id : Option String
  pub details : Option String
  pub ip_address : Option String
  pub created_at : String

-- The fresh id is an argument, and the details are their JSON text.
abbrev pub new :
    Clock
    → String
    → AuditAction
    → Option String
    → Option String
    → Option String
    → Option String
    → AuditLog
new clock id action resource_id user_id details ip_address = record {
  id = id;
  action = as_str action;
  resource_kind = resource_type action;
  resource_id = resource_id;
  user_id = user_id;
  details = details;
  ip_address = ip_address;
  created_at = clock.rfc3339;
}
