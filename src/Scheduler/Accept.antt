-- ===== src/Scheduler/Accept.antt =====
-- src/scheduler.rs: what `submit` accepts.
use cloud_job_orchestrator.Base.Text.{Text}
use cloud_job_orchestrator.Base.Map.{Map}
use cloud_job_orchestrator.Scheduler.State.{Scheduler}
