-- ===== src/Repair/Trace.antt =====
-- Any sequence of calls of the repair service and its processor (server/internal/repair), among
-- calls of the approval service and of the task store. A call has its own clock, draws, provider
-- and adapter.
use repo_mender.Prelude.{Option, List, [], ◌∷◌, Text}
use repo_mender.Tasks.Types.{Task, Run}
use repo_mender.Tasks.Trace as Tasks
use repo_mender.Approvals.Validate.{PolicyDecoder}
use repo_mender.Approvals.Trace as Approvals
use repo_mender.Repair.Types.{Issue}
use repo_mender.Repair.World.{World, Codec, Provider, Adapter, Clock, Config}
use repo_mender.Repair.Service.{
  create_from_issue, bind_automation_task, create_from_diagnosis, consume_approval,
}
use repo_mender.Repair.Processor.{process}

pub data Call : Type 0 where
  from_issue : Option Provider → Clock → Issue → Text → Call
  for_automation : Option Provider → Clock → Task → Issue → Text → Call
  from_diagnosis : Clock → Task → Text → Call
  resuming : Clock → Text → Text → Text → Text → Text → Call
  working : Option Adapter → Option Provider → Clock → Task → Run → Call
  approving : Approvals.Call → Call
  queueing : Tasks.Call → Call

unfoldable pub perform : PolicyDecoder → Config → Codec → Call → World → World
perform decode config codec (from_issue provider clock issue actor) w =
    (create_from_issue provider clock issue actor w).1
perform decode config codec (for_automation provider clock task issue actor) w =
    (bind_automation_task provider clock task issue actor w).1
perform decode config codec (from_diagnosis clock task actor) w =
    (create_from_diagnosis codec clock task actor w).1
perform decode config codec (resuming clock repair_id phase digest key actor) w =
    (consume_approval codec clock repair_id phase digest key actor w).1
perform decode config codec (working adapter provider clock task run) w =
    (process decode config codec adapter provider clock task run w).1
perform decode config codec (approving c) w = record w {
  approvals = Approvals.perform c w.approvals;
}
perform decode config codec (queueing c) w = record w { tasks = Tasks.perform c w.tasks }

unfoldable pub perform_all : PolicyDecoder → Config → Codec → List Call → World → World
perform_all decode config codec [] w = w
perform_all decode config codec (c ∷ cs) w =
    perform_all decode config codec cs (perform decode config codec c w)
