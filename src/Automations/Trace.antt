-- ===== src/Automations/Trace.antt =====
-- Any sequence of mutations of the automation service (server/internal/automations/service.go) and of
-- the task store, whose table the triggers share, each with its clocks and draws.
use repo_mender.Prelude.{Bool, List, [], ◌∷◌, Text, ℤ}
use repo_mender.Ids.{Draw}
use repo_mender.Tasks.Types.{Time}
use repo_mender.Tasks.Trace as TaskTrace
use repo_mender.Automations.Types.{Input, TriggerInput}
use repo_mender.Automations.Trigger.{Draws}
use repo_mender.Automations.Service.{
  Service, Codec, create, update_draft, publish, set_enabled, delete, trigger,
}

pub data Call : Type 0 where
  creating : Draw → Time → Input → Text → Call
  editing : Time → Text → ℤ → Input → Text → Call
  publishing : Time → Text → ℤ → Text → Call
  switching : Time → Text → ℤ → Bool → Text → Call
  deleting : Text → ℤ → Text → Call
  triggering : Draws → TriggerInput → Call
  working : TaskTrace.Call → Call

unfoldable pub perform : Codec → Call → Service → Service
perform codec (creating draw now input actor) s = (create draw now input actor s).1
perform codec (editing now id expected input actor) s =
    (update_draft now id expected input actor s).1
perform codec (publishing now id expected actor) s = (publish now id expected actor s).1
perform codec (switching now id expected enabled actor) s =
    (set_enabled now id expected enabled actor s).1
perform codec (deleting id expected actor) s = (delete id expected actor s).1
perform codec (triggering draws input) s = (trigger codec draws input s).1
perform codec (working c) s = record s {
  tables = record (s.tables) { tasks = TaskTrace.perform c s.tables.tasks };
}

unfoldable pub perform_all : Codec → List Call → Service → Service
perform_all codec [] s = s
perform_all codec (c ∷ cs) s = perform_all codec cs (perform codec c s)
