-- ===== src/Workflow/Tests/Starts.antt =====
-- Starting a workflow, and the same request again.
use team_nivaran.Common.{
  String, ◌≤◌, ◌≡◌, refl, true, false, none, some, [], ◌∷◌, ◌++◌, Memᴰ, ◌==◌, if◌then◌else◌,
}
use team_nivaran.Common.Results.{ok, err, conflict}
use team_nivaran.Workflow.Model.{
  WorkflowInstance, WorkflowState, TaskStatus, TaskType, DefinitionVersion, Response, started,
}
use team_nivaran.Workflow.Store.{Db}
use team_nivaran.Workflow.Start.{
  StartInput, selected_version, check_start, record_start, last_cycle, start_new, start,
}
use team_nivaran.Workflow.Start.Cycles.{
  IsStarted, start_new-IsStarted, start_replay, any_version, start_new-global,
}
use team_nivaran.Workflow.Tests.{
  value_or, client, services, call_of, instance_in, task_in, version, db_of,
}

abbrev hash : StartInput → String
hash input = elim input.definition_version_id [ none ↦ "" | some id ↦ id ]

abbrev default : StartInput
default = record { definition_version_id = none }

-- The case has a finished first cycle.
abbrev ended : WorkflowInstance
ended = record (instance_in WorkflowState.rejected) { active = false }

abbrev before : Db
before = db_of ended (task_in TaskType.approve_decision TaskStatus.completed none)

abbrev result : Db × Response
result =
    value_or (before, started ended)
      (start_new client services hash "c" default "key" none (call_of "analyst") before)

result_lem :
    start_new client services hash "c" default "key" none (call_of "analyst") before
    ≡ ok (result.0, result.1)
unfolding start_new check_start selected_version record_start last_cycle
result_lem = refl

start_new_example :
    (i : WorkflowInstance) × (result.1 ≡ started i)
    × IsStarted client services hash "c" default "key" none (call_of "analyst") before result.0 i
start_new_example =
    start_new-IsStarted client services hash "c" default "key" none (call_of "analyst") before
      result.0 result.1 result_lem

start_replay_example :
    start client services hash "c" default "key" none (call_of "analyst") result.0 ≡ (
      result.0,
      if "" == ""
          then ok result.1
          else err (conflict "Idempotency key was used for a different request."),
    )
start_replay_example =
    start_replay client services hash "c" default "key" none default none (call_of "analyst")
      (call_of "analyst") before result.0 result.1 refl refl result_lem refl

abbrev global : DefinitionVersion
global = record version { id = "global"; organization_id = none }

abbrev with_global : Db
with_global = record before { versions = version ∷ global ∷ [] }

abbrev global_result : Db × Response
global_result =
    value_or (with_global, started ended)
      (start_new client services hash "c" any_version "key" none (call_of "analyst") with_global)

global_lem :
    start_new client services hash "c" any_version "key" none (call_of "analyst") with_global
    ≡ ok (global_result.0, global_result.1)
unfolding start_new check_start selected_version record_start last_cycle
global_lem = refl

-- The organization has a default of its own, `version`.
start_global_example :
    (i : WorkflowInstance) × (v : DefinitionVersion) × (global_result.1 ≡ started i)
    × (global_result.0.instances ≡ with_global.instances ++ i ∷ [])
    × (i.definition_version_id ≡ v.id)
    × Memᴰ v with_global.versions
    × (v.published ≡ true)
    × (v.organization_id ≡ none)
    × (1 ≤ v.version_number)
start_global_example =
    start_new-global client services hash "c" "key" none (call_of "analyst") with_global
      global_result.0 global_result.1 global (Memᴰ.tail (Memᴰ.head refl)) refl refl global_lem
