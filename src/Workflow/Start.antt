-- ===== src/Workflow/Start.antt =====
-- Starting and reopening a Workflow (`start`, `reopen` of workflow.service.ts). A stored
-- configuration is taken as parsed.
pub mod Cycles
use Prim.Native.String.{◌++◌ as text_append}
use mathlib.Core.Option
use team_nivaran.Common.{
  ℕ, ◌+◌, max, String, Bool, true, false, ◌&&◌, ◌||◌, not, Option, none, some, List, [], ◌∷◌, ◌++◌,
  ◌==◌, is_none, is_text, if◌then◌else◌, truncate,
}
use team_nivaran.Common.Lists.{any}
use team_nivaran.Common.Results.{
  Result, ok, err, bad_request, conflict, unprocessable, require, or_throw, settle, ◌>>=◌, ◌>>◌,
}
use team_nivaran.Workflow.Rules.{CaseSnapshot}
use team_nivaran.Workflow.Model.{
  WorkflowState, not_started, SyncStatus, WorkflowInstance, DefinitionVersion, Response, started,
}
use team_nivaran.Workflow.Store.{Db, Client, Services, Call, event}
use team_nivaran.Workflow.Decide.{is_prior}
use team_nivaran.Workflow.Lifecycle.{is_terminal}

pub record StartInput : Type 0 where
  pub definition_version_id : Option String

pub record Reopen : Type 0 where
  pub prior_workflow_instance_id : String
  pub reason : String

-- `["OPEN", "EVIDENCE_COLLECTION", "UNDER_REVIEW"].includes(status)`.
abbrev pub may_start : String → Bool
may_start status = status == "OPEN" || status == "EVIDENCE_COLLECTION" || status == "UNDER_REVIEW"

abbrev pub applies_to : DefinitionVersion → String → Bool
applies_to version case_type =
    any (λ t. t == "*") version.case_types || any (λ t. t == case_type) version.case_types

abbrev pub serves : String → DefinitionVersion → Bool
serves organization_id v = is_text v.organization_id organization_id || is_none v.organization_id

abbrev pub is_default_of : String → DefinitionVersion → Bool
is_default_of organization_id v = v.published && v.is_default && serves organization_id v

abbrev pub of_case : String → String → WorkflowInstance → Bool
of_case organization_id case_id i = i.organization_id == organization_id && i.case_id == case_id

abbrev pub is_active_of : String → String → WorkflowInstance → Bool
is_active_of organization_id case_id i = of_case organization_id case_id i && i.active

-- `_max.cycleNumber ?? 0`; cycles count from 1.
unfoldable pub last_cycle : String → String → List WorkflowInstance → ℕ
last_cycle organization_id case_id [] = 0
last_cycle organization_id case_id (i ∷ instances) =
    let rest = last_cycle organization_id case_id instances in
    if of_case organization_id case_id i then max i.cycle_number rest else rest

unfoldable pub start_route : String → String
start_route case_id = text_append (text_append "cases/" case_id) "/workflow/start"

abbrev pub started_action : Option Reopen → String
started_action none = "WORKFLOW_STARTED"
started_action (some reopen) = "WORKFLOW_REOPENED"

abbrev started_event : Option Reopen → String
started_event none = "workflow.instance.started"
started_event (some reopen) = "workflow.reopened"

-- `hash(input)`, the SHA-256 of the input's JSON text, is a parameter.
module _ (prisma : Client) (services : Services) (hash : StartInput → String) where
  open prisma use {instance_table, version_table, idempotency_table}

  -- The definition that is asked for, or a default.
  unfoldable pub selected_version : StartInput → String → Db → Option DefinitionVersion
  selected_version input organization_id db = elim input.definition_version_id [
    | some id ↦
        version_table.find_first (λ v. v.id == id && v.published && serves organization_id v)
          db.versions
    | none ↦
        version_table.find_latest_by (is_default_of organization_id) (λ v. v.organization_id)
          (λ v. v.version_number) db.versions
  ]

  -- The guards before the transaction.
  unfoldable pub check_start :
      String → StartInput → Option Reopen → Call → Db → Result (CaseSnapshot × DefinitionVersion)
  check_start case_id input reopen call db = do
    let org = call.identity.organization_id
    snapshot ← services.case_snapshot org case_id
    require (not (is_none reopen) || may_start snapshot.status)
        (unprocessable "The Case state does not permit Workflow start.")
    version ←
        or_throw (selected_version input org db)
          (unprocessable "No applicable published Workflow definition exists.")
    require (applies_to version snapshot.case_type)
        (unprocessable "The Workflow definition does not apply to this Case type.")
    ok (snapshot, version)

  abbrev pub new_instance : String → CaseSnapshot → DefinitionVersion → Call → Db → WorkflowInstance
  new_instance case_id snapshot version call db = record {
    id = instance_table.new_id db.instances;
    organization_id = call.identity.organization_id;
    case_id = case_id;
    case_number_snapshot = snapshot.case_number;
    definition_version_id = version.id;
    cycle_number = last_cycle call.identity.organization_id case_id db.instances + 1;
    state = not_started;
    active = true;
    active_task_id = none;
    current_validation_run_id = none;
    current_recommendation_id = none;
    current_decision_id = none;
    case_sync_status = SyncStatus.pending;
    started_by_id = call.identity.user_id;
    completed_at = none;
    row_version = 1;
  }

  -- The transaction. No other transaction comes between its read of the active Workflow and its
  -- commit.
  unfoldable pub record_start :
      String
      → StartInput
      → String
      → Option Reopen
      → CaseSnapshot
      → DefinitionVersion
      → Call
      → Db
      → Result (Db × WorkflowInstance)
  record_start case_id input key reopen snapshot version call db = do
    let org = call.identity.organization_id
    require (is_none (instance_table.find_first (is_active_of org case_id) db.instances))
        (conflict "An active Workflow already exists for this Case.")
    let instance = new_instance case_id snapshot version call db
    ok (
      event instance call (started_event reopen) instance.id (record db {
        instances = db.instances ++ instance ∷ [];
        history =
            db.history
            ++ record {
              workflow_instance_id = instance.id;
              from_state = none;
              to_state = not_started;
              action = started_action reopen;
              reason_code = Option.map (λ (r : Reopen). truncate 80 r.reason) reopen;
              actor_id = call.identity.user_id;
              aggregate_version = 1;
              correlation_id = call.correlation_id;
            }
              ∷ [];
        actors =
            db.actors
            ++ record {
              workflow_instance_id = instance.id;
              action = started_action reopen;
              actor_id = call.identity.user_id;
              reference_id = Option.map (λ (r : Reopen). r.prior_workflow_instance_id) reopen;
              occurred_at = call.now;
            }
              ∷ [];
        idempotency =
            db.idempotency
            ++ record {
              organization_id = org;
              actor_id = call.identity.user_id;
              route = start_route case_id;
              key = key;
              request_hash = hash input;
              response_body = started instance;
            }
              ∷ [];
      }),
      instance,
    )

  -- What `start` does when no earlier request has used the key.
  unfoldable pub start_new :
      String → StartInput → String → Option Reopen → Call → Db → Result (Db × Response)
  start_new case_id input key reopen call db = do
    (snapshot, version) ← check_start case_id input reopen call db
    (after, instance) ← record_start case_id input key reopen snapshot version call db
    ok (after, started instance)

  unfoldable pub start :
      String → StartInput → String → Option Reopen → Call → Db → Db × Result Response
  start case_id input key reopen call db = settle db (do
    require (not (key == "")) (bad_request "Idempotency-Key is required.")
    elim (idempotency_table.find_first (is_prior (start_route case_id) key call.identity)
        db.idempotency) [
          | some r ↦
              if r.request_hash == hash input
              then ok (db, r.response_body)
              else err (conflict "Idempotency key was used for a different request.")
          | none ↦ start_new case_id input key reopen call db
        ])

  -- The last ended Workflow of the case.
  abbrev pub is_ended_of : String → String → WorkflowInstance → Bool
  is_ended_of organization_id case_id i =
      of_case organization_id case_id i && not i.active && is_terminal i.state

  abbrev or_prior : Option String → WorkflowInstance → String
  or_prior none prior = prior.definition_version_id
  or_prior (some id) prior = id

  unfoldable pub reopen :
      String → StartInput → (reason : String) → String → Call → Db → Db × Result Response
  reopen case_id input reason key call db =
      elim (instance_table.find_latest (is_ended_of call.identity.organization_id case_id)
        (λ i. i.cycle_number) db.instances) [
          | none ↦ (db, err (conflict "No terminal Workflow is eligible to reopen."))
          | some prior ↦
              start case_id
                (record {
                  definition_version_id = some (or_prior input.definition_version_id prior);
                })
                key (some (record { prior_workflow_instance_id = prior.id; reason = reason })) call
                db
        ]
