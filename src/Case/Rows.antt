-- ===== src/Case/Rows.antt =====
-- The inputs of the commands of case.service.ts, and the rows that they write.
use team_nivaran.Common.{ℕ, ◌+◌, String, Bool, true, false, ◌&&◌, Option, some, eqb, if◌then◌else◌}
use team_nivaran.Case.Model.{
  CaseStatus, draft, open_case, decided, closed, cancelled, CasePriority, DecisionCase, Call,
  is_case,
}

-- `CreateCaseRequest`.
pub record CreateInput : Type 0 where
  pub external_reference : Option String
  pub case_type : String
  pub title : String
  pub priority : CasePriority
  pub requested_amount_minor : Option ℕ
  pub currency : Option String
  pub decision_due_at : Option ℕ

-- A column of an update: left alone (`undefined`), or set.
pub data Change {ℓ} (A : Type ℓ) : Type ℓ where
  keep : Change A
  set : A → Change A

abbrev pub apply {ℓ} : {A : Type ℓ} → Change A → A → A
apply keep old = old
apply (set new) old = new

-- The statuses that a client may ask for.
pub data AskedStatus : Type 0 where
  ask_draft ask_open : AskedStatus

-- `UpdateCaseRequest`.
pub record UpdateInput : Type 0 where
  pub version : ℕ
  pub external_reference : Change (Option String)
  pub case_type : Change String
  pub title : Change String
  pub priority : Change CasePriority
  pub requested_amount_minor : Change (Option ℕ)
  pub currency : Change (Option String)
  pub decision_due_at : Change (Option ℕ)
  pub status : Change AskedStatus

pub record ReferenceInput : Type 0 where
  pub source_system_id : String
  pub reference_type : String
  pub reference_value : String
  pub is_primary : Bool

abbrev pub is_draft : CaseStatus → Bool
is_draft draft = true
is_draft _ = false

abbrev pub is_open : CaseStatus → Bool
is_open open_case = true
is_open _ = false

-- `status === "CANCELLED" || status === "CLOSED" || status === "DECIDED"`.
abbrev pub is_final : CaseStatus → Bool
is_final decided = true
is_final closed = true
is_final cancelled = true
is_final _ = false

abbrev pub asked : AskedStatus → CaseStatus
asked ask_draft = draft
asked ask_open = open_case

abbrev pub next_status : Change AskedStatus → CaseStatus → CaseStatus
next_status keep old = old
next_status (set s) old = asked s

-- `current.status === "DRAFT" && input.status === "OPEN"`.
abbrev pub opens : Change AskedStatus → CaseStatus → Bool
opens (set ask_open) old = is_draft old
opens _ old = false

-- `input.status !== current.status`, negated.
abbrev pub keeps : Change AskedStatus → CaseStatus → Bool
keeps keep old = true
keeps (set ask_draft) old = is_draft old
keeps (set ask_open) old = is_open old

abbrev pub update_row : UpdateInput → DecisionCase → Call → DecisionCase → DecisionCase
update_row input current call c = record c {
  external_reference = apply input.external_reference c.external_reference;
  case_type = apply input.case_type c.case_type;
  title = apply input.title c.title;
  priority = apply input.priority c.priority;
  requested_amount_minor = apply input.requested_amount_minor c.requested_amount_minor;
  currency = apply input.currency c.currency;
  decision_due_at = apply input.decision_due_at c.decision_due_at;
  status = next_status input.status c.status;
  opened_at = if opens input.status current.status then some call.now else c.opened_at;
  version = current.version + 1;
  updated_by = call.user_id;
}

abbrev pub cancel_row : Call → DecisionCase → DecisionCase
cancel_row call c = record c {
  status = cancelled;
  closed_at = some call.now;
  version = c.version + 1;
  updated_by = call.user_id;
}

-- The next version, without a change of the case's own columns.
abbrev pub touch_row : Call → DecisionCase → DecisionCase
touch_row call c = record c { version = c.version + 1; updated_by = call.user_id }

-- `updateMany({ where: { id, organizationId, version } })`.
abbrev pub is_version : String → ℕ → Call → DecisionCase → Bool
is_version id version call c = is_case id call.organization_id c && eqb c.version version

-- `updated.status !== current.status`, negated.
abbrev pub same_status : CaseStatus → CaseStatus → Bool
same_status draft draft = true
same_status open_case open_case = true
same_status CaseStatus.evidence_collection CaseStatus.evidence_collection = true
same_status CaseStatus.under_review CaseStatus.under_review = true
same_status CaseStatus.decision_pending CaseStatus.decision_pending = true
same_status decided decided = true
same_status closed closed = true
same_status cancelled cancelled = true
same_status _ _ = false
