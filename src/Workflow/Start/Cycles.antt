-- ===== src/Workflow/Start/Cycles.antt =====
-- What a started workflow is, and what the same request is answered afterwards.
use team_nivaran.Common.{
  ◌≤◌, ◌<◌, String, ◌≡◌, ◌∙◌, sym, ap, refl, inl, inr, true, false, ◌&&◌, Option, none, some, List,
  [], ◌∷◌, ◌++◌, Memᴰ, arith, ◌==◌, eq_iff, eq_self, Option-cases, Bool-cases, if◌then◌else◌,
}
use team_nivaran.Common.Lists.{count, count-append, Memᴰ-cons}
use team_nivaran.Common.Rows.{count-Memᴰ, find_added}
use team_nivaran.Common.Results.{ok, err, conflict, Result-cases}
use team_nivaran.Workflow.Rules.{CaseSnapshot}
use team_nivaran.Workflow.Model.{WorkflowInstance, DefinitionVersion, Response, started}
use team_nivaran.Workflow.Store.{Db, Client, Services, Call}
use team_nivaran.Workflow.Decide.{is_prior}
use team_nivaran.Workflow.Start.{
  StartInput, Reopen, serves, is_default_of, of_case, is_active_of, last_cycle, start_route,
  selected_version, check_start, new_instance, record_start, start_new, start,
}

last_cycle_max :
    (organization_id case_id : String) (instances : List WorkflowInstance) (i : WorkflowInstance)
    → Memᴰ i instances
    → of_case organization_id case_id i ≡ true
    → i.cycle_number ≤ last_cycle organization_id case_id instances
unfolding last_cycle
last_cycle_max o c [] i m e = elim m [ ]
last_cycle_max o c (x ∷ xs) i m e = elim (Memᴰ-cons m) [
  | inl same ↦ let at_x : of_case o c x ≡ true = rw (← same) e in rw (same, at_x) (omega arith)
  | inr k ↦
      let below = last_cycle_max o c xs i k e in
      elim (Bool-cases (of_case o c x)) [
        | inl here ↦ rw here (omega arith)
        | inr there ↦ rw there below
      ]
]

some_same : (u v : DefinitionVersion) → some u ≡ some v → u ≡ v
some_same u v h = cc

module _ (prisma : Client) (services : Services) (hash : StartInput → String) (case_id : String)
    (input : StartInput) (key : String) (reopen : Option Reopen) where
  -- The workflow that a start adds.
  pub record IsStarted (call : Call) (db after : Db) (i : WorkflowInstance) : Type 0 where
    pub added : after.instances ≡ db.instances ++ i ∷ []
    pub of_this_case : of_case call.identity.organization_id case_id i ≡ true
    pub only : count (is_active_of call.identity.organization_id case_id) after.instances ≡ 1
    pub cycle :
        (j : WorkflowInstance)
        → Memᴰ j db.instances
        → of_case call.identity.organization_id case_id j ≡ true
        → j.cycle_number < i.cycle_number
    pub version : DefinitionVersion
    pub listed : Memᴰ version db.versions
    pub published : version.published ≡ true
    pub available : serves call.identity.organization_id version ≡ true
    pub chosen : i.definition_version_id ≡ version.id
    pub asked : (id : String) → input.definition_version_id ≡ some id → version.id ≡ id

  selected_version_lem :
      (organization_id : String) (db : Db) (v : DefinitionVersion)
      → selected_version prisma services hash input organization_id db ≡ some v
      → Memᴰ v db.versions
        × (v.published ≡ true)
        × (serves organization_id v ≡ true)
        × ((id : String) → input.definition_version_id ≡ some id → v.id ≡ id)
  unfolding selected_version
  selected_version_lem o db v h = elim (Option-cases input.definition_version_id) [
    | inr (id, asked) ↦
        let (met, listed) =
          prisma.version_table.find_first_some (λ v. v.id == id && v.published && serves o v)
            db.versions v (rw asked at h) in
        (listed, ground arith, ground arith, λ other e. ground (arith, eq_iff v.id id))
    | inl default ↦
        let (met, listed) =
          prisma.version_table.find_latest_by_some (is_default_of o) (λ v. v.organization_id)
            (λ v. v.version_number) db.versions v (rw default at h) in
        (listed, ground arith, ground arith, λ other e. cc)
  ]

  start_new_parts :
      (call : Call) (db after : Db) (response : Response)
      → start_new prisma services hash case_id input key reopen call db ≡ ok (after, response)
      → (s : CaseSnapshot) × (v : DefinitionVersion) × (i : WorkflowInstance) × (check_start prisma
            services hash case_id input reopen call db
          ≡ ok (s, v))
        × (record_start prisma services hash case_id input key reopen s v call db ≡ ok (after, i))
        × (response ≡ started i)
  unfolding start_new
  start_new_parts call db after response h =
      elim (Result-cases (check_start prisma services hash case_id input reopen call db)) [
        | inl (e, refused) ↦ absurd (ground arith)
        | inr ((s, v), checked) ↦
            elim (Result-cases
              (record_start prisma services hash case_id input key reopen s v call db)) [
                | inl (e, refused) ↦ absurd (ground arith)
                | inr ((t, i), recorded) ↦ (s, v, i, checked, ground arith, ground arith)
              ]
      ]

  check_start_version :
      (call : Call) (db : Db) (s : CaseSnapshot) (v : DefinitionVersion)
      → check_start prisma services hash case_id input reopen call db ≡ ok (s, v)
      → selected_version prisma services hash input call.identity.organization_id db ≡ some v
  unfolding check_start
  check_start_version call db s v h = ground arith

  record_start_parts :
      (call : Call) (db after : Db) (s : CaseSnapshot) (v : DefinitionVersion)
      (i : WorkflowInstance)
      → record_start prisma services hash case_id input key reopen s v call db ≡ ok (after, i)
      → (i ≡ new_instance prisma services hash case_id s v call db)
        × (after.instances ≡ db.instances ++ i ∷ [])
        × (prisma.instance_table.find_first
              (is_active_of call.identity.organization_id case_id)
              db.instances
            ≡ none)
        × (after.idempotency
            ≡ db.idempotency
              ++ record {
                organization_id = call.identity.organization_id;
                actor_id = call.identity.user_id;
                route = start_route case_id;
                key = key;
                request_hash = hash input;
                response_body = started i;
              }
                ∷ [])
  unfolding record_start
  record_start_parts call db after s v i h =
      (ground arith, ground arith, ground arith, ground arith)

  new_of_case :
      (call : Call) (db : Db) (s : CaseSnapshot) (v : DefinitionVersion)
      → of_case call.identity.organization_id case_id
          (new_instance prisma services hash case_id s v call db)
        ≡ true
  new_of_case call db s v = simp eq_self

  -- A start that finds no earlier request under its key adds one workflow of the case, in a cycle
  -- after all earlier ones, on a published version that the organization may use (the one asked
  -- for, if any); afterwards the case has exactly one active workflow.
  pub start_new-IsStarted :
      (call : Call) (db after : Db) (response : Response)
      → start_new prisma services hash case_id input key reopen call db ≡ ok (after, response)
      → (i : WorkflowInstance) × (response ≡ started i) × IsStarted call db after i
  start_new-IsStarted call db after response h =
      let (s, v, i, checked, recorded, is_i) = start_new_parts call db after response h in
      let (made, added, missing, kept) = record_start_parts call db after s v i recorded in
      let (listed, published, available, asked) =
        selected_version_lem call.identity.organization_id db v
          (check_start_version call db s v checked) in
      let org = call.identity.organization_id in
      let ours : of_case org case_id i ≡ true = rw made (new_of_case call db s v) in
      let active : i.active ≡ true = ap (λ (j : WorkflowInstance). j.active) made in
      let number = ap (λ (j : WorkflowInstance). j.cycle_number) made in
      let none_before =
        prisma.instance_table.find_first_none (is_active_of org case_id) db.instances missing in
      (
        i,
        is_i,
        record {
          added = added;
          of_this_case = ours;
          only =
              rw
                (
                  added,
                  count-append (is_active_of org case_id) db.instances (i ∷ []),
                  none_before,
                  ours,
                  active,
                )
                refl;
          cycle = λ j m e.
              let below = last_cycle_max org case_id db.instances j m e in omega (arith, number);
          version = v;
          listed = listed;
          published = published;
          available = available;
          chosen = ap (λ (j : WorkflowInstance). j.definition_version_id) made;
          asked = asked;
        },
      )

  -- The same request again, by the same caller and at any later time, gets the same workflow and
  -- changes nothing; a different request under the same key is a conflict.
  pub start_replay :
      (input' : StartInput) (reopen' : Option Reopen) (call call' : Call) (db after : Db)
      (response : Response)
      → (key == "") ≡ false
      → prisma.idempotency_table.find_first
          (is_prior (start_route case_id) key call.identity)
          db.idempotency
        ≡ none
      → start_new prisma services hash case_id input key reopen call db ≡ ok (after, response)
      → call'.identity ≡ call.identity
      → start prisma services hash case_id input' key reopen' call' after ≡ (
        after,
        if hash input == hash input'
            then ok response
            else err (conflict "Idempotency key was used for a different request."),
      )
  unfolding start
  start_replay input' reopen' call call' db after response named missing h same =
      let (s, v, i, checked, recorded, is_i) = start_new_parts call db after response h in
      let (made, added, idle, kept) = record_start_parts call db after s v i recorded in
      let found =
        ap (prisma.idempotency_table.find_first (is_prior (start_route case_id) key call.identity))
          kept
        ∙ find_added prisma.idempotency_table (is_prior (start_route case_id) key call.identity)
            db.idempotency _ missing (simp eq_self) in
      elim (Bool-cases (hash input == hash input')) [
        | inl equal ↦ rw (same, named, found, is_i, equal) refl
        | inr other ↦ rw (same, named, found, is_i, other) refl
      ]

abbrev pub any_version : StartInput
any_version = record { definition_version_id = none }

module _ (prisma : Client) (services : Services) (hash : StartInput → String) where
  -- Where no version is asked for and a global default exists, the selected version is a global
  -- default, and the latest of them.
  selected_version-global :
      (organization_id : String) (db : Db) (g : DefinitionVersion)
      → Memᴰ g db.versions
      → is_default_of organization_id g ≡ true
      → g.organization_id ≡ none
      → (v : DefinitionVersion) × (selected_version prisma services hash any_version organization_id
            db
          ≡ some v)
        × (v.organization_id ≡ none)
        × (g.version_number ≤ v.version_number)
  unfolding selected_version
  selected_version-global o db g m e global =
      let column = λ (v : DefinitionVersion). v.organization_id in
      let number = λ (v : DefinitionVersion). v.version_number in
      let table = prisma.version_table in
      elim (Option-cases (table.find_latest_by (is_default_of o) column number db.versions)) [
        | inl missing ↦ absurd (
            count-Memᴰ (is_default_of o) db.versions g m e
              (table.find_latest_by_none (is_default_of o) column number db.versions missing))
        | inr (v, found) ↦
            let null : v.organization_id ≡ none =
              table.find_latest_by_null (is_default_of o) column number db.versions v g found m e
                global in
            (
              v,
              rw (selected_version, found) refl,
              null,
              table.find_latest_by_max (is_default_of o) column number db.versions v g found m e
                  (global ∙ sym null),
            )
      ]

  -- A start without a version asked for, where a published global default exists, adds a workflow on
  -- a global default that is not older than it, whatever defaults the organization has of its own.
  pub start_new-global :
      (case_id key : String) (reopen : Option Reopen) (call : Call) (db after : Db)
      (response : Response) (g : DefinitionVersion)
      → Memᴰ g db.versions
      → is_default_of call.identity.organization_id g ≡ true
      → g.organization_id ≡ none
      → start_new prisma services hash case_id any_version key reopen call db ≡ ok (after, response)
      → (i : WorkflowInstance) × (v : DefinitionVersion) × (response ≡ started i)
        × (after.instances ≡ db.instances ++ i ∷ [])
        × (i.definition_version_id ≡ v.id)
        × Memᴰ v db.versions
        × (v.published ≡ true)
        × (v.organization_id ≡ none)
        × (g.version_number ≤ v.version_number)
  start_new-global case_id key reopen call db after response g m e global h =
      let (v, selected, null, later) =
        selected_version-global call.identity.organization_id db g m e global in
      let (s, u, i, checked, recorded, is_i) =
        start_new_parts prisma services hash case_id any_version key reopen call db after response
          h in
      let (made, added, idle, kept) =
        record_start_parts prisma services hash case_id any_version key reopen call db after s u i
          recorded in
      let used =
        check_start_version prisma services hash case_id any_version key reopen call db s u
          checked in
      let (listed, published, available, asked) =
        selected_version_lem prisma services hash case_id any_version key reopen
          call.identity.organization_id db v selected in
      (
        i,
        v,
        is_i,
        added,
        ap (λ (j : WorkflowInstance). j.definition_version_id) made
            ∙ ap (λ (x : DefinitionVersion). x.id) (some_same u v (sym used ∙ selected)),
        listed,
        published,
        null,
        later,
      )
