-- ===== src/Case/Lifecycle.antt =====
-- The life of a case, as its clients may rely on it, and that the commands keep to it.
pub mod Edits
pub mod Commands
use team_nivaran.Common.{
  ℕ, ◌+◌, String, ◌≡◌, ◌∙◌, ap, sym, refl, ◌≢◌, ◌⊎◌, inl, inr, Bool, true, false, not, Option, none,
  some, List, [], ◌∷◌, ◌++◌, Memᴰ, arith, ◌==◌, Bool-cases,
}
use team_nivaran.Common.Lists.{update_where, Memᴰ-update_where, Memᴰ-append}
use team_nivaran.Case.Model.{
  CaseStatus, draft, open_case, decided, closed, cancelled, DecisionCase, Call,
}
use team_nivaran.Case.Rows.{is_final, touch_row}
use team_nivaran.Case.Sync.{is_allowed, is_decided, is_shut}

-- A change of status: a draft is opened, a running case is cancelled, or the Workflow moves a case
-- that is not shut, and a decided case only to where it is.
pub data Moves : CaseStatus → CaseStatus → Type 0 where
  opened : Moves draft open_case
  ended : (s : CaseStatus) → is_final s ≡ false → Moves s cancelled
  synced :
      (s t : CaseStatus)
      → is_allowed t ≡ true
      → is_shut s ≡ false
      → is_decided s ≡ false
      → Moves s t

-- What one command makes of a row: a new version, in the same status or moved.
pub record IsNext (before after : DecisionCase) : Type 0 where
  pub id : after.id ≡ before.id
  pub organization : after.organization_id ≡ before.organization_id
  pub version : after.version ≡ before.version + 1
  pub status : (after.status ≡ before.status) ⊎ Moves before.status after.status

-- A row that is new: a draft in its first version.
pub record IsFirst (c : DecisionCase) : Type 0 where
  pub status : c.status ≡ draft
  pub version : c.version ≡ 1

-- The specification of one command: every case afterwards is as it was, is the next version of what
-- it was, or is a new draft.
abbrev pub Evolves : List DecisionCase → List DecisionCase → Type 0
Evolves before after =
    (c : DecisionCase)
    → Memᴰ c after
    → Memᴰ c before ⊎ (((b : DecisionCase) × Memᴰ b before × IsNext b c) ⊎ IsFirst c)

pub Evolves-same : (cases after : List DecisionCase) → after ≡ cases → Evolves cases after
Evolves-same cases after same c m = inl (rw same at m)

pub Evolves-update :
    (p : DecisionCase → Bool) (f : DecisionCase → DecisionCase) (cases : List DecisionCase)
    → ((b : DecisionCase) → Memᴰ b cases → p b ≡ true → IsNext b (f b))
    → Evolves cases (update_where p f cases)
Evolves-update p f cases steps c m =
    let (b, listed, made) = Memᴰ-update_where p f cases c m in
    elim (Bool-cases (p b)) [
      | inl met ↦
          let at_b : c ≡ f b = rw met at made in inr (inl (b, listed, rw at_b (steps b listed met)))
      | inr other ↦ let at_b : c ≡ b = rw other at made in inl (rw at_b listed)
    ]

pub Evolves-append :
    (cases : List DecisionCase) (new : DecisionCase)
    → IsFirst new
    → Evolves cases (cases ++ new ∷ [])
Evolves-append cases new first c m = elim (Memᴰ-append cases m) [
  | inl old ↦ inl old
  | inr same ↦ inr (inr (rw same first))
]

pub IsNext-touch : (call : Call) (b : DecisionCase) → IsNext b (touch_row call b)
IsNext-touch call b = record { id = refl; organization = refl; version = refl; status = inl refl }

-- A sequence of changes.
pub data Reaches (s : CaseStatus) : CaseStatus → Type 0 where
  here : Reaches s s
  next : {t u : CaseStatus} → Reaches s t → Moves t u → Reaches s u

Moves_final : {s t : CaseStatus} → Moves s t → is_final s ≡ false
Moves_final opened = refl
Moves_final (ended s h) = h
Moves_final (synced s t a b c) = final_parts s b c
  where
    final_parts : (s : CaseStatus) → is_shut s ≡ false → is_decided s ≡ false → is_final s ≡ false
    final_parts draft b c = refl
    final_parts open_case b c = refl
    final_parts CaseStatus.evidence_collection b c = refl
    final_parts CaseStatus.under_review b c = refl
    final_parts CaseStatus.decision_pending b c = refl
    final_parts decided b c = cc
    final_parts closed b c = cc
    final_parts cancelled b c = cc

-- A case that is decided, closed or cancelled stays so, whatever commands follow.
pub Reaches-final : {s t : CaseStatus} → is_final s ≡ true → Reaches s t → t ≡ s
Reaches-final h here = refl
Reaches-final h (next r step) =
    let same = Reaches-final h r in let running = Moves_final step in absurd (cc (ap is_final same))
