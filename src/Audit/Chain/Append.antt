-- ===== src/Audit/Chain/Append.antt =====
-- That new records keep the chain of their organization verified.
use team_nivaran.Common.{
  ℕ, ◌+◌, ◌<◌, String, ◌≡◌, ◌∙◌, refl, sym, subst, ap, inl, inr, true, Option, none, some, List, [],
  ◌∷◌, ◌++◌, Memᴰ, arith, ◌==◌, eq_self, Bool-cases, Option-cases,
}
use mathlib.Core.Option
use team_nivaran.Audit.Model.{AuditRecord, Db, Client, Event, Platform}
use team_nivaran.Audit.Chain.{
  same_hash, audit_record_hash, is_linked, find_broken, linked, event_record, append,
  append_control_record,
}
use team_nivaran.Audit.Chain.Tamper.{last_hash}

abbrev pub last_row : List AuditRecord → Option AuditRecord
last_row [] = none
last_row (r ∷ []) = some r
last_row (r ∷ s ∷ rows) = last_row (s ∷ rows)

-- How the database orders the records of an organization: the last one is that of the ascending
-- order, and a record that came in after all of them stands after them.
pub record IsOrdered (prisma : Client) : Type 0 where
  pub last :
      (organization : String) (rows : List AuditRecord)
      → prisma.find_last organization rows ≡ last_row (prisma.find_ordered organization rows)
  pub added :
      (organization : String) (rows : List AuditRecord) (r : AuditRecord)
      → r.organization_id ≡ organization
      → ((s : AuditRecord)
          → Memᴰ s (prisma.find_ordered organization rows)
          → s.ingested_at < r.ingested_at)
      → prisma.find_ordered organization (rows ++ r ∷ [])
        ≡ prisma.find_ordered organization rows ++ r ∷ []

same_hash_self : (o : Option String) → same_hash o o ≡ true
same_hash_self none = refl
same_hash_self (some hash) = eq_self hash

module _ (platform : Platform) where
  last_hash-last_row :
      (rows : List AuditRecord)
      → last_hash platform none rows
        ≡ Option.map (λ (r : AuditRecord). r.record_hash) (last_row rows)
  last_hash-last_row [] = refl
  last_hash-last_row (r ∷ []) = refl
  last_hash-last_row (r ∷ s ∷ rows) = last_hash-last_row (s ∷ rows)

  linked_after :
      (previous : Option AuditRecord) (r : AuditRecord)
      → is_linked platform
          (Option.map (λ (p : AuditRecord). p.record_hash) previous)
          (linked platform previous r)
        ≡ true
  unfolding audit_record_hash
  linked_after previous r =
      let hash = Option.map (λ (p : AuditRecord). p.record_hash) previous in
      let chained = linked platform previous r in
      rw (same_hash_self hash, eq_self chained.record_hash) refl

  find_broken_append :
      (previous : Option String) (i : ℕ) (rows : List AuditRecord) (r : AuditRecord)
      → find_broken platform previous i rows ≡ none
      → is_linked platform (last_hash platform previous rows) r ≡ true
      → find_broken platform previous i (rows ++ r ∷ []) ≡ none
  unfolding find_broken
  find_broken_append previous i [] r whole met = rw met refl
  find_broken_append previous i (s ∷ rows) r whole met =
      elim (Bool-cases (is_linked platform previous s)) [
        | inr broken ↦ absurd (ground arith)
        | inl kept ↦
            rw kept (find_broken_append (some s.record_hash) (i + 1) rows r (ground arith) met)
      ]

  module _ (prisma : Client) (ordered : IsOrdered prisma) where
    -- The chain of an organization, without a broken record.
    abbrev pub IsWhole : String → List AuditRecord → Type 0
    IsWhole organization rows =
        find_broken platform none 0 (prisma.find_ordered organization rows) ≡ none

    linked-IsWhole :
        (organization : String) (rows : List AuditRecord) (r : AuditRecord)
        → r.organization_id ≡ organization
        → IsWhole organization rows
        → ((s : AuditRecord)
            → Memᴰ s (prisma.find_ordered organization rows)
            → s.ingested_at < r.ingested_at)
        → IsWhole organization (rows ++ linked platform (prisma.find_last organization rows) r ∷ [])
    linked-IsWhole organization rows r own whole newest =
        let row = linked platform (prisma.find_last organization rows) r in
        let ends = ordered.last organization rows in
        let hash =
          last_hash-last_row (prisma.find_ordered organization rows)
          ∙ ap (Option.map (λ (p : AuditRecord). p.record_hash)) (sym ends) in
        let met : is_linked platform
              (last_hash platform none (prisma.find_ordered organization rows)) row
            ≡ true =
          rw hash (linked_after (prisma.find_last organization rows) r) in
        rw (ordered.added organization rows row own newest)
          (find_broken_append none 0 (prisma.find_ordered organization rows) row whole met)

    -- Both ways of adding a record, an event that is consumed and a control record, keep the chain
    -- of the record's organization without a broken record, where the record comes in after all
    -- others of the organization.
    pub append-IsWhole :
        (e : Event) (topic : String) (partition offset : ℕ) (id : String) (now : ℕ)
        (r : AuditRecord) (db : Db)
        → r.organization_id ≡ e.organization_id
        → r.ingested_at ≡ now
        → IsWhole e.organization_id db.records
        → ((s : AuditRecord)
            → Memᴰ s (prisma.find_ordered e.organization_id db.records)
            → s.ingested_at < now)
        → IsWhole e.organization_id
            (append platform prisma e topic partition offset id now db).records
          × IsWhole e.organization_id (append_control_record platform prisma r db).records
    unfolding append append_control_record
    append-IsWhole e topic partition offset id now r db own time whole newest = (
      elim (Option-cases
          (prisma.record_table.find_first (λ k. k.event_id == e.event_id) db.records)) [
            | inr (existing, found) ↦ rw (append, found) whole
            | inl new ↦
                rw (append, new)
                  (linked-IsWhole e.organization_id db.records
                    (event_record platform e topic partition offset id now) refl whole newest)
          ],
      subst
          (λ (o : String).
            IsWhole e.organization_id
              (db.records ++ linked platform (prisma.find_last o db.records) r ∷ []))
          (sym own)
          (linked-IsWhole e.organization_id db.records r own whole (λ s m. rw time (newest s m))),
    )
