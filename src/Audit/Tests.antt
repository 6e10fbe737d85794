-- ===== src/Audit/Tests.antt =====
-- Runs of the audit service, with a platform whose JSON texts and hashes do not collide.
pub mod Encoding
use Prim.Native.Char.{code}
use team_nivaran.Common.{
  ℕ, ◌+◌, ◌/◌, ◌<◌, ◌≤◌, if◌then◌else◌, String, ◌≡◌, ◌∙◌, refl, ap, ◌⊎◌, inl, inr, Bool, true,
  false, not, ◌&&◌, ◌||◌, Option, none, some, List, [], ◌∷◌, ◌++◌, map, Memᴰ, arith, ◌==◌, eq_self,
  ltb, leb, truncate, Bool-cases,
}
use team_nivaran.Common.Lists.{select, all, Memᴰ-cons}
use team_nivaran.Common.ListTable.{list_table}
use team_nivaran.Audit.Json.{
  Json, null, bool, num, str, obj, Fields, end, field, lookup, fields_of, canonical_value,
}
use team_nivaran.Audit.Patterns.{Outcome, success, infer_outcome, infer_classification, is_blocked}
use team_nivaran.Audit.Sanitize.{
  sanitize_value, sanitize_audit_metadata, is_bounded, sanitize_audit_metadata_bounded,
}
use team_nivaran.Audit.Csv.{
  Text, Position, opening, starts_formula, protect_csv_cell, csv_row, read_cells,
  read_cells-csv_row,
}
use team_nivaran.Audit.Model.{AuditRecord, Db, Client, Event, Platform, IsInjective}
use team_nivaran.Audit.Chain.{
  Verdict, verified, audit_record_hash, find_broken, verify_rows, linked, control_record, append,
  append_control_record,
}
use team_nivaran.Audit.Chain.Tamper.{AllSame, verify_rows-AllSame}
use team_nivaran.Audit.Chain.Append.{last_row, IsOrdered, IsWhole, append-IsWhole}
use team_nivaran.Audit.Cursor.{
  Codec, CursorInput, IsCodec, encoded, encode_cursor, decode_cursor, decode_cursor-encode_cursor,
}
use team_nivaran.Common.Results.{Result, ok, err, internal}
use team_nivaran.Audit.Search.{Sort, Filters, Boundary, Page, is_after, search}
use team_nivaran.Audit.Search.Pages.{IsOrder, IsQuery, rows_from, rows_next, search-rows_from}
use team_nivaran.Audit.Chain.{take_rows}
use team_nivaran.Audit.Tests.Encoding.{
  first_code, encode, encode_injective, binary, binary_injective,
}

abbrev platform : Platform
platform = record {
  before = λ left right. ltb (first_code left) (first_code right);
  stringify = encode;
  sha256 = λ text. text;
  iso = λ time. "2026-01-01T00:00:00.000Z";
  digits = binary;
}

injective : IsInjective platform
injective = record { stringify = encode_injective; sha256 = λ a b h. h; digits = binary_injective }

abbrev opened : AuditRecord
opened = linked platform none (
    control_record platform "o" "u" "audit.report.requested" "Report" "r" success
      (obj (field "a" (str "1") (field "b" (str "2") end))) "c" "id-1" "e-1" 0 5)

abbrev closed : AuditRecord
closed = linked platform (some opened) (
    control_record platform "o" "u" "audit.report.completed" "Report" "r" success (obj end) "c"
      "id-2" "e-2" 0 9)

-- The first record with the keys of its metadata in another order.
abbrev reordered : AuditRecord
reordered = record opened { metadata = obj (field "b" (str "2") (field "a" (str "1") end)) }

verified_lem : verify_rows platform (opened ∷ closed ∷ []) ≡ verified 2 (some "id-1") (some "id-2")
unfolding verify_rows find_broken audit_record_hash canonical_value
verified_lem = refl

reordered_lem :
    verify_rows platform (reordered ∷ closed ∷ []) ≡ verified 2 (some "id-1") (some "id-2")
unfolding verify_rows find_broken audit_record_hash canonical_value
reordered_lem = refl

tamper_example : AllSame platform (opened ∷ closed ∷ []) (reordered ∷ closed ∷ [])
tamper_example =
    verify_rows-AllSame platform injective (opened ∷ closed ∷ []) (reordered ∷ closed ∷ []) 2
      (some "id-1") (some "id-1") (some "id-2") (some "id-2") verified_lem reordered_lem refl

abbrev of_organization : String → List AuditRecord → List AuditRecord
of_organization organization rows = select (λ r. r.organization_id == organization) rows

-- Records in the order in which they came in.
abbrev client : Client
client = record {
  record_table = list_table "r";
  checkpoint_table = list_table "c";
  quarantine_table = list_table "q";
  find_ordered = of_organization;
  find_last = λ organization rows. last_row (of_organization organization rows);
}

select-append :
    (p : AuditRecord → Bool) (rows : List AuditRecord) (r : AuditRecord)
    → p r ≡ true
    → select p (rows ++ r ∷ []) ≡ select p rows ++ r ∷ []
select-append p [] r h = rw h refl
select-append p (s ∷ rows) r h = elim (Bool-cases (p s)) [
  | inl met ↦ rw met (ap (λ rest. s ∷ rest) (select-append p rows r h))
  | inr other ↦ rw other (select-append p rows r h)
]

ordered : IsOrdered client
ordered = record {
  last = λ organization rows. refl;
  added = λ organization rows r own newest.
      select-append (λ s. s.organization_id == organization) rows r (rw own (eq_self organization));
}

abbrev event : Event
event = record {
  event_id = "e-3";
  event_type = "evidence.version.available";
  event_version = "1.0";
  occurred_at = 8;
  correlation_id = "c";
  causation_id = none;
  producer = "evidence-service";
  organization_id = "o";
  actor_type = "SYSTEM";
  actor_id = "worker";
  aggregate_type = "EvidenceAsset";
  aggregate_id = "a";
  payload = obj (field "api_token" (str "x") (field "caseId" (str "k") end));
}

abbrev db : Db
db = record { records = opened ∷ []; checkpoints = []; quarantined = [] }

whole : IsWhole platform client ordered "o" db.records
unfolding find_broken audit_record_hash canonical_value
whole = refl

newest : (s : AuditRecord) → Memᴰ s (client.find_ordered "o" db.records) → s.ingested_at < 9
newest s m = elim (Memᴰ-cons m) [ inl e ↦ rw e (omega arith) | inr k ↦ elim k [ ] ]

append_example :
    IsWhole platform client ordered "o"
      (append platform client event "cdep.evidence.events.v1" 0 7 "id-3" 9 db).records
    × IsWhole platform client ordered "o" (append_control_record platform client closed db).records
append_example =
    append-IsWhole platform client ordered event "cdep.evidence.events.v1" 0 7 "id-3" 9 closed db
      refl refl whole newest

sanitize_test : sanitize_audit_metadata event.payload ≡ obj (field "caseId" (str "k") end)
unfolding sanitize_audit_metadata sanitize_value is_blocked truncate
sanitize_test = refl

sanitize_example : is_bounded 5 (sanitize_audit_metadata event.payload) ≡ true
sanitize_example = sanitize_audit_metadata_bounded event.payload

abbrev cell : Option Text
cell = some (b'=' ∷ b'"' ∷ b',' ∷ [])

csv_example :
    (read_cells (csv_row (cell ∷ none ∷ [])) opening []
      ≡ some (map protect_csv_cell (cell ∷ none ∷ [])))
    × (all (λ (c : Text). not (starts_formula c)) (map protect_csv_cell (cell ∷ none ∷ [])) ≡ true)
csv_example = read_cells-csv_row cell (none ∷ [])

abbrev cursor_input : CursorInput
cursor_input = record {
  organization_id = "o";
  filters_hash = "h";
  occurred_at = "2026-01-01";
  id = "r";
}

abbrev signed : Codec
signed = record {
  to_base64url = λ text. text;
  of_base64url = λ text. text;
  hmac = λ secret body. secret;
  parse = λ text. err (internal "Unexpected token");
  number = λ text. 905;
}

-- A parser that knows one text.
abbrev codec : Codec
codec = record signed {
  parse = λ text.
      if text == encode (encoded platform signed cursor_input 905)
      then ok (encoded platform signed cursor_input 905)
      else err (internal "Unexpected token");
}

codec-IsCodec : IsCodec platform codec cursor_input "secret" 905
unfolding canonical_value
codec-IsCodec = record {
  base64url = refl;
  json = refl;
  numbers = refl;
  body_filled = refl;
  body_plain = refl;
  signature_filled = refl;
  signature_plain = refl;
}

cursor_example :
    (decode_cursor platform codec
        (encode_cursor platform codec cursor_input "secret" 900 5000)
        "o"
        "h"
        "secret"
        7000
      ≡ (if cursor_input.organization_id == "o"
            && cursor_input.filters_hash == "h"
            && leb (7000 / 1000) (5000 / 1000 + 900)
          then ok (encoded platform codec cursor_input (5000 / 1000 + 900))
          else err (internal "CURSOR_INVALID")))
    × (lookup "occurredAt" (fields_of (encoded platform codec cursor_input (5000 / 1000 + 900)))
        ≡ some (str cursor_input.occurred_at))
    × (lookup "id" (fields_of (encoded platform codec cursor_input (5000 / 1000 + 900)))
        ≡ some (str cursor_input.id))
cursor_example =
    decode_cursor-encode_cursor platform codec cursor_input "o" "h" "secret" 900 5000 7000
      codec-IsCodec

-- An order of ids in which none stands before another: the records differ in their times.
abbrev no_order : String → String → Bool
no_order a b = false

no_order-IsOrder : IsOrder no_order
no_order-IsOrder = record {
  irreflexive = λ a. refl;
  asymmetric = λ a b h. refl;
  transitive = λ a b c h k. cc;
}

abbrev no_text : String → String → Bool
no_text column text = false

abbrev by_insertion : Sort → List AuditRecord → List AuditRecord
by_insertion sort rows = rows

abbrev find_many : (AuditRecord → Bool) → Sort → ℕ → List AuditRecord → List AuditRecord
find_many q sort n rows = take_rows n (select q rows)

abbrev all_records : Filters
all_records = record {
  from_time = none;
  to_time = none;
  event_type = none;
  source_service = none;
  outcome = none;
  classification = none;
  resource_type = none;
  resource_id = none;
  correlation_id = none;
  text = none;
  sort = Sort.occurred_asc;
}

two_records-IsQuery :
    IsQuery no_order no_text no_order-IsOrder find_many by_insertion Sort.occurred_asc
      (opened ∷ closed ∷ [])
unfolding is_after
two_records-IsQuery = record { found = λ q n. refl; sorted = ((refl, tt), (tt, tt)) }

search_example :
    rows_from no_order no_text no_order-IsOrder find_many by_insertion "o" all_records none
      (opened ∷ closed ∷ [])
    ≡ (search no_order no_text find_many "o" all_records 1 none (opened ∷ closed ∷ [])).items
      ++ rows_next no_order no_text no_order-IsOrder find_many by_insertion "o" all_records
          (search no_order no_text find_many "o" all_records 1 none (opened ∷ closed ∷ [])).next
          (opened ∷ closed ∷ [])
search_example =
    search-rows_from no_order no_text no_order-IsOrder find_many by_insertion "o" all_records 0 none
      (opened ∷ closed ∷ []) two_records-IsQuery
