-- ===== src/Audit/Csv.antt =====
-- The rows of an export (`protectCsvCell` and `csvRow` of audit-crypto.ts). A text is the list of
-- its UTF-16 code units; a value is `null` or `undefined` (`none`), or its `String(value)`.
use team_nivaran.Common.{
  ℕ, ◌≡◌, ◌∙◌, inl, inr, refl, sym, ap, Bool, true, false, not, ◌||◌, Option, none, some, List, [],
  ◌∷◌, ◌++◌, map, eqb, eqb_iff, Bool-cases, if◌then◌else◌,
}
use team_nivaran.Common.Lists.{all}
use mathlib.Core.List.{append_assoc, append-nil}
use mathlib.Core.Option

abbrev pub Text : Type 0
Text = List ℕ

abbrev quote : ℕ
quote = b'"'

abbrev comma : ℕ
comma = b','

abbrev apostrophe : ℕ
apostrophe = b'\''

-- `/^[=+\-@\t\r]/`.
abbrev pub starts_formula : Text → Bool
starts_formula [] = false
starts_formula (c ∷ rest) =
    eqb c b'=' || eqb c b'+' || eqb c b'-' || eqb c b'@' || eqb c 9 || eqb c 13

abbrev text_of : Option Text → Text
text_of none = []
text_of (some text) = text

unfoldable pub protect_csv_cell : Option Text → Text
protect_csv_cell value =
    let text = text_of value in if starts_formula text then apostrophe ∷ text else text

-- `replaceAll('"', '""')`.
abbrev pub double_quotes : Text → Text
double_quotes [] = []
double_quotes (c ∷ rest) =
    let doubled = double_quotes rest in if eqb c quote then quote ∷ quote ∷ doubled else c ∷ doubled

abbrev pub quoted : Text → Text
quoted text = quote ∷ (double_quotes text ++ quote ∷ [])

-- `join(",")`.
abbrev pub join_comma : List Text → Text
join_comma [] = []
join_comma (cell ∷ []) = cell
join_comma (cell ∷ next ∷ cells) = cell ++ comma ∷ join_comma (next ∷ cells)

unfoldable pub csv_row : List (Option Text) → Text
csv_row values = join_comma (map (λ value. quoted (protect_csv_cell value)) values)

-- Where a reader of RFC 4180 stands: before a cell, in a cell, or after a quote in it.
pub data Position : Type 0 where
  opening inside closing : Position

-- The quoted cells of a row; the last argument is the cell that has been read so far.
unfoldable pub read_cells : Text → Position → Text → Option (List Text)
read_cells [] closing cell = some (cell ∷ [])
read_cells [] opening cell = none
read_cells [] inside cell = none
read_cells (c ∷ rest) opening cell = elim (eqb c quote) [
  | true ↦ read_cells rest inside []
  | false ↦ none
]
read_cells (c ∷ rest) inside cell = elim (eqb c quote) [
  | true ↦ read_cells rest closing cell
  | false ↦ read_cells rest inside (cell ++ c ∷ [])
]
read_cells (c ∷ rest) closing cell = elim (eqb c quote) [
  | true ↦ read_cells rest inside (cell ++ quote ∷ [])
  | false ↦ elim (eqb c comma) [
    | true ↦ Option.map (λ cells. cell ∷ cells) (read_cells rest opening [])
    | false ↦ none
  ]
]

read_cells-double_quotes :
    (text rest cell : Text)
    → read_cells (double_quotes text ++ quote ∷ rest) inside cell
      ≡ read_cells rest closing (cell ++ text)
unfolding read_cells
read_cells-double_quotes [] rest cell = rw append-nil refl
read_cells-double_quotes (c ∷ text) rest cell = elim (Bool-cases (eqb c quote)) [
  | inl met ↦
      let same : c ≡ quote = (eqb_iff c quote).0 met in
      rw met (
        read_cells-double_quotes text rest (cell ++ quote ∷ [])
        ∙ ap (read_cells rest closing) (append_assoc cell (quote ∷ []) text)
        ∙ ap (λ (d : ℕ). read_cells rest closing (cell ++ d ∷ text)) (sym same))
  | inr other ↦
      rw (other, read_cells, other)
        (read_cells-double_quotes text rest (cell ++ c ∷ [])
          ∙ ap (read_cells rest closing) (append_assoc cell (c ∷ []) text))
]

read_cells-quoted :
    (text rest : Text) → read_cells (quoted text ++ rest) opening [] ≡ read_cells rest closing text
unfolding read_cells
read_cells-quoted text rest =
    ap (λ t. read_cells t inside []) (append_assoc (double_quotes text) (quote ∷ []) rest)
    ∙ read_cells-double_quotes text rest []

read_cells-join_comma :
    (text : Text) (texts : List Text)
    → read_cells (join_comma (map quoted (text ∷ texts))) opening [] ≡ some (text ∷ texts)
unfolding read_cells
read_cells-join_comma text [] =
    ap (λ t. read_cells t opening []) (sym (append-nil (quoted text))) ∙ read_cells-quoted text []
read_cells-join_comma text (next ∷ texts) =
    read_cells-quoted text (comma ∷ join_comma (map quoted (next ∷ texts)))
    ∙ ap (Option.map (λ (cells : List Text). text ∷ cells)) (read_cells-join_comma next texts)

protect_csv_cell-is_plain : (value : Option Text) → starts_formula (protect_csv_cell value) ≡ false
unfolding protect_csv_cell
protect_csv_cell-is_plain none = refl
protect_csv_cell-is_plain (some text) = elim (Bool-cases (starts_formula text)) [
  | inl met ↦ rw (met, starts_formula) refl
  | inr other ↦ rw (other) other
]

map-quoted :
    (values : List (Option Text))
    → map (λ (value : Option Text). quoted (protect_csv_cell value)) values
      ≡ map quoted (map protect_csv_cell values)
map-quoted [] = refl
map-quoted (value ∷ values) =
    ap (λ rest. quoted (protect_csv_cell value) ∷ rest) (map-quoted values)

protected_plain :
    (values : List (Option Text))
    → all (λ (cell : Text). not (starts_formula cell)) (map protect_csv_cell values) ≡ true
protected_plain [] = refl
protected_plain (value ∷ values) = rw (protect_csv_cell-is_plain value, protected_plain values) refl

-- A reader of RFC 4180 gets back the protected cells of a row with at least one value, whatever
-- quotes, commas and line breaks they hold, and none of these cells starts like a formula.
pub read_cells-csv_row :
    (value : Option Text) (values : List (Option Text))
    → (read_cells (csv_row (value ∷ values)) opening []
        ≡ some (map protect_csv_cell (value ∷ values)))
      × (all (λ (cell : Text). not (starts_formula cell)) (map protect_csv_cell (value ∷ values))
          ≡ true)
unfolding csv_row
read_cells-csv_row value values = (
  ap (λ (cells : List Text). read_cells (join_comma cells) opening []) (map-quoted (value ∷ values))
      ∙ read_cells-join_comma (protect_csv_cell value) (map protect_csv_cell values),
  protected_plain (value ∷ values),
)
