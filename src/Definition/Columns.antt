-- ===== src/Definition/Columns.antt =====
-- The input keys of table columns: `table_column_input_key` and `parse_table_column_input_key` of
-- app/domain/definitions/table_fields.py.
use Prim.Native.String.{String, [], ◌∷◌, ◌++◌}
use workfllow_execution.Prelude.{◌≡◌, refl, ◌≢◌, ap, ◌∙◌, inl, inr, true, if◌then◌else◌}
use workfllow_execution.Prelude.{ℕ, zero, suc, Option, none, some, ◌==◌, eq_iff, Bool-cases}
use text.Mathlib.Text.{starts_with}
use text.Mathlib.TextEquality.{starts_with_iff}
use Prim.Native.String.append

-- `s[n:]`
from_index : ℕ → String → String
from_index zero s = s
from_index (suc n) [] = []
from_index (suc n) (c ∷ s) = from_index n s

unfoldable pub table_column_input_key : String → String
table_column_input_key column_id = "column:" ++ column_id

unfoldable pub parse_table_column_input_key : String → Option String
unfolding from_index
parse_table_column_input_key input_key =
    if starts_with input_key "column:"
    then (let column_id = from_index 7 input_key in
        if column_id == "" then none else some column_id)
    else none

-- `len(s)`
chars : String → ℕ
chars [] = 0
chars (c ∷ s) = suc (chars s)

from_index-append : (s t : String) → from_index (chars s) (s ++ t) ≡ t
unfolding from_index chars
from_index-append [] t = append.nil t
from_index-append (c ∷ s) t =
    ap (from_index (suc (chars s))) (append.cons c s t) ∙ from_index-append s t

-- Reading the key of a column gives the column, unless its id is empty.
pub parse-table_column_input_key :
    (column_id : String)
    → column_id ≢ ""
    → parse_table_column_input_key (table_column_input_key column_id) ≡ some column_id
unfolding parse_table_column_input_key table_column_input_key chars
parse-table_column_input_key column_id h =
    let prefix : starts_with ("column:" ++ column_id) "column:" ≡ true =
      (starts_with_iff ("column:" ++ column_id) "column:").1 (column_id, refl) in
    let rest : from_index 7 ("column:" ++ column_id) ≡ column_id =
      from_index-append "column:" column_id in
    rw (prefix, rest)
      (elim (Bool-cases (column_id == "")) [
        | inl e ↦ absurd (h ((eq_iff column_id "").0 e))
        | inr e ↦ rw e
      ])
