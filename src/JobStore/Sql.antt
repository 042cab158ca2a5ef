-- ===== src/JobStore/Sql.antt =====
-- SQL statements as functions on the rows of a table.
use document_studio.Base.{
  ℕ, ◌+◌, String, Bool, true, false, not, List, [], ◌∷◌, Option, none, some, str_eq, Result, ok,
  ◌>>=◌, ◌>>◌, refuse_if, if◌then◌else◌,
}
use document_studio.JobStore.Tables.{DatabaseError, sqlite}

-- `UPDATE … SET … WHERE …`: the rows afterwards and how many were changed. A new row that breaks a
-- `CHECK` fails the statement.
unfoldable pub update {ℓ} :
    {A : Type ℓ} → (A → Bool) → (A → Bool) → (A → A) → List A → Result DatabaseError (List A × ℕ)
update is_valid where_clause set [] = ok ([], 0)
update is_valid where_clause set (row ∷ rows) = do
  (others, changed) ← update is_valid where_clause set rows
  refuse_if (if where_clause row then not (is_valid (set row)) else false) sqlite
  ok (
    (if where_clause row then set row else row) ∷ others,
    if where_clause row then changed + 1 else changed,
  )

-- `SELECT … WHERE …` of one row, made optional.
unfoldable pub query_row {ℓ} : {A : Type ℓ} → (A → Bool) → List A → Option A
query_row where_clause [] = none
query_row where_clause (row ∷ rows) =
    if where_clause row then some row else query_row where_clause rows

-- `column = value`, which `NULL` does not satisfy.
abbrev pub equals : Option String → String → Bool
equals none value = false
equals (some column) value = str_eq column value

-- `(value IS NULL AND column IS NULL) OR column = value`.
abbrev pub matches : Option String → Option String → Bool
matches none none = true
matches (some column) none = false
matches none (some value) = false
matches (some column) (some value) = str_eq column value
