-- ===== src/OutputNames/Collision.antt =====
-- `collision_name` of apps/desktop/src-tauri/src/publication.rs, with what `Path::file_stem` and
-- `Path::extension` give for a path of one component.
pub mod Parts
pub mod Distinct
pub mod Extension
use document_studio.Base.{ℕ, List, [], ◌∷◌, ◌++◌, Option, none, some, if◌then◌else◌, ◌==◌}
use document_studio.Base.Text.{Text, codes, text_eq}
use document_studio.OutputNames.Decimal.{decimal}

-- The text before the last dot and the text after it.
unfoldable pub last_dot : Text → Option (Text × Text)
last_dot [] = none
last_dot (c ∷ s) = elim (last_dot s) [
  | some (before, after) ↦ some (c ∷ before, after)
  | none ↦ if c == b'.' then some ([], s) else none
]

-- The stem and the extension, from the two sides of the last dot: a dot in front belongs to the
-- stem.
abbrev pub sides : Text → Option (Text × Text) → Text × Option Text
sides name none = (name, none)
sides name (some ([], after)) = (name, none)
sides name (some (c ∷ before, after)) = (c ∷ before, some after)

unfoldable pub split_file_name : Text → Text × Option Text
split_file_name name =
    if text_eq name (codes "..") then (name, none) else sides name (last_dot name)

-- ` ({attempt})`, and what follows it.
unfoldable pub counter : ℕ → Text → Text
counter attempt rest = codes " (" ++ (decimal attempt ++ (b')' ∷ rest))

unfoldable pub numbered : Text × Option Text → ℕ → Text
numbered (stem, none) attempt = stem ++ counter attempt []
numbered (stem, some []) attempt = stem ++ counter attempt []
numbered (stem, some (c ∷ ext)) attempt = stem ++ counter attempt (b'.' ∷ c ∷ ext)

unfoldable pub collision_name : Text → ℕ → Text
collision_name requested_name attempt =
    if attempt == 0 then requested_name else numbered (split_file_name requested_name) attempt
