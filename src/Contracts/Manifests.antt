-- ===== src/Contracts/Manifests.antt =====
-- The manifests and the create request of contracts.rs, and the JSON values of the settings
-- schemas. The fields of an object stand as they are written.
use document_studio.Base.{ℕ, String, Bool, false, List, [], ◌∷◌, map}
use document_studio.Base.Text.{Text}
use document_studio.Contracts.OperationStage.{OperationStage}

mutual
  pub data Value : Type 0 where
    bool : Bool → Value
    number : ℕ → Value
    string : String → Value
    array : Items → Value
    object : Fields → Value

  pub data Items : Type 0 where
    nil : Items
    cons : Value → Items → Items

  pub data Fields : Type 0 where
    end : Fields
    field : String → Value → Fields → Fields

abbrev pub items : List Value → Items
items [] = nil
items (v ∷ vs) = cons v (items vs)

abbrev pub fields : List (String × Value) → Fields
fields [] = end
fields ((k, v) ∷ kvs) = field k v (fields kvs)

-- The shape of every settings schema with properties: the required names, then the properties.
abbrev pub closed_object : List String → List (String × Value) → Value
closed_object required properties = object (
    fields (
      ("type", string "object")
      ∷ ("additionalProperties", bool false)
      ∷ ("required", array (items (map string required)))
      ∷ ("properties", object (fields properties))
      ∷ []))

abbrev pub integer_between : ℕ → ℕ → Value
integer_between minimum maximum = object (
    fields
      (("type", string "integer") ∷ ("minimum", number minimum) ∷ ("maximum", number maximum) ∷ []))

pub record OperationInputs : Type 0 where
  pub accepted_mime_types : List String
  pub minimum : ℕ
  pub maximum : ℕ
  pub allow_directories : Bool

pub record OperationOutputs : Type 0 where
  pub mime_type : String
  pub multiplicity : String

pub record OperationManifest : Type 0 where
  pub id : String
  pub version : String
  pub name : String
  pub category : String
  pub description : String
  pub risk : String
  pub locality : String
  pub inputs : OperationInputs
  pub settings_schema : Value
  pub outputs : OperationOutputs
  pub dependencies : List String
  pub verification : List String
  pub stages : List OperationStage

pub record JobsCreateRequest : Type 0 where
  pub operation_id : String
  pub input_paths : List String
  pub destination_directory : String
  pub requested_output_name : Text
