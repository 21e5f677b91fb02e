-- ===== src/Drawing/Schema.antt =====
-- utils/drawingSchema.ts. The schemas are built and run by the package zod, so `safeParse` of the
-- schema of one drawing and of the export schema are the fields of `Zod`, with what zod documents of
-- `refine`, `min(1)` and a parse of data that is complete already.
pub mod Laws
use aiautomation.Common.{
  ℕ, ◌+◌, String, ◌≡◌, ◌≢◌, Option, none, some, List, [], ◌∷◌, ◌++◌, map, length, map_values,
  or_else, All, Dict,
}
use aiautomation.Drawing.{Drawing, Drawings, point_count}

-- `unknown`, as far as the code looks into it: `V` is a value that only zod reads.
pub data Entry (V : Type 0) : Type 0 where
  array : List V → Entry V
  not_array : Entry V

pub data Unknown (V : Type 0) : Type 0 where
  falsy : Unknown V
  scalar : Unknown V
  array : Unknown V
  object : List (String × Entry V) → Unknown V

-- What `safeParse` returns; an issue is its message.
pub data Parsed (A : Type 0) : Type 0 where
  success : A → Parsed A
  failure : List String → Parsed A

pub data SchemaError : Type 0 where
  not_an_object : SchemaError
  key_not_array : String → SchemaError
  invalid_at : String → ℕ → String → SchemaError
  issue : String → SchemaError

pub record Export (N : Type 0) : Type 0 where
  pub version : N
  pub drawings : Drawings N

-- What the schema demands beyond the types of the fields.
module _ {N : Type 0} where
  pub record IsWellFormed (d : Drawing N) : Type 0 where
    pub has_id : d.id ≢ ""
    pub has_symbol : d.symbol ≢ ""
    pub has_points : length d.points ≡ point_count d.type

  abbrev pub AllWellFormed : Drawings N → Type 0
  AllWellFormed m = All (λ e. All IsWellFormed e.1) m

module _ {N V : Type 0} (encode : Drawing N → V) where
  abbrev pub encode_map : Drawings N → Unknown V
  encode_map m = object (map_values (λ ds. array (map encode ds)) m)

-- `encode` is the JSON value of a drawing, and `json` that of an export.
pub record Zod (N V : Type 0) : Type 0 where
  pub safe_parse : V → Parsed (Drawing N)
  pub safe_parse_export : Unknown V → Parsed (Export N)
  pub encode : Drawing N → V
  pub json : Export N → Unknown V
  pub parse_refined : (v : V) {d : Drawing N} → safe_parse v ≡ success d → IsWellFormed d
  pub parse_complete : (d : Drawing N) → IsWellFormed d → safe_parse (encode d) ≡ success d
  pub export_complete :
      (e : Export N) → AllWellFormed e.drawings → safe_parse_export (json e) ≡ success e

module _ {N V : Type 0} (zod : Zod N V) where
  -- the inner loop: the valid drawings of an array and the errors, with their indices
  validate_list : String → ℕ → List V → List (Drawing N) × List SchemaError
  validate_list key i [] = ([], [])
  validate_list key i (v ∷ vs) =
      let (ds, errors) = validate_list key (i + 1) vs in
      elim (zod.safe_parse v) [
        | success d ↦ (d ∷ ds, errors)
        | failure [] ↦ (ds, invalid_at key i "unknown error" ∷ errors)
        | failure (m ∷ _) ↦ (ds, invalid_at key i m ∷ errors)
      ]

  -- `valid[key] = …` unless no drawing of the array is valid
  keep_nonempty : String → List (Drawing N) → Drawings N → Drawings N
  keep_nonempty key [] valid = valid
  keep_nonempty key (d ∷ ds) valid = (key, d ∷ ds) ∷ valid

  -- the outer loop, over the entries of an object, whose keys are distinct
  validate_entries : List (String × Entry V) → Drawings N × List SchemaError
  validate_entries [] = ([], [])
  validate_entries ((key, not_array) ∷ rest) =
      let (valid, errors) = validate_entries rest in (valid, key_not_array key ∷ errors)
  validate_entries ((key, array vs) ∷ rest) =
      let (valid, errors) = validate_entries rest in
      let (ds, errs) = validate_list key 0 vs in (keep_nonempty key ds valid, errs ++ errors)

  unfoldable pub validate_drawings_map : Unknown V → Drawings N × List SchemaError
  unfolding validate_entries validate_list keep_nonempty
  validate_drawings_map (object entries) = validate_entries entries
  validate_drawings_map _ = ([], not_an_object ∷ [])

  -- `validateDrawingsExport`
  unfoldable pub validate_drawings_export : Unknown V → Option (Export N) × List SchemaError
  validate_drawings_export v = elim (zod.safe_parse_export v) [
    | success e ↦
        let (valid, errors) = validate_drawings_map (encode_map zod.encode e.drawings) in
        (some (record { version = e.version; drawings = valid }), errors)
    | failure issues ↦ (none, map issue issues)
  ]

  -- `validateDrawing`
  pub validate_drawing : V → Option (Drawing N)
  validate_drawing v = elim (zod.safe_parse v) [ success d ↦ some d | failure _ ↦ none ]
