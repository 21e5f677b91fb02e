-- ===== src/Drawing/Schema/Laws.antt =====
-- The validation functions of utils/drawingSchema.ts on any data and on valid data.
use aiautomation.Common.{
  subst, some_inj, ℕ, ◌+◌, String, ◌≡◌, refl, ◌⊎◌, inl, inr, some, List, [], ◌∷◌, map, map_values,
  All, ◌≢◌,
}
use aiautomation.Drawing.{Drawing, Drawings}
use aiautomation.Drawing.Schema.{
  Entry, Unknown, object, Parsed, success, failure, Export, IsWellFormed, AllWellFormed, Zod,
  encode_map, validate_list, keep_nonempty, validate_entries, validate_drawings_map,
  validate_drawings_export,
}

module _ {A : Type 0} where
  pub Parsed-cases :
      (r : Parsed A) → ((a : A) × (r ≡ success a)) ⊎ ((is : List String) × (r ≡ failure is))
  Parsed-cases (success a) = inl (a, refl)
  Parsed-cases (failure is) = inr (is, refl)

-- Every list under a key holds something.
abbrev pub NoEmptyList : {N : Type 0} → Drawings N → Type 0
NoEmptyList m = All (λ e. e.1 ≢ []) m

module _ {N V : Type 0} (zod : Zod N V) where
  validate_list-IsWellFormed :
      (key : String) (i : ℕ) (vs : List V) → All IsWellFormed (validate_list zod key i vs).0
  unfolding validate_list
  validate_list-IsWellFormed key i [] = tt
  validate_list-IsWellFormed key i (v ∷ vs) = elim (Parsed-cases (zod.safe_parse v)) [
    | inl (d, e) ↦
        rw (e, validate_list) (zod.parse_refined v e, validate_list-IsWellFormed key (i + 1) vs)
    | inr ([], e) ↦ rw (e, validate_list) (validate_list-IsWellFormed key (i + 1) vs)
    | inr (m ∷ ms, e) ↦ rw (e, validate_list) (validate_list-IsWellFormed key (i + 1) vs)
  ]

  keep_nonempty-good :
      (key : String) (ds : List (Drawing N)) (m : Drawings N)
      → All IsWellFormed ds
      → AllWellFormed m × NoEmptyList m
      → AllWellFormed (keep_nonempty zod key ds m) × NoEmptyList (keep_nonempty zod key ds m)
  unfolding keep_nonempty
  keep_nonempty-good key [] m h k = k
  keep_nonempty-good key (d ∷ ds) m h k = ((h, k.0), ((λ e. cc), k.1))

  validate_entries-good :
      (es : List (String × Entry V))
      → AllWellFormed (validate_entries zod es).0 × NoEmptyList (validate_entries zod es).0
  unfolding validate_entries
  validate_entries-good [] = (tt, tt)
  validate_entries-good ((key, Entry.not_array) ∷ rest) = validate_entries-good rest
  validate_entries-good ((key, Entry.array vs) ∷ rest) =
      keep_nonempty-good key _ _ (validate_list-IsWellFormed key 0 vs) (validate_entries-good rest)

  -- Whatever the data, each drawing that validation lets through has an id, a symbol and the number
  -- of points of its tool, and no key is left with an empty list.
  pub validate_drawings_map-IsWellFormed :
      (u : Unknown V)
      → AllWellFormed (validate_drawings_map zod u).0 × NoEmptyList (validate_drawings_map zod u).0
  unfolding validate_drawings_map
  validate_drawings_map-IsWellFormed (object es) = validate_entries-good es
  validate_drawings_map-IsWellFormed _ = (tt, tt)

  validate_list_complete :
      (key : String) (i : ℕ) (ds : List (Drawing N))
      → All IsWellFormed ds
      → validate_list zod key i (map zod.encode ds) ≡ (ds, [])
  unfolding validate_list
  validate_list_complete key i [] h = refl
  validate_list_complete key i (d ∷ ds) h =
      rw (zod.parse_complete d h.0, validate_list, validate_list_complete key (i + 1) ds h.1)

  validate_entries_complete :
      (m : Drawings N)
      → AllWellFormed m
      → NoEmptyList m
      → validate_entries zod (map_values (λ ds. Entry.array (map zod.encode ds)) m) ≡ (m, [])
  unfolding validate_entries keep_nonempty map_values
  validate_entries_complete [] h k = refl
  validate_entries_complete ((key, []) ∷ m) h k = absurd (k.0 refl)
  validate_entries_complete ((key, d ∷ ds) ∷ m) h k =
      rw (validate_list_complete key 0 (d ∷ ds) h.0, validate_entries_complete m h.1 k.1)

  -- Validation gives back a map of well-formed drawings with no empty list as it is, with no error.
  pub validate_drawings_map_complete :
      (m : Drawings N)
      → AllWellFormed m
      → NoEmptyList m
      → validate_drawings_map zod (encode_map zod.encode m) ≡ (m, [])
  unfolding validate_drawings_map
  validate_drawings_map_complete m h k = validate_entries_complete m h k

  -- An export whose lists are not empty is read back as it was written.
  pub validate_drawings_export-json :
      (e : Export N)
      → AllWellFormed e.drawings
      → NoEmptyList e.drawings
      → validate_drawings_export zod (zod.json e) ≡ (some e, [])
  unfolding validate_drawings_export
  validate_drawings_export-json e h k = rw (
    zod.export_complete e h,
    validate_drawings_export,
    validate_drawings_map_complete e.drawings h k,
  )

  -- So an accepted export holds well-formed drawings only.
  pub validate_drawings_export-IsWellFormed :
      (v : Unknown V) {e : Export N}
      → (validate_drawings_export zod v).0 ≡ some e
      → AllWellFormed e.drawings
  unfolding validate_drawings_export
  validate_drawings_export-IsWellFormed v {e} h = elim (Parsed-cases (zod.safe_parse_export v)) [
    | inl (x, p) ↦
        subst (λ y. AllWellFormed y.drawings) (some_inj (rw (p, validate_drawings_export) at h))
          (validate_drawings_map-IsWellFormed _).0
    | inr (is, p) ↦ cc (rw (p, validate_drawings_export) at h)
  ]
