-- ===== src/Drawing/RoundTrip.antt =====
-- Export and import of store/drawingStore.ts: what an export brings back, and what an import of the
-- store's own export changes.
use aiautomation.Common.{
  ◌==◌, eq_refl, ◌≡◌, refl, ap, sym, ◌∙◌, Bool, true, not, none, some, List, [], ◌∷◌, ◌++◌,
  append-nil, append_assoc, lookup, insert, insert-eq_self, insert_new, lookup-All_self,
  lookup-none-insert, Distinct, All, filter, any, arith,
}
use aiautomation.Drawing.{Drawing, Drawings}
use aiautomation.Drawing.Schema.{Zod, AllWellFormed}
use aiautomation.Drawing.Schema.Laws.{NoEmptyList, validate_drawings_export-json}
use aiautomation.Drawing.State.{App}
use aiautomation.Drawing.Transfer.{Arith, merge, import_drawings, export_drawings}

module _ {N : Type 0} where
  -- `existing.some((x) => x.id === d.id)`
  abbrev has_id : List (Drawing N) → Drawing N → Bool
  has_id ds d = any (λ x. x.id == d.id) ds

  filter-nil :
      (ds es : List (Drawing N))
      → All (λ d. has_id ds d ≡ true) es
      → filter (λ d. not (has_id ds d)) es ≡ []
  filter-nil ds [] h = refl
  filter-nil ds (e ∷ es) h = rw (h.0) (filter-nil ds es h.1)

  has_id-cons :
      (d : Drawing N) (ds es : List (Drawing N))
      → All (λ e. has_id ds e ≡ true) es
      → All (λ e. has_id (d ∷ ds) e ≡ true) es
  has_id-cons d ds [] h = tt
  has_id-cons d ds (e ∷ es) h = (ground arith, has_id-cons d ds es h.1)

  has_id_self : (ds : List (Drawing N)) → All (λ d. has_id ds d ≡ true) ds
  has_id_self [] = tt
  has_id_self (d ∷ ds) = (rw (eq_refl d.id), has_id-cons d ds ds (has_id_self ds))

  filter-none : (ds : List (Drawing N)) → filter (λ d. not (has_id [] d)) ds ≡ ds
  filter-none [] = refl
  filter-none (d ∷ ds) = ap (λ t. d ∷ t) (filter-none ds)

  -- Importing lists that the store holds already changes nothing.
  merge_self : (m rest : Drawings N) → All (λ e. lookup e.0 m ≡ some e.1) rest → merge m rest ≡ m
  unfolding merge
  merge_self m [] h = refl
  merge_self m ((k, ds) ∷ rest) h =
      rw (h.0, filter-nil ds ds (has_id_self ds), append-nil, insert-eq_self k ds m h.0)
        (merge_self m rest h.1)

  -- Importing into an empty store gives the imported map.
  merge_fresh :
      (m rest : Drawings N)
      → All (λ e. lookup e.0 m ≡ none) rest
      → Distinct rest
      → merge m rest ≡ m ++ rest
  unfolding merge
  merge_fresh m [] h d = sym (append-nil m)
  merge_fresh m ((k, ds) ∷ rest) h d =
      rw (h.0, filter-none ds)
        (merge_fresh (insert k ds m) rest (lookup-none-insert k ds m rest d.0 h.1) d.1
          ∙ ap (λ t. t ++ rest) (insert_new k ds m h.0)
          ∙ append_assoc m ((k, ds) ∷ []) rest)

  All-lookup_nil : (m : Drawings N) → All (λ e. lookup e.0 (let n : Drawings N = [] in n) ≡ none) m
  unfolding lookup
  All-lookup_nil [] = tt
  All-lookup_nil (e ∷ m) = (refl, All-lookup_nil m)

-- What an import does with an export, for drawings that pass the schema.
module _ {N V : Type 0} (num : Arith N) (zod : Zod N V) (a : App N)
    (good : AllWellFormed a.drawings) (full : NoEmptyList a.drawings)
    (keys : Distinct a.drawings) where
  drawings-import_drawings :
      (b : App N)
      → (import_drawings zod (some (zod.json (export_drawings num a))) b).0.drawings
        ≡ merge b.drawings a.drawings
  unfolding import_drawings export_drawings
  drawings-import_drawings b =
      rw (validate_drawings_export-json zod (export_drawings num a) good full, import_drawings)

  -- The export of a store whose drawings are well formed, whose lists are not empty and whose keys
  -- are distinct, imported into a store without drawings, brings back all drawings, in their places.
  pub import_drawings-export_drawings :
      (b : App N)
      → b.drawings ≡ []
      → (import_drawings zod (some (zod.json (export_drawings num a))) b).0.drawings ≡ a.drawings
  import_drawings-export_drawings b e =
      drawings-import_drawings b
      ∙ ap (λ m. merge m a.drawings) e
      ∙ merge_fresh [] a.drawings (All-lookup_nil a.drawings) keys

  -- The export of a store whose drawings are well formed, whose lists are not empty and whose keys
  -- are distinct changes no drawing when it is imported into that store again.
  pub import_drawings-export_drawings_self :
      (import_drawings zod (some (zod.json (export_drawings num a))) a).0.drawings ≡ a.drawings
  import_drawings-export_drawings_self =
      drawings-import_drawings a
      ∙ merge_self a.drawings a.drawings (lookup-All_self a.drawings keys)
