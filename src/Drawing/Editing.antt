-- ===== src/Drawing/Editing.antt =====
-- What single edits of store/drawingStore.ts do to the map of drawings.
use aiautomation.Common.{
  String, ◌==◌, eq_iff, ◌≡◌, ◌≢◌, refl, ap, subst, not, Option, none, some, List, [], ◌∷◌, ◌++◌,
  map, Bool-cases, inl, inr, lookup, map_values, lookup-insert, All, filter-All, or_else, arith,
  if◌then◌else◌, ne_of_test, same_id,
}
use mathlib.Core.Bool.{not-not}
use aiautomation.Drawing.{
  Drawing, DrawingType, horizontal_line, trendline, fibonacci, DrawingPoint, Drawings,
}
use aiautomation.Drawing.Keys.{drawing_key, split_last, drawing_key-split_key}
use aiautomation.Drawing.State.{App, push_history}
use aiautomation.Drawing.Store.{
  remove_by_id, remove_drawing, append_drawing, update_by_id, toggle_lock,
}
use aiautomation.Drawing.Transfer.{Arith, translate, move_two, paste_points, paste, pasted}

deselected : (id : String) (o : Option String) → (if same_id o id then none else o) ≢ some id
deselected id none h = cc
deselected id (some t) h = ground (arith, eq_iff t id)

module _ {N : Type 0} where
  remove_by_id-ne :
      (id : String) (m : Drawings N) → All (λ e. All (λ d. d.id ≢ id) e.1) (remove_by_id id m)
  unfolding remove_by_id map_values
  remove_by_id-ne id [] = tt
  remove_by_id-ne id ((k, ds) ∷ m) = (
    filter-All (λ d. d.id ≢ id) _ ds (λ d h. ne_of_test d.id id (ground arith)),
    remove_by_id-ne id m,
  )

  -- After a removal no chart holds a drawing with the id, and it is not the selected one.
  pub remove_drawing_gone :
      (id : String) (a : App N)
      → All (λ e. All (λ d. d.id ≢ id) e.1) (remove_drawing id a).drawings
        × ((remove_drawing id a).selected ≢ some id)
  unfolding remove_drawing push_history
  remove_drawing_gone id a = (remove_by_id-ne id a.drawings, deselected id a.selected)

  -- A drawing goes to the end of the list of its chart.
  lookup-append_drawing :
      (d : Drawing N) (j : String) (m : Drawings N)
      → lookup j (append_drawing d m) ≡ (
          if drawing_key d.symbol d.timeframe == j
          then some (or_else (lookup (drawing_key d.symbol d.timeframe) m) [] ++ d ∷ [])
          else lookup j m)
  unfolding append_drawing
  lookup-append_drawing d j m = lookup-insert (drawing_key d.symbol d.timeframe) j _ m

  flip : Drawing N → Drawing N
  flip d = record d { locked = not d.locked }

  flip_twice :
      (id : String) (ds : List (Drawing N))
      → map (λ d. if d.id == id then flip d else d) (map (λ d. if d.id == id then flip d else d) ds)
        ≡ ds
  unfolding flip
  flip_twice id [] = refl
  flip_twice id (d ∷ ds) = elim (Bool-cases (d.id == id)) [
    | inl e ↦ simp (e, not-not, flip_twice id ds)
    | inr e ↦ rw (e, e, flip_twice id ds)
  ]

  update_by_id-flip_twice :
      (id : String) (m : Drawings N) → update_by_id id flip (update_by_id id flip m) ≡ m
  unfolding update_by_id map_values
  update_by_id-flip_twice id [] = refl
  update_by_id-flip_twice id ((k, ds) ∷ m) =
      rw (flip_twice id ds) (ap (λ t. (k, ds) ∷ t) (update_by_id-flip_twice id m))

  -- Locking and unlocking a drawing gives back the drawings.
  pub toggle_lock_twice :
      (id : String) (a : App N) → (toggle_lock id (toggle_lock id a)).drawings ≡ a.drawings
  unfolding toggle_lock flip
  toggle_lock_twice id a = update_by_id-flip_twice id a.drawings

module _ {N : Type 0} (num : Arith N) where
  -- A horizontal line goes to the crosshair, two points of another tool move so that the first stands
  -- there, and any other points stay.
  abbrev pub at_crosshair : DrawingType → N → N → List (DrawingPoint N) → List (DrawingPoint N)
  at_crosshair horizontal_line time price ps = record { time = time; price = price } ∷ []
  at_crosshair _ time price (q ∷ r ∷ []) =
      map
        (λ x. record {
          time = num.add x.time (num.sub time q.time);
          price = num.add x.price (num.sub price q.price);
        })
        (q ∷ r ∷ [])
  at_crosshair _ time price ps = ps

  -- A copy of a drawing for the chart of a key: a new id, the points at the crosshair, and all else
  -- as it was.
  abbrev pub IsCopy : String → String → N → N → Drawing N → Drawing N → Type 0
  IsCopy uuid key price time d p =
      (p.id ≡ uuid)
      × (drawing_key p.symbol p.timeframe ≡ key)
      × (p.type ≡ d.type)
      × (p.color ≡ d.color)
      × (p.visible ≡ d.visible)
      × (p.locked ≡ d.locked)
      × (p.label ≡ d.label)
      × (p.options ≡ d.options)
      × (p.points ≡ at_crosshair d.type time price d.points)

  paste_points-at_crosshair :
      (t : DrawingType) (time price : N) (ps : List (DrawingPoint N))
      → paste_points num t time price ps ≡ at_crosshair t time price ps
  unfolding paste_points move_two translate
  paste_points-at_crosshair horizontal_line time price ps = refl
  paste_points-at_crosshair trendline time price [] = refl
  paste_points-at_crosshair trendline time price (q ∷ []) = refl
  paste_points-at_crosshair trendline time price (q ∷ r ∷ []) = refl
  paste_points-at_crosshair trendline time price (q ∷ r ∷ x ∷ xs) = refl
  paste_points-at_crosshair fibonacci time price [] = refl
  paste_points-at_crosshair fibonacci time price (q ∷ []) = refl
  paste_points-at_crosshair fibonacci time price (q ∷ r ∷ []) = refl
  paste_points-at_crosshair fibonacci time price (q ∷ r ∷ x ∷ xs) = refl

  pasted-IsCopy :
      (uuid key : String) (price time : N) (d : Drawing N)
      → split_last key ≢ none
      → IsCopy uuid key price time d (pasted num uuid key price time d)
  unfolding pasted
  pasted-IsCopy uuid key price time d u = (
    refl,
    drawing_key-split_key key u,
    refl,
    refl,
    refl,
    refl,
    refl,
    refl,
    paste_points-at_crosshair d.type time price d.points,
  )

  -- A paste puts a copy of the clipboard's drawing behind the drawings of the chart that the key
  -- names, and leaves the other charts alone. The copy has the new id and the chart's symbol and
  -- timeframe, its points are at the crosshair, and all else is as in the drawing. The key has an underscore, as
  -- every key of a chart.
  pub lookup-paste :
      (uuid key : String) (price time : N) (d : Drawing N) (a : App N)
      → a.clipboard ≡ some d
      → split_last key ≢ none
      → (p : Drawing N) × IsCopy uuid key price time d p
        × ((j : String)
            → lookup j (paste num uuid key price time a).drawings ≡ (
                if key == j
                then some (or_else (lookup key a.drawings) [] ++ p ∷ [])
                else lookup j a.drawings))
  unfolding paste
  lookup-paste uuid key price time d a c u =
      let p = pasted num uuid key price time d in
      (
        p,
        pasted-IsCopy uuid key price time d u,
        λ j.
            rw (c, paste)
              (subst
                (λ k. lookup j (append_drawing p a.drawings) ≡ (
                  if k == j
                  then some (or_else (lookup k a.drawings) [] ++ p ∷ [])
                  else lookup j a.drawings))
                (drawing_key-split_key key u) (lookup-append_drawing p j a.drawings)),
      )
