-- ===== src/Drawing/PointsKept.antt =====
-- Every action of store/drawingStore.ts keeps the number of points of each drawing.
use aiautomation.Common.{
  ℕ, String, ◌≡◌, refl, subst, ◌∙◌, sym, Option, none, some, List, [], ◌∷◌, length, Option-cases,
  inl, inr, All, Bool, true, false,
}
use aiautomation.Drawing.{
  Drawing, DrawingType, horizontal_line, trendline, fibonacci, DrawingPoint, point_count,
}
use aiautomation.Drawing.Schema.{Unknown, Zod, validate_drawings_export}
use aiautomation.Drawing.Schema.Laws.{
  validate_drawings_export-IsWellFormed, validate_drawings_map-IsWellFormed,
}
use aiautomation.Drawing.State.{
  DrawingState, App, fire, settle, flush_save, Callback, save, reset_status,
}
use aiautomation.Drawing.Store.{
  Updates, apply_updates, add_drawing, update_drawing, remove_drawing, clear_drawings, toggle_lock,
  undo_state, redo_state, undo, redo, set_active_tool,
}
use aiautomation.Drawing.Transfer.{
  Arith, paste_points, pasted, paste, load_drawings, import_drawings,
}
use aiautomation.Drawing.History.{Edit, adds, updates, removes, clears, make}
use aiautomation.Drawing.Steps.{
  Action, edits, toggles, undoes, redoes, copies, flushes, pastes, imports, loads, picks_tool,
  selects, colors, fires, settles, step, run,
}
use aiautomation.Drawing.Points.{
  CopyHasPoints, HasPoints, IsPointed, AllPoints-insert, AllPoints-append_drawing,
  AllPoints-update_by_id, AllPoints-remove_by_id, AllPoints-merge, AllPoints_of_AllWellFormed,
  edit-IsPointed, set_drawings-IsPointed, undo_state-IsPointed, redo_state-IsPointed,
  copy_selected-IsPointed,
}
use aiautomation.Drawing.Store.{adding, updating, removing, clearing}
use aiautomation.Drawing.Transfer.{importing, move_two}

module _ {N V : Type 0} where
  -- New drawings come with the points of their tool, and an update changes neither tool nor points.
  abbrev pub Admissible : Action N V → Type 0
  Admissible (edits (adds d)) = HasPoints d
  Admissible (edits (updates id u)) = (u.type ≡ none) × (u.points ≡ none)
  Admissible _ = Unit

module _ {N : Type 0} where
  apply_updates-HasPoints :
      (u : Updates N) (d : Drawing N)
      → (u.type ≡ none) × (u.points ≡ none)
      → HasPoints d
      → HasPoints (apply_updates u d)
  unfolding apply_updates
  apply_updates-HasPoints u d e h = rw (e.0, e.1) h

  make-IsPointed :
      (e : Edit N) (a : App N)
      → Admissible {V = N} (edits e)
      → IsPointed a.state
      → IsPointed (make e a).state
  unfolding make add_drawing update_drawing remove_drawing clear_drawings
  make-IsPointed (adds d) a p h =
      edit-IsPointed (adding d) a
        (λ s k. set_drawings-IsPointed s _ (AllPoints-append_drawing d s.drawings p k.shown) k) h
  make-IsPointed (updates id u) a p h =
      edit-IsPointed (updating id u) a
        (λ s k.
          set_drawings-IsPointed s _
            (AllPoints-update_by_id id (apply_updates u) s.drawings
              (λ d. apply_updates-HasPoints u d p) k.shown)
            k)
        h
  make-IsPointed (removes id) a p h =
      edit-IsPointed (removing id) a
        (λ s k. record {
          shown = AllPoints-remove_by_id id s.drawings k.shown;
          undoable = k.undoable;
          redoable = k.redoable;
          copied = k.copied;
        })
        h
  make-IsPointed (clears key) a p h =
      edit-IsPointed (clearing key) a
        (λ s k. record {
          shown = AllPoints-insert key [] s.drawings tt k.shown;
          undoable = k.undoable;
          redoable = k.redoable;
          copied = k.copied;
        })
        h

  -- A state that shows, remembers and holds the same drawings.
  same_drawings-IsPointed :
      (s t : DrawingState N)
      → t.drawings ≡ s.drawings
      → t.undo_stack ≡ s.undo_stack
      → t.redo_stack ≡ s.redo_stack
      → t.clipboard ≡ s.clipboard
      → IsPointed s
      → IsPointed t
  same_drawings-IsPointed s t d u r c h = record {
    shown = rw d h.shown;
    undoable = rw u h.undoable;
    redoable = rw r h.redoable;
    copied = subst CopyHasPoints (sym c) h.copied;
  }

  toggle_lock-IsPointed :
      (id : String) (a : App N) → IsPointed a.state → IsPointed (toggle_lock id a).state
  unfolding toggle_lock
  toggle_lock-IsPointed id a h = record {
    shown = AllPoints-update_by_id id _ a.drawings (λ d p. p) h.shown;
    undoable = h.undoable;
    redoable = h.redoable;
    copied = h.copied;
  }

  undo-IsPointed : (a : App N) → IsPointed a.state → IsPointed (undo a).state
  unfolding undo
  undo-IsPointed a h =
      let k = undo_state-IsPointed a.state h in
      same_drawings-IsPointed (undo_state a.state) _ refl refl refl refl k

  redo-IsPointed : (a : App N) → IsPointed a.state → IsPointed (redo a).state
  unfolding redo
  redo-IsPointed a h =
      let k = redo_state-IsPointed a.state h in
      same_drawings-IsPointed (redo_state a.state) _ refl refl refl refl k

  flush_save-IsPointed : (a : App N) → IsPointed a.state → IsPointed (flush_save a).0.state
  unfolding flush_save
  flush_save-IsPointed a h = elim (Option-cases a.save_timer) [
    | inl e ↦ rw (e, flush_save) h
    | inr (t, e) ↦ rw (e, flush_save) (same_drawings-IsPointed a.state _ refl refl refl refl h)
  ]

  fire-IsPointed : (t : ℕ × Callback) (a : App N) → IsPointed a.state → IsPointed (fire t a).state
  unfolding fire
  fire-IsPointed (t, save) a h = same_drawings-IsPointed a.state _ refl refl refl refl h
  fire-IsPointed (t, reset_status) a h = same_drawings-IsPointed a.state _ refl refl refl refl h

  settle-IsPointed :
      (n : ℕ) (ok : Bool) (a : App N) → IsPointed a.state → IsPointed (settle n ok a).state
  unfolding settle
  settle-IsPointed n true a h = same_drawings-IsPointed a.state _ refl refl refl refl h
  settle-IsPointed n false a h = same_drawings-IsPointed a.state _ refl refl refl refl h

module _ {N : Type 0} (num : Arith N) where
  move_two-length :
      (time price : N) (ps : List (DrawingPoint N))
      → length (move_two num time price ps) ≡ length ps
  unfolding move_two
  move_two-length time price [] = refl
  move_two-length time price (p ∷ []) = refl
  move_two-length time price (p ∷ q ∷ []) = refl
  move_two-length time price (p ∷ q ∷ r ∷ ps) = refl

module _ {N V : Type 0} (num : Arith N) (zod : Zod N V) where
  paste_points-length :
      (t : DrawingType) (time price : N) (ps : List (DrawingPoint N))
      → length ps ≡ point_count t
      → length (paste_points num t time price ps) ≡ point_count t
  unfolding paste_points
  paste_points-length horizontal_line time price ps h = refl
  paste_points-length trendline time price ps h = move_two-length num time price ps ∙ h
  paste_points-length fibonacci time price ps h = move_two-length num time price ps ∙ h

  paste-IsPointed :
      (uuid key : String) (price time : N) (a : App N)
      → IsPointed a.state
      → IsPointed (paste num uuid key price time a).state
  unfolding paste
  paste-IsPointed uuid key price time a h = elim (Option-cases a.clipboard) [
    | inl e ↦ rw (e, paste) h
    | inr (d, e) ↦
        rw (e, paste)
          (edit-IsPointed (adding (pasted num uuid key price time d)) a
            (λ s k.
              set_drawings-IsPointed s _
                (AllPoints-append_drawing (pasted num uuid key price time d) s.drawings
                  (paste_points-length d.type time price d.points (rw e at h.copied)) k.shown)
                k)
            h)
  ]

  import_drawings-IsPointed :
      (v : Option (Unknown V)) (a : App N)
      → IsPointed a.state
      → IsPointed (import_drawings zod v a).0.state
  unfolding import_drawings
  import_drawings-IsPointed none a h = h
  import_drawings-IsPointed (some v) a h = elim (Option-cases (validate_drawings_export zod v).0) [
    | inl e ↦ rw (e, import_drawings) h
    | inr (x, e) ↦
        rw (e, import_drawings)
          (edit-IsPointed (importing x.drawings) a
            (λ s k.
              set_drawings-IsPointed s _
                (AllPoints-merge s.drawings x.drawings k.shown
                  (AllPoints_of_AllWellFormed _ (validate_drawings_export-IsWellFormed zod v e)))
                k)
            h)
  ]

  load_drawings-IsPointed :
      (v : Unknown V) (s : DrawingState N) → IsPointed s → IsPointed (load_drawings zod v s)
  unfolding load_drawings
  load_drawings-IsPointed v s h = record {
    shown = AllPoints_of_AllWellFormed _ (validate_drawings_map-IsWellFormed zod v).0;
    undoable = tt;
    redoable = tt;
    copied = h.copied;
  }

  step-IsPointed :
      (x : Action N V) (a : App N)
      → Admissible x
      → IsPointed a.state
      → IsPointed (step num zod x a).state
  unfolding step set_active_tool
  step-IsPointed (edits (adds d)) a p h = make-IsPointed (adds d) a p h
  step-IsPointed (edits (updates id u)) a p h = make-IsPointed (updates id u) a p h
  step-IsPointed (edits (removes id)) a p h = make-IsPointed (removes id) a p h
  step-IsPointed (edits (clears key)) a p h = make-IsPointed (clears key) a p h
  step-IsPointed (toggles id) a p h = toggle_lock-IsPointed id a h
  step-IsPointed undoes a p h = undo-IsPointed a h
  step-IsPointed redoes a p h = redo-IsPointed a h
  step-IsPointed copies a p h = copy_selected-IsPointed a.state h
  step-IsPointed flushes a p h = flush_save-IsPointed a h
  step-IsPointed (pastes uuid key price time) a p h = paste-IsPointed uuid key price time a h
  step-IsPointed (imports v) a p h = import_drawings-IsPointed v a h
  step-IsPointed (loads v) a p h = load_drawings-IsPointed v a.state h
  step-IsPointed (picks_tool none) a p h = same_drawings-IsPointed a.state _ refl refl refl refl h
  step-IsPointed (picks_tool (some t)) a p h =
      same_drawings-IsPointed a.state _ refl refl refl refl h
  step-IsPointed (selects id) a p h = same_drawings-IsPointed a.state _ refl refl refl refl h
  step-IsPointed (colors c) a p h = same_drawings-IsPointed a.state _ refl refl refl refl h
  step-IsPointed (fires t) a p h = fire-IsPointed t a h
  step-IsPointed (settles n ok) a p h = settle-IsPointed n ok a h

  -- A drawing on a chart, in the history or on the clipboard always has the number of points of its
  -- tool, whatever is loaded or imported and in whatever order the actions come, if the drawings
  -- that are added have it and no update changes a drawing's tool or points.
  pub run-IsPointed :
      (xs : List (Action N V)) (a : App N)
      → All Admissible xs
      → IsPointed a.state
      → IsPointed (run num zod xs a).state
  unfolding run
  run-IsPointed [] a p h = h
  run-IsPointed (x ∷ xs) a p h = run-IsPointed xs (step num zod x a) p.1 (step-IsPointed x a p.0 h)
