-- ===== src/Drawing/Points.antt =====
-- The invariant that types/drawing.ts states of a drawing's points, kept by the whole store.
use aiautomation.Common.{
  some_inj, Option, none, String, ◌==◌, ◌≡◌, subst, some, List, [], ◌∷◌, map, length, Bool-cases,
  Option-cases, inl, inr, lookup, insert, map_values, All, All-append, All-filter, All-drop,
  All-drop_last, get_last?-All, find-All, All-imp, get_last?, or_else, if◌then◌else◌, find,
}
use aiautomation.Drawing.{Drawing, Drawings, point_count}
use aiautomation.Drawing.Schema.{AllWellFormed}
use aiautomation.Drawing.State.{set_drawings, DrawingState, App, edit, push_history}
use aiautomation.Drawing.Store.{append_drawing, update_by_id, remove_by_id, undo_state, redo_state}
use aiautomation.Drawing.Transfer.{find_drawing, copy_selected, merge}

module _ {N : Type 0} where
  -- One point for a horizontal line, two for the other tools.
  abbrev pub HasPoints : Drawing N → Type 0
  HasPoints d = length d.points ≡ point_count d.type

  abbrev pub AllPoints : Drawings N → Type 0
  AllPoints m = All (λ e. All HasPoints e.1) m

  abbrev pub CopyHasPoints : Option (Drawing N) → Type 0
  CopyHasPoints none = Unit
  CopyHasPoints (some d) = HasPoints d

  -- What the store holds and what it can bring back.
  pub record IsPointed (s : DrawingState N) : Type 0 where
    pub shown : AllPoints s.drawings
    pub undoable : All AllPoints s.undo_stack
    pub redoable : All AllPoints s.redo_stack
    pub copied : CopyHasPoints s.clipboard

  pub AllPoints-lookup :
      (k : String) (m : Drawings N) → AllPoints m → All HasPoints (or_else (lookup k m) [])
  unfolding lookup
  AllPoints-lookup k [] h = tt
  AllPoints-lookup k ((j, ds) ∷ m) h = elim (Bool-cases (j == k)) [
    | inl e ↦ rw e h.0
    | inr e ↦ rw e (AllPoints-lookup k m h.1)
  ]

  pub AllPoints-insert :
      (k : String) (ds : List (Drawing N)) (m : Drawings N)
      → All HasPoints ds
      → AllPoints m
      → AllPoints (insert k ds m)
  unfolding insert
  AllPoints-insert k ds [] h a = (h, tt)
  AllPoints-insert k ds ((j, es) ∷ m) h a = elim (Bool-cases (j == k)) [
    | inl e ↦ rw e (h, a.1)
    | inr e ↦ rw e (a.0, AllPoints-insert k ds m h a.1)
  ]

  pub AllPoints-append_drawing :
      (d : Drawing N) (m : Drawings N) → HasPoints d → AllPoints m → AllPoints (append_drawing d m)
  unfolding append_drawing
  AllPoints-append_drawing d m h a =
      AllPoints-insert _ _ m (All-append HasPoints _ (d ∷ []) (AllPoints-lookup _ m a) (h, tt)) a

  pub AllPoints-update_by_id :
      (id : String) (f : Drawing N → Drawing N) (m : Drawings N)
      → ((d : Drawing N) → HasPoints d → HasPoints (f d))
      → AllPoints m
      → AllPoints (update_by_id id f m)
  unfolding update_by_id map_values
  AllPoints-update_by_id id f [] g a = tt
  AllPoints-update_by_id id f ((k, ds) ∷ m) g a = (each ds a.0, AllPoints-update_by_id id f m g a.1)
    where
      each :
          (ds : List (Drawing N))
          → All HasPoints ds
          → All HasPoints (map (λ d. if d.id == id then f d else d) ds)
      each [] h = tt
      each (d ∷ ds) h = elim (Bool-cases (d.id == id)) [
        | inl e ↦ rw e (g d h.0, each ds h.1)
        | inr e ↦ rw e (h.0, each ds h.1)
      ]

  pub AllPoints-remove_by_id :
      (id : String) (m : Drawings N) → AllPoints m → AllPoints (remove_by_id id m)
  unfolding remove_by_id map_values
  AllPoints-remove_by_id id [] a = tt
  AllPoints-remove_by_id id ((k, ds) ∷ m) a =
      (All-filter HasPoints _ ds a.0, AllPoints-remove_by_id id m a.1)

  pub AllPoints-merge :
      (m rest : Drawings N) → AllPoints m → AllPoints rest → AllPoints (merge m rest)
  unfolding merge
  AllPoints-merge m [] a b = a
  AllPoints-merge m ((k, ds) ∷ rest) a b =
      AllPoints-merge (insert k _ m) rest
        (AllPoints-insert k _ m
          (All-append HasPoints _ _ (AllPoints-lookup k m a) (All-filter HasPoints _ ds b.0)) a)
        b.1

  pub AllPoints_of_AllWellFormed : (m : Drawings N) → AllWellFormed m → AllPoints m
  AllPoints_of_AllWellFormed m = All-imp m (λ e. All-imp e.1 (λ d h. h.has_points))

  pub push_history-IsPointed : (s : DrawingState N) → IsPointed s → IsPointed (push_history s)
  unfolding push_history
  push_history-IsPointed s h = record {
    shown = h.shown;
    undoable =
        All-drop AllPoints _ _ (All-append AllPoints s.undo_stack _ h.undoable (h.shown, tt));
    redoable = tt;
    copied = h.copied;
  }

  -- An edit whose change keeps the points, and leaves the history and the clipboard alone.
  pub edit-IsPointed :
      (change : DrawingState N → DrawingState N) (a : App N)
      → ((s : DrawingState N) → IsPointed s → IsPointed (change s))
      → IsPointed a.state
      → IsPointed (edit change a).state
  unfolding edit
  edit-IsPointed change a f h =
      let k = f (push_history a.state) (push_history-IsPointed a.state h) in
      record { shown = k.shown; undoable = k.undoable; redoable = k.redoable; copied = k.copied }

  pub set_drawings-IsPointed :
      (s : DrawingState N) (m : Drawings N)
      → AllPoints m
      → IsPointed s
      → IsPointed (set_drawings m s)
  set_drawings-IsPointed s m a h = record {
    shown = a;
    undoable = h.undoable;
    redoable = h.redoable;
    copied = h.copied;
  }

  pub undo_state-IsPointed : (s : DrawingState N) → IsPointed s → IsPointed (undo_state s)
  unfolding undo_state
  undo_state-IsPointed s h = elim (Option-cases (get_last? s.undo_stack)) [
    | inl e ↦ rw (e, undo_state) h
    | inr (m, e) ↦
        rw (e, undo_state)
          (record {
            shown = get_last?-All AllPoints s.undo_stack h.undoable e;
            undoable = All-drop_last AllPoints s.undo_stack h.undoable;
            redoable = All-append AllPoints s.redo_stack _ h.redoable (h.shown, tt);
            copied = h.copied;
          })
  ]

  pub redo_state-IsPointed : (s : DrawingState N) → IsPointed s → IsPointed (redo_state s)
  unfolding redo_state
  redo_state-IsPointed s h = elim (Option-cases (get_last? s.redo_stack)) [
    | inl e ↦ rw (e, redo_state) h
    | inr (m, e) ↦
        rw (e, redo_state)
          (record {
            shown = get_last?-All AllPoints s.redo_stack h.redoable e;
            redoable = All-drop_last AllPoints s.redo_stack h.redoable;
            undoable = All-append AllPoints s.undo_stack _ h.undoable (h.shown, tt);
            copied = h.copied;
          })
  ]

  pub find_drawing-HasPoints :
      (id : String) (m : Drawings N) {d : Drawing N}
      → AllPoints m
      → find_drawing id m ≡ some d
      → HasPoints d
  unfolding find_drawing
  find_drawing-HasPoints id [] a e = cc
  find_drawing-HasPoints id ((k, ds) ∷ m) {d} a e =
      elim (Option-cases (find (λ d. d.id == id) ds)) [
        | inl f ↦ find_drawing-HasPoints id m a.1 (rw (f, find_drawing) at e)
        | inr (x, f) ↦
            subst HasPoints (some_inj (rw (f, find_drawing) at e))
              (find-All HasPoints (λ d. d.id == id) ds a.0 f)
      ]

  pub clipboard_IsPointed :
      (s : DrawingState N) (d : Drawing N)
      → HasPoints d
      → IsPointed s
      → IsPointed (record s { clipboard = some d })
  clipboard_IsPointed s d p h = record {
    shown = h.shown;
    undoable = h.undoable;
    redoable = h.redoable;
    copied = p;
  }

  pub copy_selected-IsPointed : (s : DrawingState N) → IsPointed s → IsPointed (copy_selected s)
  unfolding copy_selected
  copy_selected-IsPointed s h = elim (Option-cases s.selected) [
    | inl e ↦ rw (e, copy_selected) h
    | inr (id, e) ↦ elim (Bool-cases (id == "")) [
      | inl t ↦ rw (e, copy_selected, t) h
      | inr t ↦ elim (Option-cases (find_drawing id s.drawings)) [
        | inl f ↦ rw (e, copy_selected, t, f) h
        | inr (d, f) ↦
            rw (e, copy_selected, t, f)
              (clipboard_IsPointed s d (find_drawing-HasPoints id s.drawings h.shown f) h)
      ]
    ]
  ]
