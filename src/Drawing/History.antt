-- ===== src/Drawing/History.antt =====
-- Undo and redo of store/drawingStore.ts against the edits that they take back.
use aiautomation.Common.{
  ℕ, zero, suc, ◌+◌, ◌≤◌, String, ◌≡◌, refl, ap, ◌∙◌, inl, inr, ◌≢◌, none, some, List, [], ◌∷◌,
  ◌++◌, length, take_last, drop_last, get_last?, length-append, length-take_last, length-drop_last,
  take_last_all, get_last?-snoc, drop_last-snoc, get_last?-drop_last, get_last?-none,
  take_last-snoc, length_pos_of_get_last?, Option-cases, arith, min,
}
use aiautomation.Drawing.{Drawing, Drawings}
use aiautomation.Drawing.State.{
  DrawingState, App, max_history, set_state, schedule_save, push_history, edit,
}
use aiautomation.Drawing.Store.{
  adding, updating, removing, clearing, Updates, add_drawing, update_drawing, remove_drawing,
  clear_drawings, undo_state, redo_state, undo, redo,
}

module _ {N : Type 0} where
  -- The history of a state stays within its bound: both stacks together.
  abbrev pub IsBounded : DrawingState N → Type 0
  IsBounded s = length s.undo_stack + length s.redo_stack ≤ max_history

  pub push_history-IsBounded : (s : DrawingState N) → IsBounded (push_history s)
  unfolding push_history
  push_history-IsBounded s =
      omega (arith, length-take_last max_history (s.undo_stack ++ s.drawings ∷ []))

  length-push_history :
      (s : DrawingState N)
      → length (push_history s).undo_stack ≡ min max_history (length s.undo_stack + 1)
  unfolding push_history
  length-push_history s = omega (
    arith,
    length-take_last max_history (s.undo_stack ++ s.drawings ∷ []),
    length-append s.undo_stack (s.drawings ∷ []),
  )

  pub undo_state-IsBounded : (s : DrawingState N) → IsBounded s → IsBounded (undo_state s)
  unfolding undo_state
  undo_state-IsBounded s h = elim (Option-cases (get_last? s.undo_stack)) [
    | inl e ↦ rw (e, undo_state) h
    | inr (m, e) ↦
        rw (e, undo_state)
          (omega (
            arith,
            length-drop_last s.undo_stack,
            length_pos_of_get_last? s.undo_stack e,
            length-append s.redo_stack (s.drawings ∷ []),
          ))
  ]

  pub redo_state-IsBounded : (s : DrawingState N) → IsBounded s → IsBounded (redo_state s)
  unfolding redo_state
  redo_state-IsBounded s h = elim (Option-cases (get_last? s.redo_stack)) [
    | inl e ↦ rw (e, redo_state) h
    | inr (m, e) ↦
        rw (e, redo_state)
          (omega (
            arith,
            length-drop_last s.redo_stack,
            length_pos_of_get_last? s.redo_stack e,
            length-append s.undo_stack (s.drawings ∷ []),
          ))
  ]

  undo_state-some :
      (s : DrawingState N) {m : Drawings N}
      → get_last? s.undo_stack ≡ some m
      → undo_state s ≡ record s {
        drawings = m;
        undo_stack = drop_last s.undo_stack;
        redo_stack = s.redo_stack ++ s.drawings ∷ [];
        selected = none;
      }
  unfolding undo_state
  undo_state-some s e = rw (e, undo_state)

  redo_state-some :
      (s : DrawingState N) {m : Drawings N}
      → get_last? s.redo_stack ≡ some m
      → redo_state s ≡ record s {
        drawings = m;
        redo_stack = drop_last s.redo_stack;
        undo_stack = s.undo_stack ++ s.drawings ∷ [];
        selected = none;
      }
  unfolding redo_state
  redo_state-some s e = rw (e, redo_state)

  -- What undo takes from a history that an edit has just written.
  undo_state-push_history :
      (s t : DrawingState N)
      → t.undo_stack ≡ (push_history s).undo_stack
      → ((undo_state t).drawings ≡ s.drawings)
        × ((undo_state t).undo_stack ≡ take_last 49 s.undo_stack)
  unfolding push_history undo_state
  undo_state-push_history s t h =
      let e : t.undo_stack ≡ take_last 49 s.undo_stack ++ s.drawings ∷ [] =
        h ∙ take_last-snoc 49 s.undo_stack s.drawings in
      let last : get_last? t.undo_stack ≡ some s.drawings =
        ap get_last? e ∙ get_last?-snoc (take_last 49 s.undo_stack) s.drawings in
      (
        rw (last, undo_state),
        rw (last, undo_state)
            (ap drop_last e ∙ drop_last-snoc (take_last 49 s.undo_stack) s.drawings),
      )

  -- What a recorded edit leaves for undo: `change` may do anything but touch the history.
  undo-edit :
      (change : DrawingState N → DrawingState N)
      → ((s : DrawingState N) → (change s).undo_stack ≡ s.undo_stack)
      → (a : App N)
      → ((undo (edit change a)).drawings ≡ a.drawings)
        × ((undo (edit change a)).undo_stack ≡ take_last 49 a.undo_stack)
  unfolding undo edit
  undo-edit change h a = undo_state-push_history a.state _ (h _)

  -- An undo that has something to undo and a redo behind it give back the drawings and both
  -- histories, with nothing selected and the save scheduled twice: the state and all pending timers
  -- are as if each of the two had done nothing but that.
  pub redo-undo :
      (a : App N)
      → a.undo_stack ≢ []
      → redo (undo a)
        ≡ schedule_save (schedule_save (set_state (record (a.state) { selected = none }) a))
  unfolding redo undo schedule_save
  redo-undo a h = elim (Option-cases (get_last? a.undo_stack)) [
    | inl e ↦ absurd (h (get_last?-none a.undo_stack e))
    | inr (m, e) ↦
        let undone : undo a ≡ _ =
          ap (λ s. schedule_save (set_state s a)) (undo_state-some a.state e) in
        let b = schedule_save (
          set_state
            (record (a.state) {
              drawings = m;
              undo_stack = drop_last a.undo_stack;
              redo_stack = a.redo_stack ++ a.drawings ∷ [];
              selected = none;
            })
            a) in
        let redone : redo b ≡ _ =
          ap (λ s. schedule_save (set_state s b))
            (redo_state-some b.state (get_last?-snoc a.redo_stack a.drawings)) in
        ap redo undone
        ∙ redone
        ∙ cc (drop_last-snoc a.redo_stack a.drawings, get_last?-drop_last a.undo_stack e)
  ]

-- The edits that the store records.
pub data Edit (N : Type 0) : Type 0 where
  adds : Drawing N → Edit N
  updates : String → Updates N → Edit N
  removes : String → Edit N
  clears : String → Edit N

module _ {N : Type 0} where
  unfoldable pub make : Edit N → App N → App N
  make (adds d) a = add_drawing d a
  make (updates id u) a = update_drawing id u a
  make (removes id) a = remove_drawing id a
  make (clears key) a = clear_drawings key a

  unfoldable pub make_all : List (Edit N) → App N → App N
  make_all [] a = a
  make_all (e ∷ es) a = make_all es (make e a)

  pub undo_times : ℕ → App N → App N
  undo_times zero a = a
  undo_times (suc n) a = undo (undo_times n a)

  undo-make :
      (e : Edit N) (a : App N)
      → ((undo (make e a)).drawings ≡ a.drawings)
        × ((undo (make e a)).undo_stack ≡ take_last 49 a.undo_stack)
  unfolding make add_drawing update_drawing remove_drawing clear_drawings
  undo-make (adds d) a = undo-edit (adding d) (λ s. refl) a
  undo-make (updates id u) a = undo-edit (updating id u) (λ s. refl) a
  undo-make (removes id) a = undo-edit (removing id) (λ s. refl) a
  undo-make (clears key) a = undo-edit (clearing key) (λ s. refl) a

  length-undo_stack-make :
      (e : Edit N) (a : App N)
      → length (make e a).undo_stack ≡ min max_history (length a.undo_stack + 1)
  unfolding make add_drawing update_drawing remove_drawing clear_drawings
  length-undo_stack-make (adds d) a = length-push_history a.state
  length-undo_stack-make (updates id u) a = length-push_history a.state
  length-undo_stack-make (removes id) a = length-push_history a.state
  length-undo_stack-make (clears key) a = length-push_history a.state

  undo-cong :
      (a b : App N)
      → a.drawings ≡ b.drawings
      → a.undo_stack ≡ b.undo_stack
      → ((undo a).drawings ≡ (undo b).drawings) × ((undo a).undo_stack ≡ (undo b).undo_stack)
  unfolding undo
  undo-cong a b h k = ground arith

  undo_times-make_all :
      (es : List (Edit N)) (a : App N)
      → length a.undo_stack + length es ≤ max_history
      → ((undo_times (length es) (make_all es a)).drawings ≡ a.drawings)
        × ((undo_times (length es) (make_all es a)).undo_stack ≡ a.undo_stack)
  unfolding undo_times make_all
  undo_times-make_all [] a h = (refl, refl)
  undo_times-make_all (e ∷ es) a h =
      let ih = undo_times-make_all es (make e a) (omega (arith, length-undo_stack-make e a)) in
      let c = undo-cong (undo_times (length es) (make_all es (make e a))) (make e a) ih.0 ih.1 in
      let m = undo-make e a in (c.0 ∙ m.0, c.1 ∙ m.1 ∙ take_last_all 49 a.undo_stack (omega arith))

  -- As many undos as there were edits give back the drawings, whatever the edits were, as long as
  -- the history has room for them.
  pub undo_all :
      (es : List (Edit N)) (a : App N)
      → length a.undo_stack + length es ≤ max_history
      → (undo_times (length es) (make_all es a)).drawings ≡ a.drawings
  undo_all es a h = (undo_times-make_all es a h).0
