-- ===== src/Drawing/Timeline.antt =====
-- Undo and redo of store/drawingStore.ts against a timeline: the drawings at each moment and a
-- cursor. The two stacks and the shown drawings represent a timeline.
use mathlib.Core.List.{reverse, reverse-append, reverse-cons}
use aiautomation.Common.{
  ℕ, zero, suc, ◌+◌, ◌-◌, ◌≡◌, refl, ap, ◌∙◌, sym, inl, inr, List, [], ◌∷◌, ◌++◌, append_assoc,
  length, take, take_last, drop_last, get_last?, length-append, length-take_last,
  get_last?-drop_last, length-drop_last, get_last?-none, take_last-snoc, Option-cases, arith, min,
  insert, length_pos_of_get_last?,
}
use aiautomation.Drawing.{Drawings}
use aiautomation.Drawing.State.{DrawingState, App, max_history, push_history, edit}
use aiautomation.Drawing.Store.{
  apply_updates, append_drawing, update_by_id, remove_by_id, add_drawing, update_drawing,
  remove_drawing, clear_drawings, undo_state, redo_state, undo, redo,
}
use aiautomation.Drawing.History.{Edit, adds, updates, removes, clears, make}

-- The element at an index, or `d`.
abbrev pub get_or {ℓ} : {A : Type ℓ} → A → ℕ → List A → A
get_or d i [] = d
get_or d zero (x ∷ xs) = x
get_or d (suc i) (x ∷ xs) = get_or d i xs

pub record Timeline (N : Type 0) : Type 0 where
  pub moments : List (Drawings N)
  pub cursor : ℕ

pub data Command (N : Type 0) : Type 0 where
  edits : Edit N → Command N
  undoes redoes : Command N

module _ {N : Type 0} where
  -- The drawings that a timeline shows.
  abbrev pub shown_at : Timeline N → Drawings N
  shown_at t = get_or [] t.cursor t.moments

  -- What an edit does to the drawings.
  abbrev pub effect : Edit N → Drawings N → Drawings N
  effect (adds d) m = append_drawing d m
  effect (updates id u) m = update_by_id id (apply_updates u) m
  effect (removes id) m = remove_by_id id m
  effect (clears key) m = insert key [] m

  -- An edit forgets what is ahead of the cursor, and all but the last fifty moments behind it.
  abbrev pub obey : Command N → Timeline N → Timeline N
  obey (edits e) t = record {
    moments =
        take_last (suc max_history) (take (t.cursor + 1) t.moments ++ effect e (shown_at t) ∷ []);
    cursor = min max_history (t.cursor + 1);
  }
  obey undoes t = record t { cursor = t.cursor - 1 }
  obey redoes t = record t { cursor = min (t.cursor + 1) (length t.moments - 1) }

  abbrev pub obey_all : List (Command N) → Timeline N → Timeline N
  obey_all [] t = t
  obey_all (c ∷ cs) t = obey_all cs (obey c t)

  -- The same commands on the store.
  unfoldable pub command : Command N → App N → App N
  unfolding make undo redo
  command (edits e) a = make e a
  command undoes a = undo a
  command redoes a = redo a

  unfoldable pub command_all : List (Command N) → App N → App N
  unfolding command
  command_all [] a = a
  command_all (c ∷ cs) a = command_all cs (command c a)

  -- The timeline that a store represents.
  abbrev pub timeline : DrawingState N → Timeline N
  timeline s = record {
    moments = s.undo_stack ++ s.drawings ∷ reverse s.redo_stack;
    cursor = length s.undo_stack;
  }

module _ {ℓ} {A : Type ℓ} where
  get_or-append : (d x : A) (xs ys : List A) → get_or d (length xs) (xs ++ x ∷ ys) ≡ x
  get_or-append d x [] ys = refl
  get_or-append d x (y ∷ xs) ys = get_or-append d x xs ys

  take-append : (x : A) (xs ys : List A) → take (suc (length xs)) (xs ++ x ∷ ys) ≡ xs ++ x ∷ []
  take-append x [] ys = refl
  take-append x (y ∷ xs) ys = ap (λ t. y ∷ t) (take-append x xs ys)

  reverse-snoc : (x : A) (xs : List A) → reverse (xs ++ x ∷ []) ≡ x ∷ reverse xs
  reverse-snoc x xs = reverse-append xs (x ∷ [])

  length-reverse : (xs : List A) → length (reverse xs) ≡ length xs
  length-reverse [] = refl
  length-reverse (x ∷ xs) =
      ap length (reverse-cons x xs)
      ∙ omega (arith, length-append (reverse xs) (x ∷ []), length-reverse xs)

module _ {N : Type 0} where
  Timeline_eq : (s t : Timeline N) → s.moments ≡ t.moments → s.cursor ≡ t.cursor → s ≡ t
  Timeline_eq s t h k = cc

  shown_at-timeline : (s : DrawingState N) → shown_at (timeline s) ≡ s.drawings
  shown_at-timeline s = get_or-append [] s.drawings s.undo_stack (reverse s.redo_stack)

  length-timeline :
      (s : DrawingState N)
      → length (timeline s).moments ≡ length s.undo_stack + suc (length s.redo_stack)
  length-timeline s = omega (
    arith,
    length-append s.undo_stack (s.drawings ∷ reverse s.redo_stack),
    length-reverse s.redo_stack,
  )

  timeline-undo_state : (s : DrawingState N) → timeline (undo_state s) ≡ obey undoes (timeline s)
  unfolding undo_state
  timeline-undo_state s = elim (Option-cases (get_last? s.undo_stack)) [
    | inl e ↦
        rw (e, undo_state)
          (Timeline_eq _ _ refl (ground (arith, ap length (get_last?-none s.undo_stack e))))
    | inr (m, e) ↦
        rw (e, undo_state)
          (Timeline_eq _ _
            (ap (λ t. drop_last s.undo_stack ++ m ∷ t) (reverse-snoc s.drawings s.redo_stack)
              ∙ sym (
                  append_assoc (drop_last s.undo_stack) (m ∷ [])
                    (s.drawings ∷ reverse s.redo_stack))
              ∙ ap (λ t. t ++ s.drawings ∷ reverse s.redo_stack)
                  (get_last?-drop_last s.undo_stack e))
            (omega (arith, length-drop_last s.undo_stack)))
  ]

  timeline-redo_state : (s : DrawingState N) → timeline (redo_state s) ≡ obey redoes (timeline s)
  unfolding redo_state
  timeline-redo_state s = elim (Option-cases (get_last? s.redo_stack)) [
    | inl e ↦
        rw (e, redo_state)
          (Timeline_eq _ _ refl (
            let none_left : length s.redo_stack ≡ 0 = ap length (get_last?-none s.redo_stack e) in
            omega (arith, length-timeline s)))
    | inr (m, e) ↦
        rw (e, redo_state)
          (Timeline_eq _ _
            (append_assoc s.undo_stack (s.drawings ∷ []) (m ∷ reverse (drop_last s.redo_stack))
              ∙ ap (λ t. s.undo_stack ++ s.drawings ∷ t)
                  (sym (reverse-snoc m (drop_last s.redo_stack))
                    ∙ ap reverse (get_last?-drop_last s.redo_stack e)))
            (omega (
              arith,
              length-timeline s,
              length-append s.undo_stack (s.drawings ∷ []),
              length_pos_of_get_last? s.redo_stack e,
            )))
  ]

  -- What a recorded edit leaves, where it shows `m` from then on.
  timeline-push_history :
      (s t : DrawingState N) (m : Drawings N)
      → t.undo_stack ≡ (push_history s).undo_stack
      → t.redo_stack ≡ []
      → t.drawings ≡ m
      → timeline t ≡ record {
        moments =
            take_last
              (suc max_history)
              (take (length s.undo_stack + 1) (timeline s).moments ++ m ∷ []);
        cursor = min max_history (length s.undo_stack + 1);
      }
  unfolding push_history
  timeline-push_history s t m hu hr hd =
      let past = s.undo_stack ++ s.drawings ∷ [] in
      let kept : take (length s.undo_stack + 1) (timeline s).moments ≡ past =
        ap (λ n. take n (timeline s).moments)
          (let e : length s.undo_stack + 1 ≡ suc (length s.undo_stack) = omega arith in e)
        ∙ take-append s.drawings s.undo_stack (reverse s.redo_stack) in
      rw (kept, hu, hr, hd)
        (Timeline_eq _ _ (sym (take_last-snoc max_history past m)) (
          omega (
            arith,
            length-take_last max_history past,
            length-append s.undo_stack (s.drawings ∷ []),
          )))

  timeline_edited :
      (e : Edit N) (s t : DrawingState N)
      → t.undo_stack ≡ (push_history s).undo_stack
      → t.redo_stack ≡ []
      → t.drawings ≡ effect e s.drawings
      → timeline t ≡ obey (edits e) (timeline s)
  timeline_edited e s t hu hr hd =
      rw (shown_at-timeline s) (timeline-push_history s t (effect e s.drawings) hu hr hd)

  timeline-make :
      (e : Edit N) (a : App N) → timeline (make e a).state ≡ obey (edits e) (timeline a.state)
  unfolding make add_drawing update_drawing remove_drawing clear_drawings edit push_history
  timeline-make (adds d) a = timeline_edited (adds d) a.state (make (adds d) a).state refl refl refl
  timeline-make (updates id u) a =
      timeline_edited (updates id u) a.state (make (updates id u) a).state refl refl refl
  timeline-make (removes id) a =
      timeline_edited (removes id) a.state (make (removes id) a).state refl refl refl
  timeline-make (clears key) a =
      timeline_edited (clears key) a.state (make (clears key) a).state refl refl refl

  timeline-command :
      (c : Command N) (a : App N) → timeline (command c a).state ≡ obey c (timeline a.state)
  unfolding command undo redo
  timeline-command (edits e) a = timeline-make e a
  timeline-command undoes a = timeline-undo_state a.state
  timeline-command redoes a = timeline-redo_state a.state

  timeline-command_all :
      (cs : List (Command N)) (a : App N)
      → timeline (command_all cs a).state ≡ obey_all cs (timeline a.state)
  unfolding command_all
  timeline-command_all [] a = refl
  timeline-command_all (c ∷ cs) a =
      timeline-command_all cs (command c a) ∙ ap (obey_all cs) (timeline-command c a)

  -- The store refines the timeline: after any edits, undos and redos it represents, and shows, what
  -- the same commands make of the timeline.
  pub command_all-obey_all :
      (cs : List (Command N)) (a : App N)
      → (timeline (command_all cs a).state ≡ obey_all cs (timeline a.state))
        × ((command_all cs a).drawings ≡ shown_at (obey_all cs (timeline a.state)))
  command_all-obey_all cs a =
      let same = timeline-command_all cs a in
      (same, sym (shown_at-timeline (command_all cs a).state) ∙ ap shown_at same)
