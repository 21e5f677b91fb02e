-- ===== src/Drawing/Saving.antt =====
-- The debounced save of store/drawingStore.ts: which timers are pending after each action.
use aiautomation.Common.{
  ℕ, suc, ◌+◌, ◌≤◌, ◌≡◌, refl, sym, subst, Bool, true, false, Option, none, some, List, [], ◌∷◌,
  ◌++◌, All, All-append, All-filter, arith, Option-cases, inl, inr,
}
use aiautomation.Drawing.State.{
  DrawingState, App, Callback, save, reset_status, clear_timer, cleared_timers, schedule_save, edit,
  push_history, set_state, fire, settle, flush_save,
}
use aiautomation.Drawing.Store.{
  adding, updating, removing, clearing, add_drawing, update_drawing, remove_drawing, clear_drawings,
  undo_state, redo_state, undo, redo,
}
use aiautomation.Drawing.Transfer.{copy_selected}
use aiautomation.Drawing.History.{
  IsBounded, push_history-IsBounded, undo_state-IsBounded, redo_state-IsBounded, Edit, adds,
  updates, removes, clears, make,
}

-- How many saves are pending.
abbrev pub saves : List (ℕ × Callback) → ℕ
saves [] = 0
saves ((t, save) ∷ ts) = suc (saves ts)
saves ((t, reset_status) ∷ ts) = saves ts

-- A pending save is the one that `_saveTimer` names.
abbrev pub IsCurrent : Option ℕ → ℕ × Callback → Type 0
IsCurrent timer (t, save) = timer ≡ some t
IsCurrent timer (t, reset_status) = Unit

module _ {N : Type 0} where
  pub record IsSound (a : App N) : Type 0 where
    pub bounded : IsBounded a.state
    pub current : All (IsCurrent a.save_timer) a.timers
    pub debounced : saves a.timers ≤ 1

saves-append : (ts us : List (ℕ × Callback)) → saves (ts ++ us) ≡ saves ts + saves us
saves-append [] us = omega arith
saves-append ((t, save) ∷ ts) us = omega (arith, saves-append ts us)
saves-append ((t, reset_status) ∷ ts) us = saves-append ts us

saves-clear_timer-le : (t : ℕ) (ts : List (ℕ × Callback)) → saves (clear_timer t ts) ≤ saves ts
saves-clear_timer-le t [] = omega arith
saves-clear_timer-le t ((u, save) ∷ ts) = ground (arith, saves-clear_timer-le t ts)
saves-clear_timer-le t ((u, reset_status) ∷ ts) = ground (arith, saves-clear_timer-le t ts)

-- Clearing the timer that the store remembers leaves no save.
pub saves-clear_timer :
    (t : ℕ) (ts : List (ℕ × Callback)) → All (IsCurrent (some t)) ts → saves (clear_timer t ts) ≡ 0
saves-clear_timer t [] h = refl
saves-clear_timer t ((u, save) ∷ ts) h = ground (arith, saves-clear_timer t ts)
saves-clear_timer t ((u, reset_status) ∷ ts) h = ground (arith, saves-clear_timer t ts)

saves-none : (ts : List (ℕ × Callback)) → All (IsCurrent none) ts → saves ts ≡ 0
saves-none [] h = refl
saves-none ((u, save) ∷ ts) h = cc
saves-none ((u, reset_status) ∷ ts) h = saves-none ts h.1

-- With no save pending, whatever the store remembers will do.
IsCurrent-of_saves :
    (timer : Option ℕ) (ts : List (ℕ × Callback)) → saves ts ≡ 0 → All (IsCurrent timer) ts
IsCurrent-of_saves timer [] h = tt
IsCurrent-of_saves timer ((u, save) ∷ ts) h = absurd (omega arith)
IsCurrent-of_saves timer ((u, reset_status) ∷ ts) h = (tt, IsCurrent-of_saves timer ts h)

saves-cleared_timers :
    (timer : Option ℕ) (ts : List (ℕ × Callback))
    → All (IsCurrent timer) ts
    → saves (cleared_timers timer ts) ≡ 0
saves-cleared_timers none ts h = saves-none ts h
saves-cleared_timers (some t) ts h = saves-clear_timer t ts h

module _ {N : Type 0} where
  -- After a call of `_scheduleSave` one save is pending, and the store remembers it.
  pub schedule_save-debounced :
      (a : App N)
      → All (IsCurrent a.save_timer) a.timers
      → All (IsCurrent (schedule_save a).save_timer) (schedule_save a).timers
        × (saves (schedule_save a).timers ≡ 1)
  unfolding schedule_save
  schedule_save-debounced a h =
      let gone = saves-cleared_timers a.save_timer a.timers h in
      let ts = cleared_timers a.save_timer a.timers in
      (
        All-append (IsCurrent (some a.next_timer)) ts _ (IsCurrent-of_saves _ ts gone) (refl, tt),
        omega (arith, saves-append ts ((a.next_timer, save) ∷ []), gone),
      )

  pub schedule_save-IsSound :
      (a : App N)
      → IsBounded a.state
      → All (IsCurrent a.save_timer) a.timers
      → IsSound (schedule_save a)
  unfolding schedule_save
  schedule_save-IsSound a b h =
      let (current, one) = schedule_save-debounced a h in
      record { bounded = b; current = current; debounced = omega arith }

  pub edit-IsSound :
      (change : DrawingState N → DrawingState N) (a : App N)
      → IsBounded (change (push_history a.state))
      → (change (push_history a.state)).save_timer ≡ a.save_timer
      → IsSound a
      → IsSound (edit change a)
  unfolding edit
  edit-IsSound change a b e h =
      schedule_save-IsSound (set_state (change (push_history a.state)) a) b
        (subst (λ t. All (IsCurrent t) a.timers) (sym e) h.current)

  pub make-IsSound : (e : Edit N) (a : App N) → IsSound a → IsSound (make e a)
  unfolding make add_drawing update_drawing remove_drawing clear_drawings
  make-IsSound (adds d) a h = edit-IsSound (adding d) a (push_history-IsBounded a.state) refl h
  make-IsSound (updates id u) a h =
      edit-IsSound (updating id u) a (push_history-IsBounded a.state) refl h
  make-IsSound (removes id) a h =
      edit-IsSound (removing id) a (push_history-IsBounded a.state) refl h
  make-IsSound (clears key) a h =
      edit-IsSound (clearing key) a (push_history-IsBounded a.state) refl h

  undo_state-save_timer : (s : DrawingState N) → (undo_state s).save_timer ≡ s.save_timer
  unfolding undo_state
  undo_state-save_timer s = ground arith

  redo_state-save_timer : (s : DrawingState N) → (redo_state s).save_timer ≡ s.save_timer
  unfolding redo_state
  redo_state-save_timer s = ground arith

  pub undo-IsSound : (a : App N) → IsSound a → IsSound (undo a)
  unfolding undo
  undo-IsSound a h =
      schedule_save-IsSound (set_state (undo_state a.state) a)
        (undo_state-IsBounded a.state h.bounded)
        (subst (λ t. All (IsCurrent t) a.timers) (sym (undo_state-save_timer a.state)) h.current)

  pub redo-IsSound : (a : App N) → IsSound a → IsSound (redo a)
  unfolding redo
  redo-IsSound a h =
      schedule_save-IsSound (set_state (redo_state a.state) a)
        (redo_state-IsBounded a.state h.bounded)
        (subst (λ t. All (IsCurrent t) a.timers) (sym (redo_state-save_timer a.state)) h.current)

  -- A change of the state that leaves the history and the timer alone.
  pub set_state-IsSound :
      (s : DrawingState N) (a : App N)
      → s.undo_stack ≡ a.undo_stack
      → s.redo_stack ≡ a.redo_stack
      → s.save_timer ≡ a.save_timer
      → IsSound a
      → IsSound (set_state s a)
  set_state-IsSound s a u r t h = record {
    bounded = rw (u, r) h.bounded;
    current = rw t h.current;
    debounced = h.debounced;
  }

  pub copy_selected-keeps :
      (s : DrawingState N)
      → ((copy_selected s).undo_stack ≡ s.undo_stack)
        × ((copy_selected s).redo_stack ≡ s.redo_stack)
        × ((copy_selected s).save_timer ≡ s.save_timer)
  unfolding copy_selected
  copy_selected-keeps s = (ground arith, ground arith, ground arith)

  pub fire-IsSound : (t : ℕ × Callback) (a : App N) → IsSound a → IsSound (fire t a)
  unfolding fire
  fire-IsSound (t, save) a h = record {
    bounded = h.bounded;
    current = All-filter (IsCurrent a.save_timer) _ a.timers h.current;
    debounced = omega (arith, saves-clear_timer-le t a.timers, h.debounced);
  }
  fire-IsSound (t, reset_status) a h = record {
    bounded = h.bounded;
    current = All-filter (IsCurrent a.save_timer) _ a.timers h.current;
    debounced = omega (arith, saves-clear_timer-le t a.timers, h.debounced);
  }

  pub settle-IsSound : (n : ℕ) (ok : Bool) (a : App N) → IsSound a → IsSound (settle n ok a)
  unfolding settle
  settle-IsSound n true a h = record {
    bounded = h.bounded;
    current = All-append (IsCurrent a.save_timer) a.timers _ h.current (tt, tt);
    debounced =
        omega (arith, saves-append a.timers ((a.next_timer, reset_status) ∷ []), h.debounced);
  }
  settle-IsSound n false a h = record {
    bounded = h.bounded;
    current = h.current;
    debounced = h.debounced;
  }

  pub flush_save-IsSound : (a : App N) → IsSound a → IsSound (flush_save a).0
  unfolding flush_save
  flush_save-IsSound a h = elim (Option-cases a.save_timer) [
    | inl e ↦ rw (e, flush_save) h
    | inr (t, e) ↦
        let gone = saves-clear_timer t a.timers (rw e at h.current) in
        rw (e, flush_save)
          (record {
            bounded = h.bounded;
            current = IsCurrent-of_saves none _ gone;
            debounced = omega (arith, gone);
          })
  ]
