-- ===== src/Drawing/Steps.antt =====
-- The whole store of store/drawingStore.ts as steps: its actions, its timers and the answers to its
-- requests, in any order.
use aiautomation.Common.{
  ℕ, String, ◌≡◌, refl, sym, subst, ◌∙◌, Bool, Option, none, some, List, [], ◌∷◌, ◌++◌, All, arith,
  Option-cases, inl, inr,
}
use aiautomation.Drawing.{DrawingType}
use aiautomation.Drawing.Schema.{Unknown, Zod, validate_drawings_export}
use aiautomation.Drawing.State.{
  DrawingState, App, Callback, save, edit, push_history, set_state, fire, settle, flush_save,
}
use aiautomation.Drawing.Store.{
  toggling, adding, updating, removing, clearing, add_drawing, update_drawing, remove_drawing,
  clear_drawings, undo, redo, toggle_lock, set_active_tool,
}
use aiautomation.Drawing.Transfer.{
  Arith, copy_selected, paste, load_drawings, import_drawings, importing,
}
use aiautomation.Drawing.History.{
  push_history-IsBounded, Edit, adds, updates, removes, clears, make, make_all,
}
use aiautomation.Drawing.State.{initial_state}
use aiautomation.Drawing.Saving.{
  saves, IsCurrent, IsSound, edit-IsSound, schedule_save-IsSound, schedule_save-debounced,
  make-IsSound, undo-IsSound, redo-IsSound, set_state-IsSound, copy_selected-keeps, fire-IsSound,
  settle-IsSound, flush_save-IsSound, saves-clear_timer,
}

pub data Action (N V : Type 0) : Type 0 where
  edits : Edit N → Action N V
  toggles : String → Action N V
  undoes redoes copies flushes : Action N V
  pastes : String → String → N → N → Action N V
  imports : Option (Unknown V) → Action N V
  loads : Unknown V → Action N V
  picks_tool : Option DrawingType → Action N V
  selects : Option String → Action N V
  colors : String → Action N V
  fires : ℕ × Callback → Action N V
  settles : ℕ → Bool → Action N V

module _ {N V : Type 0} (num : Arith N) (zod : Zod N V) where
  unfoldable pub step : Action N V → App N → App N
  step (edits e) a = make e a
  step (toggles id) a = toggle_lock id a
  step undoes a = undo a
  step redoes a = redo a
  step copies a = set_state (copy_selected a.state) a
  step flushes a = (flush_save a).0
  step (pastes uuid key price time) a = paste num uuid key price time a
  step (imports v) a = (import_drawings zod v a).0
  step (loads v) a = set_state (load_drawings zod v a.state) a
  step (picks_tool t) a = set_state (set_active_tool t a.state) a
  step (selects id) a = set_state (record (a.state) { selected = id }) a
  step (colors c) a = set_state (record (a.state) { color = c }) a
  step (fires t) a = fire t a
  step (settles n ok) a = settle n ok a

  unfoldable pub run : List (Action N V) → App N → App N
  run [] a = a
  run (x ∷ xs) a = run xs (step x a)

-- The store of a page that has just been opened.
unfoldable pub opened : {N : Type 0} → String → App N
unfolding initial_state
opened color = record { state = initial_state color; timers = []; next_timer = 1; in_flight = [] }

module _ {N V : Type 0} (num : Arith N) (zod : Zod N V) where
  paste-IsSound :
      (uuid key : String) (price time : N) (a : App N)
      → IsSound a
      → IsSound (paste num uuid key price time a)
  unfolding paste
  paste-IsSound uuid key price time a h = elim (Option-cases a.clipboard) [
    | inl e ↦ rw (e, paste) h
    | inr (d, e) ↦ rw (e, paste) (edit-IsSound (adding _) a (push_history-IsBounded a.state) refl h)
  ]

  import_drawings-IsSound :
      (v : Option (Unknown V)) (a : App N) → IsSound a → IsSound (import_drawings zod v a).0
  unfolding import_drawings
  import_drawings-IsSound none a h = h
  import_drawings-IsSound (some v) a h = elim (Option-cases (validate_drawings_export zod v).0) [
    | inl e ↦ rw (e, import_drawings) h
    | inr (x, e) ↦
        rw (e, import_drawings)
          (edit-IsSound (importing x.drawings) a (push_history-IsBounded a.state) refl h)
  ]

  toggle_lock-IsSound : (id : String) (a : App N) → IsSound a → IsSound (toggle_lock id a)
  unfolding toggle_lock
  toggle_lock-IsSound id a h =
      schedule_save-IsSound (set_state (toggling id a.state) a) h.bounded h.current

  load_drawings-IsSound :
      (v : Unknown V) (a : App N) → IsSound a → IsSound (set_state (load_drawings zod v a.state) a)
  unfolding load_drawings
  load_drawings-IsSound v a h = record {
    bounded = omega arith;
    current = h.current;
    debounced = h.debounced;
  }

  step-IsSound : (x : Action N V) (a : App N) → IsSound a → IsSound (step num zod x a)
  unfolding step set_active_tool
  step-IsSound (edits e) a h = make-IsSound e a h
  step-IsSound (toggles id) a h = toggle_lock-IsSound id a h
  step-IsSound undoes a h = undo-IsSound a h
  step-IsSound redoes a h = redo-IsSound a h
  step-IsSound copies a h =
      let k = copy_selected-keeps a.state in set_state-IsSound _ a k.0 k.1 k.2 h
  step-IsSound flushes a h = flush_save-IsSound a h
  step-IsSound (pastes uuid key price time) a h = paste-IsSound uuid key price time a h
  step-IsSound (imports v) a h = import_drawings-IsSound v a h
  step-IsSound (loads v) a h = load_drawings-IsSound v a h
  step-IsSound (picks_tool none) a h = set_state-IsSound _ a refl refl refl h
  step-IsSound (picks_tool (some t)) a h = set_state-IsSound _ a refl refl refl h
  step-IsSound (selects id) a h = set_state-IsSound _ a refl refl refl h
  step-IsSound (colors c) a h = set_state-IsSound _ a refl refl refl h
  step-IsSound (fires t) a h = fire-IsSound t a h
  step-IsSound (settles n ok) a h = settle-IsSound n ok a h

  run-IsSound : (xs : List (Action N V)) (a : App N) → IsSound a → IsSound (run num zod xs a)
  unfolding run
  run-IsSound [] a h = h
  run-IsSound (x ∷ xs) a h = run-IsSound xs (step num zod x a) (step-IsSound x a h)

  -- However the actions of the store, its timers and the answers to its requests follow one another
  -- from a fresh page, the two history stacks together hold at most fifty entries, at most one save
  -- is pending, and a pending save is the one whose timer the store remembers.
  pub run-opened-IsSound :
      (xs : List (Action N V)) (color : String) → IsSound (run num zod xs (opened color))
  unfolding opened
  run-opened-IsSound xs color =
      run-IsSound xs (opened color)
        (record { bounded = omega arith; current = tt; debounced = omega arith })

module _ {N : Type 0} where
  make_all-IsSound : (es : List (Edit N)) (a : App N) → IsSound a → IsSound (make_all es a)
  unfolding make_all
  make_all-IsSound [] a h = h
  make_all-IsSound (e ∷ es) a h = make_all-IsSound es (make e a) (make-IsSound e a h)

  -- One save is pending and nothing was sent.
  abbrev IsPending : App N → App N → Type 0
  IsPending a b =
      (saves b.timers ≡ 1) × All (IsCurrent b.save_timer) b.timers × (b.in_flight ≡ a.in_flight)

  edit-IsPending :
      (change : DrawingState N → DrawingState N) (a : App N)
      → (change (push_history a.state)).save_timer ≡ a.save_timer
      → IsSound a
      → IsPending a (edit change a)
  unfolding edit
  edit-IsPending change a e h =
      let (current, one) =
        schedule_save-debounced (set_state (change (push_history a.state)) a)
          (subst (λ t. All (IsCurrent t) a.timers) (sym e) h.current) in
      (one, current, refl)

  make-IsPending : (e : Edit N) (a : App N) → IsSound a → IsPending a (make e a)
  unfolding make add_drawing update_drawing remove_drawing clear_drawings
  make-IsPending (adds d) a h = edit-IsPending (adding d) a refl h
  make-IsPending (updates id u) a h = edit-IsPending (updating id u) a refl h
  make-IsPending (removes id) a h = edit-IsPending (removing id) a refl h
  make-IsPending (clears key) a h = edit-IsPending (clearing key) a refl h

  in_flight-make_all :
      (es : List (Edit N)) (a : App N) → IsSound a → (make_all es a).in_flight ≡ a.in_flight
  unfolding make_all
  in_flight-make_all [] a h = refl
  in_flight-make_all (e ∷ es) a h =
      in_flight-make_all es (make e a) (make-IsSound e a h) ∙ (make-IsPending e a h).2

  -- A burst of edits costs one request: after it one save is pending and nothing has been sent, and
  -- when that save fires it sends the drawings of that moment and leaves no save pending.
  pub make_all-debounced :
      (es : List (Edit N)) (e : Edit N) (a : App N) (t : ℕ)
      → IsSound a
      → (make e (make_all es a)).save_timer ≡ some t
      → let b = make e (make_all es a) in
        (saves b.timers ≡ 1)
        × (b.in_flight ≡ a.in_flight)
        × (saves (fire (t, save) b).timers ≡ 0)
        × ((fire (t, save) b).in_flight ≡ a.in_flight ++ b.drawings ∷ [])
  unfolding fire
  make_all-debounced es e a t h k =
      let p = make-IsPending e (make_all es a) (make_all-IsSound es a h) in
      let sent = p.2 ∙ in_flight-make_all es a h in
      (p.0, sent, saves-clear_timer t _ (rw k at p.1), rw sent)
