-- ===== src/Drawing/State.antt =====
-- store/drawingStore.ts: the state of the store, the history that an edit writes, and the debounced
-- save. The store is one object, so an action is a function from the state to the state; the timers
-- that it sets and the requests that it sends are part of that state.
use aiautomation.Common.{
  ℕ, ◌+◌, String, Bool, true, false, not, Option, none, some, List, [], ◌∷◌, ◌++◌, filter,
  take_last, eqb, drop_nth,
}
use aiautomation.Drawing.{Drawing, DrawingType, Drawings}

pub data SaveStatus : Type 0 where
  idle saving saved error : SaveStatus

-- `DrawingState` without its actions. Each history is oldest first, and a copy through JSON is the
-- value itself.
pub record DrawingState (N : Type 0) : Type 0 where
  pub drawings : Drawings N
  pub active_tool : Option DrawingType
  pub selected : Option String
  pub color : String
  pub save_status : SaveStatus
  pub undo_stack : List (Drawings N)
  pub redo_stack : List (Drawings N)
  pub clipboard : Option (Drawing N)
  pub save_timer : Option ℕ

-- The callbacks that `_scheduleSave` gives to `setTimeout`.
pub data Callback : Type 0 where
  save reset_status : Callback

-- The state with its surroundings: the pending timers, the next timer's number, and the drawings in
-- each `updateSettings` request that has no answer yet.
pub record App (N : Type 0) : Type 0 where
  pub state : DrawingState N
  pub open state use *
  pub timers : List (ℕ × Callback)
  pub next_timer : ℕ
  pub in_flight : List (Drawings N)

-- `if (get().saveStatus === 'saved') set({ saveStatus: 'idle' })`
abbrev pub reset_saved : SaveStatus → SaveStatus
reset_saved saved = idle
reset_saved s = s

abbrev pub max_history : ℕ
max_history = 50

abbrev pub clear_timer : ℕ → List (ℕ × Callback) → List (ℕ × Callback)
clear_timer t ts = filter (λ e. not (eqb e.0 t)) ts

abbrev pub cleared_timers : Option ℕ → List (ℕ × Callback) → List (ℕ × Callback)
cleared_timers none ts = ts
cleared_timers (some t) ts = clear_timer t ts

module _ {N : Type 0} where
  abbrev pub set_state : DrawingState N → App N → App N
  set_state s a = record a { state = s }

  -- `_scheduleSave`: the old timer is cleared and a new one set.
  unfoldable pub schedule_save : App N → App N
  schedule_save a = record a {
    state = record (a.state) { save_status = idle; save_timer = some a.next_timer };
    timers = cleared_timers a.save_timer a.timers ++ (a.next_timer, save) ∷ [];
    next_timer = a.next_timer + 1;
  }

  -- `_pushHistory`
  unfoldable pub push_history : DrawingState N → DrawingState N
  push_history s = record s {
    undo_stack = take_last max_history (s.undo_stack ++ s.drawings ∷ []);
    redo_stack = [];
  }

  -- An edit that is recorded: the history first, then the change, then the save.
  unfoldable pub edit : (DrawingState N → DrawingState N) → App N → App N
  unfolding push_history schedule_save
  edit change a = schedule_save (set_state (change (push_history a.state)) a)

  abbrev pub set_drawings : Drawings N → DrawingState N → DrawingState N
  set_drawings m s = record s { drawings = m }

  -- A callback runs once, and is not pending while it runs.
  unfoldable pub fire : ℕ × Callback → App N → App N
  fire (t, save) a = record a {
    state = record (a.state) { save_status = saving };
    timers = clear_timer t a.timers;
    in_flight = a.in_flight ++ a.drawings ∷ [];
  }
  fire (t, reset_status) a = record a {
    state = record (a.state) { save_status = reset_saved a.save_status };
    timers = clear_timer t a.timers;
  }

  -- The answer to the `n`-th request under way: success sets the timer that takes the status back.
  unfoldable pub settle : ℕ → Bool → App N → App N
  settle n true a = record a {
    state = record (a.state) { save_status = saved };
    timers = a.timers ++ (a.next_timer, reset_status) ∷ [];
    next_timer = a.next_timer + 1;
    in_flight = drop_nth n a.in_flight;
  }
  settle n false a = record a {
    state = record (a.state) { save_status = error };
    in_flight = drop_nth n a.in_flight;
  }

  -- `_flushSave`: what the synchronous request at unload carries.
  unfoldable pub flush_save : App N → App N × Drawings N
  flush_save a = elim a.save_timer [
    | none ↦ (a, a.drawings)
    | some t ↦ (
      record a { state = record (a.state) { save_timer = none }; timers = clear_timer t a.timers },
      a.drawings,
    )
  ]

  unfoldable pub initial_state : String → DrawingState N
  initial_state color = record {
    drawings = [];
    active_tool = none;
    selected = none;
    color = color;
    save_status = idle;
    undo_stack = [];
    redo_stack = [];
    clipboard = none;
    save_timer = none;
  }
