-- ===== src/Drawing/Store.antt =====
-- store/drawingStore.ts: the tool, the edits of drawings, undo and redo.
use aiautomation.Common.{
  String, ◌==◌, Bool, not, Option, none, some, List, [], ◌∷◌, ◌++◌, map, or_else, filter, drop_last,
  get_last?, same_id, if◌then◌else◌, lookup, insert, map_values,
}
use aiautomation.Drawing.{Drawing, DrawingType, DrawingPoint, DrawingOptions, Drawings}
use aiautomation.Drawing.Keys.{drawing_key}
use aiautomation.Drawing.State.{DrawingState, App, edit, set_state, set_drawings, schedule_save}

-- `Partial<Drawing>`: a field that is left out is `none`.
pub record Updates (N : Type 0) : Type 0 where
  pub id : Option String
  pub type : Option DrawingType
  pub symbol : Option String
  pub timeframe : Option String
  pub color : Option String
  pub points : Option (List (DrawingPoint N))
  pub visible : Option Bool
  pub locked : Option Bool
  pub label : Option (Option String)
  pub options : Option (Option DrawingOptions)

module _ {N : Type 0} where
  -- `{ ...d, ...updates }`
  unfoldable pub apply_updates : Updates N → Drawing N → Drawing N
  apply_updates u d = record {
    id = or_else u.id d.id;
    type = or_else u.type d.type;
    symbol = or_else u.symbol d.symbol;
    timeframe = or_else u.timeframe d.timeframe;
    color = or_else u.color d.color;
    points = or_else u.points d.points;
    visible = or_else u.visible d.visible;
    locked = or_else u.locked d.locked;
    label = or_else u.label d.label;
    options = or_else u.options d.options;
  }

  unfoldable pub append_drawing : Drawing N → Drawings N → Drawings N
  append_drawing d m =
      let key = drawing_key d.symbol d.timeframe in
      insert key (or_else (lookup key m) [] ++ d ∷ []) m

  unfoldable pub update_by_id : String → (Drawing N → Drawing N) → Drawings N → Drawings N
  update_by_id id f m = map_values (map (λ d. if d.id == id then f d else d)) m

  unfoldable pub remove_by_id : String → Drawings N → Drawings N
  remove_by_id id m = map_values (filter (λ d. not (d.id == id))) m

  -- The changes of the four edits, between the history and the save.
  abbrev pub adding : Drawing N → DrawingState N → DrawingState N
  adding d s = set_drawings (append_drawing d s.drawings) s

  abbrev pub updating : String → Updates N → DrawingState N → DrawingState N
  updating id u s = set_drawings (update_by_id id (apply_updates u) s.drawings) s

  abbrev pub removing : String → DrawingState N → DrawingState N
  removing id s = record s {
    drawings = remove_by_id id s.drawings;
    selected = if same_id s.selected id then none else s.selected;
  }

  abbrev pub clearing : String → DrawingState N → DrawingState N
  clearing key s = record s { drawings = insert key [] s.drawings; selected = none }

  unfoldable pub add_drawing : Drawing N → App N → App N
  unfolding edit append_drawing
  add_drawing d = edit (adding d)

  unfoldable pub update_drawing : String → Updates N → App N → App N
  unfolding edit update_by_id apply_updates
  update_drawing id u = edit (updating id u)

  unfoldable pub remove_drawing : String → App N → App N
  unfolding edit remove_by_id
  remove_drawing id = edit (removing id)

  unfoldable pub clear_drawings : String → App N → App N
  unfolding edit
  clear_drawings key = edit (clearing key)

  abbrev pub toggling : String → DrawingState N → DrawingState N
  toggling id s =
      set_drawings (update_by_id id (λ d. record d { locked = not d.locked }) s.drawings) s

  -- Not recorded in the history.
  unfoldable pub toggle_lock : String → App N → App N
  unfolding schedule_save update_by_id
  toggle_lock id a = schedule_save (set_state (toggling id a.state) a)

  unfoldable pub undo_state : DrawingState N → DrawingState N
  undo_state s = elim (get_last? s.undo_stack) [
    | none ↦ s
    | some prev ↦ record s {
      drawings = prev;
      undo_stack = drop_last s.undo_stack;
      redo_stack = s.redo_stack ++ s.drawings ∷ [];
      selected = none;
    }
  ]

  unfoldable pub redo_state : DrawingState N → DrawingState N
  redo_state s = elim (get_last? s.redo_stack) [
    | none ↦ s
    | some next ↦ record s {
      drawings = next;
      redo_stack = drop_last s.redo_stack;
      undo_stack = s.undo_stack ++ s.drawings ∷ [];
      selected = none;
    }
  ]

  unfoldable pub undo : App N → App N
  unfolding undo_state schedule_save
  undo a = schedule_save (set_state (undo_state a.state) a)

  unfoldable pub redo : App N → App N
  unfolding redo_state schedule_save
  redo a = schedule_save (set_state (redo_state a.state) a)

  unfoldable pub set_active_tool : Option DrawingType → DrawingState N → DrawingState N
  set_active_tool none s = record s { active_tool = none }
  set_active_tool (some t) s = record s { active_tool = some t; selected = none }
