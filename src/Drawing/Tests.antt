-- ===== src/Drawing/Tests.antt =====
-- Runs of the code of store/drawingStore.ts and utils/drawingSchema.ts on drawings over the native
-- numbers, with a zod that tests what the schemas demand.
use mathlib.Core.Bool.{and-eq-true_iff}
use aiautomation.Common.{
  ℕ, String, or_else, ◌+◌, ◌-◌, ◌==◌, eq_iff, ◌≡◌, ◌≢◌, ◌≤◌, refl, subst, test_of_ne, Bool, true,
  false, not, ◌&&◌, none, some, List, [], ◌∷◌, length, arith, Bool-cases, inl, inr, lookup,
  if◌then◌else◌, Distinct,
}
use mathlib.Core.List.{Memᴰ}
use aiautomation.Drawing.Reset.{restore_initial_state, restore_initial_state-edit}
use aiautomation.Drawing.Store.{adding}
use aiautomation.Drawing.State.{edit, save, fire}
use aiautomation.Common.{◌++◌}
use aiautomation.Drawing.Timeline.{
  Command, edits, undoes, redoes, timeline, shown_at, obey_all, command_all, command_all-obey_all,
}
use aiautomation.Drawing.{
  Drawing, DrawingType, horizontal_line, trendline, fibonacci, DrawingPoint, point_count, points_ok,
  Drawings,
}
use aiautomation.Drawing.Keys.{split_last}
use aiautomation.Drawing.Schema.{
  Unknown, object, array, Parsed, success, failure, Export, IsWellFormed, AllWellFormed, Zod,
  validate_drawings_map, validate_drawings_export, encode_map,
}
use aiautomation.Drawing.Schema.Laws.{
  validate_drawings_map_complete, validate_drawings_export-json, NoEmptyList,
}
use aiautomation.Drawing.State.{
  App, save, fire, set_state, max_history, idle, edit, push_history, schedule_save, initial_state,
}
use aiautomation.Drawing.Store.{remove_drawing, clear_drawings, add_drawing, undo, redo}
use aiautomation.Drawing.Transfer.{Arith, paste, export_drawings, import_drawings}
use aiautomation.Drawing.History.{
  Edit, adds, removes, clears, make, make_all, undo_times, undo_all, redo-undo,
}
use aiautomation.Drawing.Saving.{IsSound, saves}
use aiautomation.Drawing.Steps.{
  Action, edits, undoes, redoes, copies, pastes, imports, selects, fires, settles, toggles, run,
  opened, run-opened-IsSound, make_all-debounced,
}
use aiautomation.Drawing.RoundTrip.{import_drawings-export_drawings}
use aiautomation.Drawing.Editing.{IsCopy, lookup-paste}
use aiautomation.Drawing.Points.{IsPointed}
use aiautomation.Drawing.PointsKept.{run-IsPointed}

abbrev native : Arith ℕ
native = record { add = λ a b. a + b; sub = λ a b. a - b; one = 1 }

-- A JSON value is a drawing or an export.
data Json : Type 0 where
  drawing : Drawing ℕ → Json
  export : Export ℕ → Json

abbrev is_well_formed : Drawing ℕ → Bool
is_well_formed d = not (d.id == "") && (not (d.symbol == "") && points_ok d.type (length d.points))

abbrev safe_parse_json : Json → Parsed (Drawing ℕ)
safe_parse_json (drawing d) = if is_well_formed d then success d else failure ("Invalid" ∷ [])
safe_parse_json (export e) = failure []

abbrev safe_parse_export_json : Unknown Json → Parsed (Export ℕ)
safe_parse_export_json (object ((key, array (export e ∷ [])) ∷ [])) = success e
safe_parse_export_json _ = failure ("Invalid" ∷ [])

points_ok_iff : (t : DrawingType) (n : ℕ) → points_ok t n ≡ true → n ≡ point_count t
points_ok_iff horizontal_line n h = ground arith
points_ok_iff trendline n h = ground arith
points_ok_iff fibonacci n h = ground arith

points_ok_of : (t : DrawingType) (n : ℕ) → n ≡ point_count t → points_ok t n ≡ true
points_ok_of horizontal_line n h = ground arith
points_ok_of trendline n h = ground arith
points_ok_of fibonacci n h = ground arith

success-inj : {A : Type 0} {x y : A} → Parsed.success x ≡ success y → x ≡ y
success-inj h = cc

json_refined : (v : Json) {d : Drawing ℕ} → safe_parse_json v ≡ success d → IsWellFormed d
json_refined (export e) h = cc
json_refined (drawing x) {d} h = elim (Bool-cases (is_well_formed x)) [
  | inl e ↦
      let same : x ≡ d = success-inj (rw e at h) in
      let (id, rest) = (and-eq-true_iff _ _).0 e in
      let (symbol, points) = (and-eq-true_iff _ _).0 rest in
      subst IsWellFormed same (record {
        has_id = λ q. ground (arith, eq_iff x.id "");
        has_symbol = λ q. ground (arith, eq_iff x.symbol "");
        has_points = points_ok_iff x.type _ points;
      })
  | inr e ↦ cc (rw e at h)
]

json_complete : (d : Drawing ℕ) → IsWellFormed d → safe_parse_json (drawing d) ≡ success d
json_complete d h =
    let id = test_of_ne d.id "" h.has_id in
    let symbol = test_of_ne d.symbol "" h.has_symbol in
    rw (id, symbol, points_ok_of d.type _ h.has_points) refl

abbrev zod_json : Zod ℕ Json
zod_json = record {
  safe_parse = safe_parse_json;
  safe_parse_export = safe_parse_export_json;
  encode = drawing;
  json = λ e. object (("export", array (export e ∷ [])) ∷ []);
  parse_refined = json_refined;
  parse_complete = json_complete;
  export_complete = λ e h. refl;
}

abbrev point : ℕ → ℕ → DrawingPoint ℕ
point t p = record { time = t; price = p }

abbrev level : Drawing ℕ
level = record {
  id = "a";
  type = horizontal_line;
  symbol = "AAPL";
  timeframe = "1d";
  color = "red";
  points = point 10 150 ∷ [];
  visible = true;
  locked = false;
  label = none;
  options = none;
}

abbrev trend : Drawing ℕ
trend = record level { id = "b"; type = trendline; points = point 10 150 ∷ point 20 170 ∷ [] }

abbrev charts : Drawings ℕ
charts = ("AAPL_1d", level ∷ trend ∷ []) ∷ []

-- The store that has loaded the charts, with one of them selected and copied.
abbrev shown : App ℕ
shown = record {
  state = record {
    drawings = charts;
    active_tool = none;
    selected = some "b";
    color = "red";
    save_status = idle;
    undo_stack = [];
    redo_stack = [];
    clipboard = some trend;
    save_timer = none;
  };
  timers = [];
  next_timer = 1;
  in_flight = [];
}

Distinct-charts : Distinct charts
unfolding lookup
Distinct-charts = (refl, tt)

IsWellFormed-level : IsWellFormed level
IsWellFormed-level = record {
  has_id = λ e. ground (arith, eq_iff "a" "");
  has_symbol = λ e. ground (arith, eq_iff "AAPL" "");
  has_points = refl;
}

IsWellFormed-trend : IsWellFormed trend
IsWellFormed-trend = record {
  has_id = λ e. ground (arith, eq_iff "b" "");
  has_symbol = λ e. ground (arith, eq_iff "AAPL" "");
  has_points = refl;
}

well_formed_charts : AllWellFormed charts
well_formed_charts = ((IsWellFormed-level, (IsWellFormed-trend, tt)), tt)

full_charts : NoEmptyList charts
full_charts = ((λ e. cc), tt)

has_underscore : split_last "MSFT_1h" ≢ none
unfolding split_last
has_underscore e = cc

cons-ne_nil : {A : Type 0} → (x : A) (xs : List A) → x ∷ xs ≢ []
cons-ne_nil x xs e = cc

undoable_shown : (make (removes "a") shown).state.undo_stack ≢ []
unfolding make remove_drawing edit push_history schedule_save
undoable_shown e = cons-ne_nil charts [] e

abbrev session_actions : List (Action ℕ Json)
session_actions =
    edits (adds level)
    ∷ edits (adds trend)
    ∷ selects (some "b")
    ∷ copies
    ∷ pastes "c" "MSFT_1h" 200 30
    ∷ fires (3, save)
    ∷ undoes
    ∷ settles 0 true
    ∷ redoes
    ∷ toggles "a"
    ∷ imports (some (zod_json.json (export_drawings native shown)))
    ∷ []

run-opened-IsSound_example : IsSound (run native zod_json session_actions (opened "red"))
run-opened-IsSound_example = run-opened-IsSound native zod_json session_actions "red"

run-IsPointed_example : IsPointed (run native zod_json session_actions shown).state
run-IsPointed_example =
    run-IsPointed native zod_json session_actions shown
      (refl, (refl, (tt, (tt, (tt, (tt, (tt, (tt, (tt, (tt, (tt, tt)))))))))))
      (record { shown = ((refl, (refl, tt)), tt); undoable = tt; redoable = tt; copied = refl })

abbrev burst : List (Edit ℕ)
burst = adds level ∷ adds trend ∷ removes "a" ∷ []

three_fit : 3 ≤ max_history
three_fit = omega arith

undo_all_example : (undo_times 3 (make_all burst shown)).drawings ≡ charts
undo_all_example = undo_all burst shown three_fit

abbrev commands : List (Command ℕ)
commands = edits (removes "a") ∷ undoes ∷ redoes ∷ edits (clears "MSFT_1h") ∷ undoes ∷ []

command_all-obey_all_example :
    (timeline (command_all commands shown).state ≡ obey_all commands (timeline shown.state))
    × ((command_all commands shown).drawings ≡ shown_at (obey_all commands (timeline shown.state)))
command_all-obey_all_example = command_all-obey_all commands shown

redo-undo_example :
    let a = make (removes "a") shown in
    redo (undo a)
    ≡ schedule_save (schedule_save (set_state (record (a.state) { selected = none }) a))
redo-undo_example = redo-undo (make (removes "a") shown) undoable_shown

opened-IsSound : IsSound (opened {N = ℕ} "red")
unfolding opened initial_state
opened-IsSound = record { bounded = omega arith; current = tt; debounced = omega arith }

make_all-debounced_example :
    let b = make (clears "AAPL_1d") (make_all burst (opened "red")) in
    (saves b.timers ≡ 1)
    × (b.in_flight ≡ [])
    × (saves (fire (4, save) b).timers ≡ 0)
    × ((fire (4, save) b).in_flight ≡ b.drawings ∷ [])
unfolding make clear_drawings make_all remove_drawing add_drawing opened initial_state edit
    schedule_save push_history
make_all-debounced_example =
    make_all-debounced burst (clears "AAPL_1d") (opened "red") 4 opened-IsSound refl

validate_drawings_map_complete_example :
    validate_drawings_map zod_json (encode_map drawing charts) ≡ (charts, [])
validate_drawings_map_complete_example =
    validate_drawings_map_complete zod_json charts well_formed_charts full_charts

validate_drawings_export-json_example :
    validate_drawings_export zod_json (zod_json.json (record { version = 1; drawings = charts }))
    ≡ (some (record { version = 1; drawings = charts }), [])
validate_drawings_export-json_example =
    validate_drawings_export-json zod_json (record { version = 1; drawings = charts })
      well_formed_charts full_charts

import_drawings-export_drawings_example :
    (import_drawings zod_json
      (some (zod_json.json (export_drawings native shown)))
      (opened "red")).0.drawings
    ≡ charts
unfolding opened initial_state
import_drawings-export_drawings_example =
    import_drawings-export_drawings native zod_json shown well_formed_charts full_charts
      Distinct-charts (opened "red") refl

lookup-paste_example :
    (p : Drawing ℕ) × IsCopy native "c" "MSFT_1h" 200 30 trend p
    × ((j : String)
        → lookup j (paste native "c" "MSFT_1h" 200 30 shown).drawings ≡ (
            if "MSFT_1h" == j
            then some (or_else (lookup "MSFT_1h" shown.drawings) [] ++ p ∷ [])
            else lookup j shown.drawings))
lookup-paste_example = lookup-paste native "c" "MSFT_1h" 200 30 trend shown refl has_underscore

restore_initial_state-edit_example :
    let b = restore_initial_state "red" (edit (adding level) shown) in
    Memᴰ (shown.next_timer, save) b.timers
    × ((fire (shown.next_timer, save) b).in_flight ≡ shown.in_flight ++ [] ∷ [])
restore_initial_state-edit_example = restore_initial_state-edit (adding level) "red" shown
