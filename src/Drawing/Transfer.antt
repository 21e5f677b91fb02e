-- ===== src/Drawing/Transfer.antt =====
-- store/drawingStore.ts: copy and paste, export and import, and the load of saved drawings.
use aiautomation.Common.{
  String, ◌==◌, not, Option, none, some, List, [], ◌∷◌, ◌++◌, map, or_else, filter, find, any,
  if◌then◌else◌, lookup, insert,
}
use aiautomation.Drawing.{Drawing, DrawingType, horizontal_line, DrawingPoint, Drawings}
use aiautomation.Drawing.Schema.{
  Unknown, SchemaError, Export, Zod, validate_drawings_map, validate_drawings_export,
}
use aiautomation.Drawing.Keys.{split_key}
use aiautomation.Drawing.State.{DrawingState, App, edit, set_drawings}
use aiautomation.Drawing.Store.{add_drawing}

-- What the code does with a number, apart from storing it.
pub record Arith (N : Type 0) : Type 0 where
  pub add : N → N → N
  pub sub : N → N → N
  pub one : N

module _ {N : Type 0} where
  -- `copySelected`: the first drawing with the id, in the order of the lists.
  unfoldable pub find_drawing : String → Drawings N → Option (Drawing N)
  find_drawing id [] = none
  find_drawing id ((key, ds) ∷ m) = elim (find (λ d. d.id == id) ds) [
    | some d ↦ some d
    | none ↦ find_drawing id m
  ]

  -- An id that is the empty text counts as none.
  unfoldable pub copy_selected : DrawingState N → DrawingState N
  unfolding find_drawing
  copy_selected s = elim s.selected [
    | none ↦ s
    | some id ↦ if id == "" then s else elim (find_drawing id s.drawings) [
      | none ↦ s
      | some d ↦ record s { clipboard = some d }
    ]
  ]

  -- the loop of `importDrawings`
  unfoldable pub merge : Drawings N → Drawings N → Drawings N
  merge m [] = m
  merge m ((key, ds) ∷ rest) =
      let existing = or_else (lookup key m) [] in
      let new_ones = filter (λ d. not (any (λ x. x.id == d.id) existing)) ds in
      merge (insert key (existing ++ new_ones) m) rest

  abbrev pub importing : Drawings N → DrawingState N → DrawingState N
  importing m s = set_drawings (merge s.drawings m) s

module _ {N : Type 0} (num : Arith N) where
  unfoldable pub translate : N → N → DrawingPoint N → DrawingPoint N
  translate dx dy p = record { time = num.add p.time dx; price = num.add p.price dy }

  unfoldable pub move_two : N → N → List (DrawingPoint N) → List (DrawingPoint N)
  unfolding translate
  move_two time price (p ∷ q ∷ []) =
      map (translate (num.sub time p.time) (num.sub price p.price)) (p ∷ q ∷ [])
  move_two time price ps = ps

  -- The points of a pasted drawing, at the crosshair.
  unfoldable pub paste_points : DrawingType → N → N → List (DrawingPoint N) → List (DrawingPoint N)
  unfolding move_two
  paste_points horizontal_line time price ps = record { time = time; price = price } ∷ []
  paste_points _ time price ps = move_two time price ps

  unfoldable pub pasted : String → String → N → N → Drawing N → Drawing N
  unfolding paste_points split_key
  pasted uuid key price time d = record d {
    id = uuid;
    symbol = (split_key key).0;
    timeframe = (split_key key).1;
    points = paste_points d.type time price d.points;
  }

  unfoldable pub paste : String → String → N → N → App N → App N
  unfolding pasted add_drawing
  paste uuid key price time a = elim a.clipboard [
    | none ↦ a
    | some d ↦ add_drawing (pasted uuid key price time d) a
  ]

  unfoldable pub export_drawings : App N → Export N
  export_drawings a = record { version = num.one; drawings = a.drawings }

module _ {N V : Type 0} (zod : Zod N V) where
  unfoldable pub load_drawings : Unknown V → DrawingState N → DrawingState N
  load_drawings v s = record s {
    drawings = (validate_drawings_map zod v).0;
    undo_stack = [];
    redo_stack = [];
  }

  -- What `importDrawings` returns: whether it took the data, and the errors.
  pub data Imported : Type 0 where
    accepted : List SchemaError → Imported
    refused : List SchemaError → Imported
    invalid_json : Imported

  -- The text is given by what `JSON.parse` makes of it, `none` if it throws.
  unfoldable pub import_drawings : Option (Unknown V) → App N → App N × Imported
  unfolding edit merge
  import_drawings none a = (a, invalid_json)
  import_drawings (some v) a =
      let (valid, errors) = validate_drawings_export zod v in
      elim valid [
        | none ↦ (a, refused errors)
        | some e ↦ (edit (importing e.drawings) a, accepted errors)
      ]
