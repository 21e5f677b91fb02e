-- ===== src/Drawing/Reset.antt =====
-- `restoreInitialState(useDrawingStore)` of store/resetAllStores.ts, which runs when the operator's
-- session is lost.
use mathlib.Core.List.{Memᴰ}
use mathlib.Core.List.Memᴰ
use aiautomation.Common.{String, ◌≡◌, refl, [], ◌∷◌, ◌++◌}
use aiautomation.Drawing.State.{
  DrawingState, App, save, schedule_save, edit, set_state, fire, initial_state,
}

module _ {N : Type 0} where
  -- The state alone is replaced: timers and requests go on.
  unfoldable pub restore_initial_state : String → App N → App N
  unfolding initial_state
  restore_initial_state color a = set_state (initial_state color) a

  -- The save that an edit has scheduled is still pending behind a reset, and then sends no drawings
  -- at all.
  pub restore_initial_state-edit :
      (change : DrawingState N → DrawingState N) (color : String) (a : App N)
      → let b = restore_initial_state color (edit change a) in
        Memᴰ (a.next_timer, save) b.timers
        × ((fire (a.next_timer, save) b).in_flight ≡ a.in_flight ++ [] ∷ [])
  unfolding restore_initial_state edit schedule_save fire initial_state
  restore_initial_state-edit change color a = (Memᴰ.append_right _ (Memᴰ.head refl), refl)
