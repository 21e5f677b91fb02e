-- ===== src/Panels/Interface.antt =====
-- store/uiStore.ts, with the theme that the local storage and the document hold.
use aiautomation.Common.{
  String, ◌==◌, Bool, true, false, not, Option, none, some, or_else, if◌then◌else◌, ◌≡◌, refl,
}

pub data ThemePreference : Type 0 where
  light dark system : ThemePreference

pub data TradebotTab : Type 0 where
  positions rules insights activity : TradebotTab

-- `UIState` without its actions.
pub record InterfaceState : Type 0 where
  pub sidebar_collapsed : Bool
  pub show_order_modal : Bool
  pub order_modal_symbol : String
  pub theme : ThemePreference
  pub tradebot_tab : TradebotTab

-- The store, the item `theme` of the storage, and whether the attribute `data-theme` is dark.
pub record Screen : Type 0 where
  pub state : InterfaceState
  pub stored : Option String
  pub is_dark : Bool

abbrev theme_text : ThemePreference → String
theme_text light = "light"
theme_text dark = "dark"
theme_text system = "system"

-- the theme of the initial state, from the storage
unfoldable pub stored_theme : Option String → ThemePreference
stored_theme none = system
stored_theme (some s) = if s == "dark" then dark else (if s == "light" then light else system)

-- `prefers_dark` is the answer of `matchMedia`.
abbrev is_dark_for : Bool → ThemePreference → Bool
is_dark_for prefers_dark light = false
is_dark_for prefers_dark dark = true
is_dark_for prefers_dark system = prefers_dark

unfoldable pub apply_theme : Bool → ThemePreference → Screen → Screen
apply_theme prefers_dark t s = record s {
  stored = some (theme_text t);
  is_dark = is_dark_for prefers_dark t;
}

unfoldable pub set_theme : Bool → ThemePreference → Screen → Screen
unfolding apply_theme
set_theme prefers_dark t s =
    let applied = apply_theme prefers_dark t s in
    record applied { state = record (applied.state) { theme = t } }

abbrev pub toggle_sidebar : InterfaceState → InterfaceState
toggle_sidebar s = record s { sidebar_collapsed = not s.sidebar_collapsed }

abbrev pub set_sidebar_collapsed : Bool → InterfaceState → InterfaceState
set_sidebar_collapsed v s = record s { sidebar_collapsed = v }

-- `openOrderModal(symbol = '')`
unfoldable pub open_order_modal : Option String → InterfaceState → InterfaceState
open_order_modal symbol s = record s {
  show_order_modal = true;
  order_modal_symbol = or_else symbol "";
}

abbrev pub close_order_modal : InterfaceState → InterfaceState
close_order_modal s = record s { show_order_modal = false }

abbrev pub set_tradebot_tab : TradebotTab → InterfaceState → InterfaceState
set_tradebot_tab tab s = record s { tradebot_tab = tab }

-- A page that is loaded again has the theme that was set.
stored_theme-set_theme :
    (prefers_dark : Bool) (t : ThemePreference) (s : Screen)
    → stored_theme (set_theme prefers_dark t s).stored ≡ t
unfolding stored_theme set_theme apply_theme
stored_theme-set_theme prefers_dark light s = refl
stored_theme-set_theme prefers_dark dark s = refl
stored_theme-set_theme prefers_dark system s = refl
