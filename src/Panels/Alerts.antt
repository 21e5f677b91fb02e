-- ===== src/Panels/Alerts.antt =====
-- store/alertStore.ts: the list of alerts. An alert is a value of the type `A`, with its identifier.
use aiautomation.Common.{
  String, ◌==◌, Bool, true, false, not, Option, none, some, List, map, filter, if◌then◌else◌,
}

pub record AlertList (A : Type 0) : Type 0 where
  pub alerts : List A
  pub loading : Bool

module _ {A : Type 0} where
  abbrev pub set_alerts : List A → AlertList A → AlertList A
  set_alerts a s = record s { alerts = a }

  unfoldable pub update_alert : (A → String) → A → AlertList A → AlertList A
  update_alert id_of a s = record s {
    alerts = map (λ x. if id_of x == id_of a then a else x) s.alerts;
  }

  unfoldable pub remove_alert : (A → String) → String → AlertList A → AlertList A
  remove_alert id_of id s = record s { alerts = filter (λ x. not (id_of x == id)) s.alerts }

  abbrev pub start_alerts : AlertList A → AlertList A
  start_alerts s = record s { loading = true }

  -- `loadAlerts` from its await on; an error is dropped
  unfoldable pub finish_alerts : Option (List A) → AlertList A → AlertList A
  finish_alerts none s = record s { loading = false }
  finish_alerts (some a) s = record s { alerts = a; loading = false }
