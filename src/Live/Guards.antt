-- ===== src/Live/Guards.antt =====
-- hooks/useWebSocket.ts: the type guards and parsePositionsUpdate. The fields of an object have
-- distinct names.
use aiautomation.Common.{
  String, ◌==◌, Bool, true, false, ◌&&◌, ◌||◌, Option, none, some, List, [], ◌∷◌, filter,
  if◌then◌else◌,
}
use aiautomation.Live.{
  Value, undefined, bool, number, text, object, array, Values, nil, cons, Fields, empty, field, Js,
}

module _ {N : Type 0} where
  -- `value[name]`
  unfoldable pub get : String → Fields N → Value N
  get name empty = undefined
  get name (field key value rest) = if key == name then value else get name rest

  -- `name in value`
  unfoldable pub has_field : String → Fields N → Bool
  has_field name empty = false
  has_field name (field key value rest) = if key == name then true else has_field name rest

  -- `typeof v === 'string'`
  abbrev pub is_string : Value N → Bool
  is_string (text s) = true
  is_string _ = false

  -- `v === true`
  abbrev pub is_true : Value N → Bool
  is_true (bool b) = b
  is_true _ = false

  -- the elements of an array
  unfoldable pub elements : Values N → List (Value N)
  elements nil = []
  elements (cons v vs) = v ∷ elements vs

module _ {N : Type 0} (js : Js N) where
  abbrev pub is_finite_number : Value N → Bool
  is_finite_number (number x) = js.is_finite x
  is_finite_number _ = false

  -- `isFiniteNumber(value[name])`
  abbrev pub has_number : String → Fields N → Bool
  has_number name fields = is_finite_number (get name fields)

  -- behind `isRecord`
  unfoldable pub is_position_fields : Fields N → Bool
  unfolding get has_field
  is_position_fields o =
      (is_string (get "symbol" o)
        && has_number "qty" o
        && has_number "avg_cost" o
        && has_number "market_value" o
        && has_number "unrealized_pnl" o)
      && (has_field "market_price" o && has_number "market_price" o && has_number "realized_pnl" o
          || has_field "current_price" o && has_number "current_price" o && has_number "pnl_pct" o)

  unfoldable pub is_position_like : Value N → Bool
  unfolding is_position_fields
  is_position_like (object o) = is_position_fields o
  is_position_like _ = false

  unfoldable pub is_account_fields : Fields N → Bool
  unfolding get has_field
  is_account_fields o =
      (has_number "cash" o && has_number "unrealized_pnl" o && has_number "realized_pnl" o)
      && (if has_field "net_liquidation" o
          then has_number "net_liquidation" o
            && has_number "initial_cash" o
            && has_number "positions_value" o
            && has_number "total_return_pct" o
            && is_true (get "is_sim" o)
          else has_number "balance" o && has_number "margin_used" o && is_string (get "currency" o))

  unfoldable pub is_account_like : Value N → Bool
  unfolding is_account_fields
  is_account_like (object o) = is_account_fields o
  is_account_like _ = false

  -- `Array.isArray(v) ? v.filter(isPositionLike) : null`
  unfoldable pub parse_positions : Value N → Option (List (Value N))
  unfolding is_position_like elements
  parse_positions (array vs) = some (filter is_position_like (elements vs))
  parse_positions _ = none

  -- `isAccountLike(v) ? v : null`
  unfoldable pub parse_account : Value N → Option (Value N)
  unfolding is_account_like
  parse_account v = if is_account_like v then some v else none

  unfoldable pub parse_positions_update : Fields N → Option (List (Value N)) × Option (Value N)
  unfolding get parse_positions parse_account
  parse_positions_update ev =
      (parse_positions (get "positions" ev), parse_account (get "account" ev))
