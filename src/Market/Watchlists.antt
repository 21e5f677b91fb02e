-- ===== src/Market/Watchlists.antt =====
-- The watchlist actions of store/marketStore.ts, with the storage that they write.
use aiautomation.Common.{
  String, ◌==◌, not, ◌&&◌, List, [], ◌∷◌, ◌++◌, map, filter, any, if◌then◌else◌, includes,
}
use aiautomation.Symbols.{normalize_symbol}
use aiautomation.Market.{Watchlist, MarketState}
use aiautomation.Market.Storage.{Storage, has_id, first_id, persist_watchlists}

-- The store and the local storage.
pub record Browser (N : Type 0) : Type 0 where
  pub market : MarketState N
  pub storage : Storage

-- One list under `addToWatchlist`, and under `removeFromWatchlist`, for a normalised symbol.
unfoldable pub adding_symbol : String → String → Watchlist → Watchlist
adding_symbol list symbol w =
    if w.id == list && not (symbol == "") && not (includes symbol w.symbols)
    then record w { symbols = w.symbols ++ symbol ∷ [] }
    else w

unfoldable pub removing_symbol : String → String → Watchlist → Watchlist
removing_symbol list symbol w =
    if w.id == list then record w { symbols = filter (λ s. not (s == symbol)) w.symbols } else w

module _ {N : Type 0} where
  -- Each action writes the storage first and then the state.
  unfoldable pub write : List Watchlist → String → Browser N → Browser N
  unfolding persist_watchlists
  write ws active b = record {
    market = record (b.market) { watchlists = ws; active_watchlist = active };
    storage = persist_watchlists ws active b.storage;
  }

  unfoldable pub add_watchlist : String → String → Browser N → Browser N
  unfolding write
  add_watchlist uuid name b =
      write (b.market.watchlists ++ record { id = uuid; name = name; symbols = [] } ∷ [])
        b.market.active_watchlist b

  unfoldable pub remove_watchlist : String → Browser N → Browser N
  unfolding write
  remove_watchlist id b =
      let next = filter (λ w. not (w.id == id)) b.market.watchlists in
      let active =
        if any (has_id b.market.active_watchlist) next
        then b.market.active_watchlist
        else first_id next in
      write next active b

  unfoldable pub add_to_watchlist : String → String → Browser N → Browser N
  unfolding write adding_symbol normalize_symbol
  add_to_watchlist list symbol b =
      write (map (adding_symbol list (normalize_symbol symbol)) b.market.watchlists)
        b.market.active_watchlist b

  unfoldable pub remove_from_watchlist : String → String → Browser N → Browser N
  unfolding write removing_symbol normalize_symbol
  remove_from_watchlist list symbol b =
      write (map (removing_symbol list (normalize_symbol symbol)) b.market.watchlists)
        b.market.active_watchlist b

  unfoldable pub set_active_watchlist : String → Browser N → Browser N
  unfolding write
  set_active_watchlist id b = write b.market.watchlists id b
