-- ===== src/Market/Membership.antt =====
-- Which symbols and lists the watchlist actions of store/marketStore.ts leave.
use aiautomation.Common.{
  String, ◌==◌, eq_refl, ◌≡◌, refl, true, false, not, ◌⊎◌, List, [], ◌∷◌, ◌++◌, map, filter, any,
  All, inl, inr, arith, if◌then◌else◌, includes,
}
use aiautomation.Symbols.{normalize_symbol}
use aiautomation.Market.{Watchlist}
use aiautomation.Market.Storage.{
  Storage, no_storage, readable, writable, has_id, first_id, persist_watchlists,
}
use aiautomation.Market.Reload.{chosen_if, first_id-chosen}
use aiautomation.Market.Watchlists.{
  Browser, adding_symbol, removing_symbol, write, add_to_watchlist, remove_from_watchlist,
  remove_watchlist,
}

filter-without :
    (symbol : String) (ss : List String)
    → includes symbol ss ≡ false
    → filter (λ s. not (s == symbol)) ss ≡ ss
filter-without symbol [] h = refl
filter-without symbol (s ∷ ss) h = ground (arith, filter-without symbol ss)

filter-snoc :
    (symbol : String) (ss : List String)
    → includes symbol ss ≡ false
    → filter (λ s. not (s == symbol)) (ss ++ symbol ∷ []) ≡ ss
filter-snoc symbol [] h = ground (arith, eq_refl symbol)
filter-snoc symbol (s ∷ ss) h = ground (arith, filter-snoc symbol ss)

removing_symbol-adding_symbol :
    (list symbol : String) (w : Watchlist)
    → includes symbol w.symbols ≡ false
    → removing_symbol list symbol (adding_symbol list symbol w) ≡ w
unfolding removing_symbol adding_symbol
removing_symbol-adding_symbol list symbol w h =
    ground (arith, filter-snoc symbol w.symbols h, filter-without symbol w.symbols h)

includes-snoc : (symbol : String) (ss : List String) → includes symbol (ss ++ symbol ∷ []) ≡ true
includes-snoc symbol [] = ground (arith, eq_refl symbol)
includes-snoc symbol (s ∷ ss) = ground (arith, includes-snoc symbol ss)

adding_symbol_twice :
    (list symbol : String) (w : Watchlist)
    → adding_symbol list symbol (adding_symbol list symbol w) ≡ adding_symbol list symbol w
unfolding adding_symbol
adding_symbol_twice list symbol w = ground (arith, includes-snoc symbol w.symbols)

map_twice :
    (list symbol : String) (ws : List Watchlist)
    → map (adding_symbol list symbol) (map (adding_symbol list symbol) ws)
      ≡ map (adding_symbol list symbol) ws
map_twice list symbol [] = refl
map_twice list symbol (w ∷ ws) = cc (adding_symbol_twice list symbol w, map_twice list symbol ws)

map-removing_symbol :
    (list symbol : String) (ws : List Watchlist)
    → All (λ w. includes symbol w.symbols ≡ false) ws
    → map (removing_symbol list symbol) (map (adding_symbol list symbol) ws) ≡ ws
map-removing_symbol list symbol [] h = refl
map-removing_symbol list symbol (w ∷ ws) h =
    cc (removing_symbol-adding_symbol list symbol w h.0, map-removing_symbol list symbol ws h.1)

chosen :
    (active : String) (ws : List Watchlist)
    → (ws ≡ []) ⊎ (any (has_id (if any (has_id active) ws then active else first_id ws)) ws ≡ true)
chosen active [] = inl refl
chosen active (w ∷ ws) =
    inr (
      chosen_if (any (has_id active) (w ∷ ws)) active w.id (w ∷ ws) (λ e. e) (first_id-chosen w ws))

persist_watchlists_twice :
    (ws vs : List Watchlist) (active : String) (storage : Storage)
    → persist_watchlists ws active (persist_watchlists vs active storage)
      ≡ persist_watchlists ws active storage
unfolding persist_watchlists
persist_watchlists_twice ws vs active no_storage = refl
persist_watchlists_twice ws vs active (readable raw) = refl
persist_watchlists_twice ws vs active (writable raw) = refl

filter-has_id :
    (id : String) (ws : List Watchlist)
    → any (has_id id) (filter (λ w. not (w.id == id)) ws) ≡ false
filter-has_id id [] = refl
filter-has_id id (w ∷ ws) = ground (arith, filter-has_id id ws)

module _ {N : Type 0} where
  -- Adding a symbol a second time, in any spelling with the same normal form, changes no list.
  pub add_to_watchlist_twice :
      (list symbol again : String) (b : Browser N)
      → normalize_symbol again ≡ normalize_symbol symbol
      → (add_to_watchlist list again (add_to_watchlist list symbol b)).market.watchlists
        ≡ (add_to_watchlist list symbol b).market.watchlists
  unfolding add_to_watchlist write
  add_to_watchlist_twice list symbol again b e =
      rw e (map_twice list (normalize_symbol symbol) b.market.watchlists)

  -- Adding a symbol that no list holds and removing it gives back the store and writes the storage
  -- as a write of the lists that were there.
  pub remove_from_watchlist-add_to_watchlist :
      (list symbol : String) (b : Browser N)
      → All (λ w. includes (normalize_symbol symbol) w.symbols ≡ false) b.market.watchlists
      → remove_from_watchlist list symbol (add_to_watchlist list symbol b)
        ≡ write b.market.watchlists b.market.active_watchlist b
  unfolding add_to_watchlist remove_from_watchlist write
  remove_from_watchlist-add_to_watchlist list symbol b h = cc (
    map-removing_symbol list (normalize_symbol symbol) b.market.watchlists h,
    persist_watchlists_twice b.market.watchlists
        (map (adding_symbol list (normalize_symbol symbol)) b.market.watchlists)
        b.market.active_watchlist b.storage,
  )

  -- After a removal no list has the id, and the active list is one of those that are left, if one
  -- is left.
  pub remove_watchlist-chosen :
      (id : String) (b : Browser N)
      → let after = (remove_watchlist id b).market in
        (any (has_id id) after.watchlists ≡ false)
        × ((after.watchlists ≡ []) ⊎ (any (has_id after.active_watchlist) after.watchlists ≡ true))
  unfolding remove_watchlist write
  remove_watchlist-chosen id b = (
    filter-has_id id b.market.watchlists,
    chosen b.market.active_watchlist (filter (λ w. not (w.id == id)) b.market.watchlists),
  )
