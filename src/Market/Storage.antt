-- ===== src/Market/Storage.antt =====
-- How store/marketStore.ts reads its watchlists from the local storage and writes them there.
use aiautomation.Common.{
  String, ◌==◌, Bool, false, not, ◌&&◌, Option, none, some, List, [], ◌∷◌, map, filter, any, all,
  if◌then◌else◌, or_else,
}
use aiautomation.Symbols.{trim, normalize_symbol}
use aiautomation.Market.{Watchlist}

-- An element of the array that JSON.parse gives, as far as `isWatchlist` looks into it: a field that
-- is not a text is `none`, and so is a `symbols` that is not an array.
pub data Item : Type 0 where
  not_object : Item
  candidate : Option String → Option String → Option (List (Option String)) → Item

-- The value that JSON.parse gives: no object, or one with an array of lists, if it has one, and the
-- id of the active list, if it is a text.
pub data Saved : Type 0 where
  null_value : Saved
  saved : Option (List Item) → Option String → Saved

-- What is stored under the key: nothing or the empty text is `missing`. A storage that throws when it is read is unparsable.
pub data Raw : Type 0 where
  missing unparsable : Raw
  json : Saved → Raw

pub data Storage : Type 0 where
  no_storage : Storage
  readable : Raw → Storage
  writable : Raw → Storage

-- `PersistedWatchlists`
pub record Persisted : Type 0 where
  pub watchlists : List Watchlist
  pub active : String

abbrev pub default_watchlists : List Watchlist
default_watchlists =
    record {
      id = "default";
      name = "Watchlist";
      symbols = "BTC-USD" ∷ "ETH-USD" ∷ "AAPL" ∷ "TSLA" ∷ "SPY" ∷ "QQQ" ∷ "NVDA" ∷ [];
    }
    ∷ record { id = "crypto"; name = "Crypto"; symbols = "BTC-USD" ∷ "ETH-USD" ∷ "SOL-USD" ∷ [] }
    ∷ record {
      id = "tech";
      name = "Tech";
      symbols = "AAPL" ∷ "MSFT" ∷ "GOOGL" ∷ "META" ∷ "NVDA" ∷ "AMZN" ∷ [];
    }
    ∷ []

abbrev pub default_state : Persisted
default_state = record { watchlists = default_watchlists; active = "default" }

abbrev pub is_blank : String → Bool
is_blank s = trim s == ""

abbrev pub is_named : Option String → Bool
is_named none = false
is_named (some s) = not (is_blank s)

abbrev pub all_named : Option (List (Option String)) → Bool
all_named none = false
all_named (some ss) = all is_named ss

-- `isWatchlist`
abbrev pub is_watchlist : Item → Bool
is_watchlist not_object = false
is_watchlist (candidate id name symbols) = is_named id && is_named name && all_named symbols

abbrev pub text_of : Option String → String
text_of s = or_else s ""

-- What the `map` of `normalizeWatchlists` makes of an element that passed the test.
unfoldable pub normalized : Item → Watchlist
normalized not_object = record { id = ""; name = ""; symbols = [] }
normalized (candidate id name symbols) = record {
  id = trim (text_of id);
  name = trim (text_of name);
  symbols = map (λ s. normalize_symbol (text_of s)) (or_else symbols []);
}

abbrev pub has_id : String → Watchlist → Bool
has_id id w = w.id == id

-- The last `filter` of `normalizeWatchlists`, with the ids seen so far.
unfoldable pub unseen : List String → List Watchlist → List Watchlist
unseen seen [] = []
unseen seen (w ∷ ws) =
    let rest = unseen (w.id ∷ seen) ws in
    let same = unseen seen ws in if any (λ id. id == w.id) seen then same else w ∷ rest

-- The first list of each id, if there is a list.
unfoldable pub distinct_lists : List Watchlist → Option (List Watchlist)
unfolding unseen
distinct_lists [] = none
distinct_lists (w ∷ ws) = some (unseen [] (w ∷ ws))

-- `normalizeWatchlists`
unfoldable pub normalize_watchlists : Option (List Item) → Option (List Watchlist)
unfolding distinct_lists normalized
normalize_watchlists none = none
normalize_watchlists (some items) = distinct_lists (map normalized (filter is_watchlist items))

abbrev pub first_id : List Watchlist → String
first_id [] = "default"
first_id (w ∷ ws) = w.id

abbrev pub active_of : Option String → List Watchlist → String
active_of none ws = first_id ws
active_of (some id) ws = if any (has_id id) ws then id else first_id ws

abbrev pub with_active : Option String → Option (List Watchlist) → Persisted
with_active active none = default_state
with_active active (some ws) = record { watchlists = ws; active = active_of active ws }

-- `loadPersistedWatchlists` behind JSON.parse
unfoldable pub load_saved : Saved → Persisted
unfolding normalize_watchlists
load_saved null_value = default_state
load_saved (saved lists active) = with_active active (normalize_watchlists lists)

unfoldable pub load_raw : Raw → Persisted
unfolding load_saved
load_raw (json v) = load_saved v
load_raw _ = default_state

-- `loadPersistedWatchlists`
unfoldable pub load_persisted : Storage → Persisted
unfolding load_raw
load_persisted no_storage = default_state
load_persisted (readable raw) = load_raw raw
load_persisted (writable raw) = load_raw raw

-- The JSON of a list.
abbrev pub item_of : Watchlist → Item
item_of w = candidate (some w.id) (some w.name) (some (map (λ s. some s) w.symbols))

-- `persistWatchlists`
unfoldable pub persist_watchlists : List Watchlist → String → Storage → Storage
persist_watchlists ws active (writable raw) =
    writable (json (saved (some (map item_of ws)) (some active)))
persist_watchlists ws active storage = storage
