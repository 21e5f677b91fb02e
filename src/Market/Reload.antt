-- ===== src/Market/Reload.antt =====
-- What store/marketStore.ts shows of its watchlists after a reload of the page.
use aiautomation.Common.{
  String, ◌==◌, eq_iff, eq_refl, ◌≡◌, refl, ap, ◌∙◌, Bool, true, false, Option, none, some, List,
  [], ◌∷◌, map, filter, any, all, All, All-imp, Bool-cases, inl, inr, arith, if◌then◌else◌,
}
use aiautomation.Symbols.{trim, normalize_symbol}
use aiautomation.Market.{Watchlist}
use aiautomation.Market.Storage.{
  Saved, null_value, saved, Raw, missing, unparsable, json, Storage, no_storage, readable, writable,
  Persisted, is_watchlist, is_blank, is_named, normalized, has_id, unseen, normalize_watchlists,
  active_of, load_saved, load_raw, load_persisted, item_of, persist_watchlists, default_state,
  text_of, with_active, distinct_lists,
}

abbrev pub DistinctIds : List Watchlist → Type 0
DistinctIds [] = Unit
DistinctIds (w ∷ ws) = (any (has_id w.id) ws ≡ false) × DistinctIds ws

-- The active list is one of the lists, and no two lists share an id.
pub record IsValid (p : Persisted) : Type 0 where
  pub chosen : any (has_id p.active) p.watchlists ≡ true
  pub distinct : DistinctIds p.watchlists

abbrev Fresh : List String → Watchlist → Type 0
Fresh seen w = any (λ id. id == w.id) seen ≡ false

Fresh-cons : (id : String) (seen : List String) (w : Watchlist) → Fresh (id ∷ seen) w → Fresh seen w
Fresh-cons id seen w h = ground arith

Fresh-head :
    (id : String) (seen : List String) (w : Watchlist) → Fresh (id ∷ seen) w → has_id id w ≡ false
Fresh-head id seen w h = ground (arith, eq_iff id w.id, eq_iff w.id id)

unseen-Fresh : (seen : List String) (ws : List Watchlist) → All (Fresh seen) (unseen seen ws)
unfolding unseen
unseen-Fresh seen [] = tt
unseen-Fresh seen (w ∷ ws) = elim (Bool-cases (any (λ id. id == w.id) seen)) [
  | inl e ↦ rw e (unseen-Fresh seen ws)
  | inr e ↦
      rw e (
        e,
        All-imp (unseen (w.id ∷ seen) ws) (Fresh-cons w.id seen) (unseen-Fresh (w.id ∷ seen) ws),
      )
]

any_none :
    (id : String) (ws : List Watchlist)
    → All (λ w. has_id id w ≡ false) ws
    → any (has_id id) ws ≡ false
any_none id [] h = refl
any_none id (w ∷ ws) h = ground (arith, any_none id ws h.1)

unseen-DistinctIds : (seen : List String) (ws : List Watchlist) → DistinctIds (unseen seen ws)
unfolding unseen
unseen-DistinctIds seen [] = tt
unseen-DistinctIds seen (w ∷ ws) = elim (Bool-cases (any (λ id. id == w.id) seen)) [
  | inl e ↦ rw e (unseen-DistinctIds seen ws)
  | inr e ↦ rw e (
    any_none w.id (unseen (w.id ∷ seen) ws)
        (All-imp (unseen (w.id ∷ seen) ws) (Fresh-head w.id seen) (unseen-Fresh (w.id ∷ seen) ws)),
    unseen-DistinctIds (w.id ∷ seen) ws,
  )
]

pub chosen_if :
    (test : Bool) (id first : String) (ws : List Watchlist)
    → (test ≡ true → any (has_id id) ws ≡ true)
    → any (has_id first) ws ≡ true
    → any (has_id (if test then id else first)) ws ≡ true
chosen_if true id first ws h k = h refl
chosen_if false id first ws h k = k

pub first_id-chosen : (w : Watchlist) (ws : List Watchlist) → any (has_id w.id) (w ∷ ws) ≡ true
first_id-chosen w ws = ground (arith, eq_refl w.id)

active_of-chosen :
    (active : Option String) (w : Watchlist) (ws : List Watchlist)
    → any (has_id (active_of active (w ∷ ws))) (w ∷ ws) ≡ true
active_of-chosen none w ws = first_id-chosen w ws
active_of-chosen (some id) w ws =
    chosen_if (any (has_id id) (w ∷ ws)) id w.id (w ∷ ws) (λ e. e) (first_id-chosen w ws)

default_state-IsValid : IsValid default_state
default_state-IsValid = record { chosen = refl; distinct = (refl, (refl, (refl, tt))) }

kept-IsValid :
    (active : Option String) (ws : List Watchlist)
    → IsValid (with_active active (distinct_lists ws))
unfolding distinct_lists unseen
kept-IsValid active [] = default_state-IsValid
kept-IsValid active (w ∷ ws) = record {
  chosen = active_of-chosen active w (unseen (w.id ∷ []) ws);
  distinct = unseen-DistinctIds [] (w ∷ ws);
}

load_saved-IsValid : (v : Saved) → IsValid (load_saved v)
unfolding load_saved normalize_watchlists
load_saved-IsValid null_value = default_state-IsValid
load_saved-IsValid (saved none active) = default_state-IsValid
load_saved-IsValid (saved (some items) active) =
    kept-IsValid active (map normalized (filter is_watchlist items))

load_raw-IsValid : (raw : Raw) → IsValid (load_raw raw)
unfolding load_raw
load_raw-IsValid missing = default_state-IsValid
load_raw-IsValid unparsable = default_state-IsValid
load_raw-IsValid (json v) = load_saved-IsValid v

-- Whatever is in the storage, a page starts with an active list that is one of its lists, and with
-- lists of which no two share an id.
pub load_persisted-IsValid : (storage : Storage) → IsValid (load_persisted storage)
unfolding load_persisted
load_persisted-IsValid no_storage = default_state-IsValid
load_persisted-IsValid (readable raw) = load_raw-IsValid raw
load_persisted-IsValid (writable raw) = load_raw-IsValid raw

-- A list that a reload keeps as it is: trimmed, with an id, a name and symbols that are not blank.
pub record IsNormal (w : Watchlist) : Type 0 where
  pub id_trimmed : trim w.id ≡ w.id
  pub id_named : is_blank w.id ≡ false
  pub name_trimmed : trim w.name ≡ w.name
  pub name_named : is_blank w.name ≡ false
  pub symbols_normal : All (λ s. normalize_symbol s ≡ s) w.symbols
  pub symbols_named : All (λ s. is_blank s ≡ false) w.symbols

all-is_named :
    (ss : List String)
    → All (λ s. is_blank s ≡ false) ss
    → all is_named (map (λ s. some s) ss) ≡ true
all-is_named [] h = refl
all-is_named (s ∷ ss) h = ground (arith, all-is_named ss h.1)

map-normalize_symbol :
    (ss : List String)
    → All (λ s. normalize_symbol s ≡ s) ss
    → map (λ s. normalize_symbol (text_of s)) (map (λ s. some s) ss) ≡ ss
map-normalize_symbol [] h = refl
map-normalize_symbol (s ∷ ss) h = cc (h.0, map-normalize_symbol ss h.1)

is_watchlist-item_of : (w : Watchlist) → IsNormal w → is_watchlist (item_of w) ≡ true
is_watchlist-item_of w h =
    rw (h.id_named, h.name_named, all-is_named w.symbols h.symbols_named) refl

normalized-item_of : (w : Watchlist) → IsNormal w → normalized (item_of w) ≡ w
unfolding normalized
normalized-item_of w h =
    cc (h.id_trimmed, h.name_trimmed, map-normalize_symbol w.symbols h.symbols_normal)

kept-item_of :
    (ws : List Watchlist)
    → All IsNormal ws
    → map normalized (filter is_watchlist (map item_of ws)) ≡ ws
kept-item_of [] h = refl
kept-item_of (w ∷ ws) h =
    rw (is_watchlist-item_of w h.0) (cc (normalized-item_of w h.0, kept-item_of ws h.1))

Fresh-tail :
    (id : String) (seen : List String) (ws : List Watchlist)
    → All (Fresh seen) ws
    → any (has_id id) ws ≡ false
    → All (Fresh (id ∷ seen)) ws
Fresh-tail id seen [] h k = tt
Fresh-tail id seen (w ∷ ws) h k =
    (ground (arith, eq_iff id w.id, eq_iff w.id id, h.0), Fresh-tail id seen ws h.1 (ground arith))

All-Fresh : (ws : List Watchlist) → All (Fresh []) ws
All-Fresh [] = tt
All-Fresh (w ∷ ws) = (refl, All-Fresh ws)

unseen_same :
    (seen : List String) (ws : List Watchlist)
    → All (Fresh seen) ws
    → DistinctIds ws
    → unseen seen ws ≡ ws
unfolding unseen
unseen_same seen [] h d = refl
unseen_same seen (w ∷ ws) h d =
    rw (h.0)
      (ap (λ vs. w ∷ vs) (unseen_same (w.id ∷ seen) ws (Fresh-tail w.id seen ws h.1 d.0) d.1))

with_active-distinct_lists :
    (ws : List Watchlist) (active : String)
    → DistinctIds ws
    → any (has_id active) ws ≡ true
    → with_active (some active) (distinct_lists ws) ≡ record { watchlists = ws; active = active }
unfolding distinct_lists
with_active-distinct_lists [] active d e = cc
with_active-distinct_lists (w ∷ ws) active d e =
    ap (λ r. with_active (some active) (some r)) (unseen_same [] (w ∷ ws) (All-Fresh (w ∷ ws)) d)
    ∙ rw e refl

-- A reload shows the watchlists and the active one as an action wrote them to the storage, if the
-- lists are normal, no two share an id, and the active one is among them.
pub load_persisted-persist_watchlists :
    (ws : List Watchlist) (active : String) (raw : Raw)
    → All IsNormal ws
    → DistinctIds ws
    → any (has_id active) ws ≡ true
    → load_persisted (persist_watchlists ws active (writable raw))
      ≡ record { watchlists = ws; active = active }
unfolding load_persisted persist_watchlists load_raw load_saved normalize_watchlists
load_persisted-persist_watchlists ws active raw h d e =
    ap (λ vs. with_active (some active) (distinct_lists vs)) (kept-item_of ws h)
    ∙ with_active-distinct_lists ws active d e
