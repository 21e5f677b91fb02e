-- ===== src/Feed/InStep.antt =====
-- What `MarketDataWsService` has asked of the server, against what its handlers need.
use aiautomation.Common.{
  ℕ, String, ◌==◌, eq_iff, ◌≡◌, refl, ap, ◌∙◌, sym, Bool, true, false, not, ◌&&◌, ◌||◌, Option,
  none, some, List, [], ◌∷◌, ◌++◌, filter, or_else, arith, lookup, lookup-insert, includes, without,
  includes-append, includes-without, Bool-cases, inl, inr,
}
use aiautomation.Feed.{
  Outgoing, subscribe, unsubscribe, ping, Phase, connecting, open_, closing, closed, Socket,
  FeedState,
}
use aiautomation.Feed.Service.{
  send, sent_on, send_to, open_socket, connect, handle, add_handler, request_symbol, subscribe_to,
  is_handled, is_live,
}

-- The symbols that a server sends quotes of to a client that it had `symbols` of, after a message.
abbrev pub served : Outgoing → List String → List String
served (subscribe added) symbols = symbols ++ added
served (unsubscribe removed) symbols = filter (λ y. not (includes y removed)) symbols
served ping symbols = symbols

abbrev pub served_all : List Outgoing → List String → List String
served_all [] symbols = symbols
served_all (m ∷ ms) symbols = served_all ms (served m symbols)

abbrev pub Same : List String → List String → Type 0
Same xs ys = (x : String) → includes x xs ≡ includes x ys

-- While a socket connects nothing was sent on it; once it is open the messages sent on it ask for
-- the symbols, no more and no less.
abbrev pub AsksFor : Phase → List Outgoing → List String → Type 0
AsksFor connecting sent symbols = sent ≡ []
AsksFor open_ sent symbols = Same (served_all sent []) symbols
AsksFor _ sent symbols = Unit

abbrev pub SocketAsks : Option Socket → List String → Type 0
SocketAsks none symbols = Unit
SocketAsks (some w) symbols = AsksFor w.phase w.sent symbols

pub record IsInStep (s : FeedState) : Type 0 where
  pub asked : SocketAsks s.ws s.subscribed
  pub needed : (x : String) → includes x s.subscribed ≡ is_handled (lookup x s.handlers)

served_all-snoc :
    (ms : List Outgoing) (m : Outgoing) (symbols : List String)
    → served_all (ms ++ m ∷ []) symbols ≡ served m (served_all ms symbols)
served_all-snoc [] m symbols = refl
served_all-snoc (n ∷ ms) m symbols = served_all-snoc ms m (served n symbols)

-- A message and the change of the set that goes with it.
abbrev pub Tracks : Outgoing → List String → List String → Type 0
Tracks m xs ys = (zs : List String) → Same zs xs → Same (served m zs) ys

AsksFor-sent_on :
    (m : Outgoing) (p : Phase) (sent : List Outgoing) (xs ys : List String)
    → Tracks m xs ys
    → AsksFor p sent xs
    → SocketAsks (some (sent_on m (record { phase = p; sent = sent }))) ys
AsksFor-sent_on m connecting sent xs ys f h = h
AsksFor-sent_on m open_ sent xs ys f h =
    λ x. ap (includes x) (served_all-snoc sent m []) ∙ f (served_all sent []) h x
AsksFor-sent_on m closing sent xs ys f h = tt
AsksFor-sent_on m closed sent xs ys f h = tt

pub SocketAsks-send_to :
    (m : Outgoing) (w : Option Socket) (xs ys : List String)
    → Tracks m xs ys
    → SocketAsks w xs
    → SocketAsks (send_to m w) ys
SocketAsks-send_to m none xs ys f h = tt
SocketAsks-send_to m (some w) xs ys f h = AsksFor-sent_on m w.phase w.sent xs ys f h

served_subscribe :
    (y : String) (xs zs : List String)
    → Same zs xs
    → Same (served (subscribe (y ∷ [])) zs) (xs ++ y ∷ [])
served_subscribe y xs zs h x =
    includes-append x zs (y ∷ [])
    ∙ ap (λ b. b || includes x (y ∷ [])) (h x)
    ∙ sym (includes-append x xs (y ∷ []))

filter-without :
    (y : String) (zs : List String) → filter (λ z. not (includes z (y ∷ []))) zs ≡ without y zs
filter-without y [] = refl
filter-without y (z ∷ zs) = ground (arith, filter-without y zs, eq_iff y z, eq_iff z y)

pub served_unsubscribe :
    (y : String) (xs zs : List String)
    → Same zs xs
    → Same (served (unsubscribe (y ∷ [])) zs) (without y xs)
served_unsubscribe y xs zs h x =
    ap (includes x) (filter-without y zs)
    ∙ includes-without x y zs
    ∙ ap (λ b. b && not (x == y)) (h x)
    ∙ sym (includes-without x y xs)

is_handled-add_handler : (h : ℕ) (hs : List ℕ) → is_handled (some (add_handler h hs)) ≡ true
is_handled-add_handler h [] = refl
is_handled-add_handler h (g ∷ hs) = ground arith

is_handled-handle :
    (symbol : String) (h : ℕ) (s : FeedState) (x : String)
    → is_handled (lookup x (handle symbol h s).handlers)
      ≡ (is_handled (lookup x s.handlers) || (x == symbol))
is_handled-handle symbol h s x =
    let hs = add_handler h (or_else (lookup symbol s.handlers) []) in
    ground (
      arith,
      lookup-insert symbol x hs s.handlers,
      is_handled-add_handler h (or_else (lookup symbol s.handlers) []),
      eq_iff symbol x,
      eq_iff x symbol,
    )

already :
    (symbol : String) (xs : List String) (x : String)
    → includes symbol xs ≡ true
    → includes x xs ≡ (includes x xs || (x == symbol))
already symbol xs x h = elim (Bool-cases (x == symbol)) [
  | inl e ↦
      let same : x ≡ symbol = (eq_iff x symbol).0 e in
      let both : includes x xs ≡ true = ap (λ y. includes y xs) same ∙ h in rw both refl
  | inr e ↦ ground arith
]

includes-snoc :
    (x symbol : String) (xs : List String)
    → includes x (xs ++ symbol ∷ []) ≡ (includes x xs || (x == symbol))
includes-snoc x symbol xs =
    ground (arith, includes-append x xs (symbol ∷ []), eq_iff x symbol, eq_iff symbol x)

pub request_symbol-IsInStep :
    (symbol : String) (s : FeedState)
    → SocketAsks s.ws s.subscribed
    → ((x : String) → (includes x s.subscribed || (x == symbol)) ≡ is_handled (lookup x s.handlers))
    → IsInStep (request_symbol symbol s)
unfolding request_symbol send
request_symbol-IsInStep symbol s h k = elim (Bool-cases (includes symbol s.subscribed)) [
  | inl e ↦ rw e (record { asked = h; needed = λ x. already symbol s.subscribed x e ∙ k x })
  | inr e ↦ rw e (record {
    asked =
        SocketAsks-send_to (subscribe (symbol ∷ [])) s.ws s.subscribed _
          (served_subscribe symbol s.subscribed) h;
    needed = λ x. includes-snoc x symbol s.subscribed ∙ k x;
  })
]

connect-handlers :
    (ok : Bool) (s : FeedState)
    → ((connect ok s).handlers ≡ s.handlers) × ((connect ok s).subscribed ≡ s.subscribed)
unfolding connect open_socket
connect-handlers ok s = (ground arith, ground arith)

pub open_socket-IsInStep : (ok : Bool) (s : FeedState) → IsInStep s → IsInStep (open_socket ok s)
unfolding open_socket
open_socket-IsInStep false s h = record { asked = h.asked; needed = h.needed }
open_socket-IsInStep true s h = record { asked = refl; needed = h.needed }

pub connect-IsInStep : (ok : Bool) (s : FeedState) → IsInStep s → IsInStep (connect ok s)
unfolding connect
connect-IsInStep ok s h = elim (Bool-cases (is_live s.ws)) [
  | inl e ↦ rw e h
  | inr e ↦ rw e (
      open_socket-IsInStep ok (record s { stopped = false })
        (record { asked = h.asked; needed = h.needed }))
]

pub subscribe_to-IsInStep :
    (ok : Bool) (symbol : String) (h : ℕ) (s : FeedState)
    → IsInStep s
    → IsInStep (subscribe_to ok symbol h s)
unfolding subscribe_to
subscribe_to-IsInStep ok symbol h s i = elim (Bool-cases (symbol == "")) [
  | inl e ↦ rw e i
  | inr e ↦
      let c = connect-IsInStep ok s i in
      rw e (
        request_symbol-IsInStep symbol (handle symbol h (connect ok s)) c.asked (λ x.
          ap (λ b. b || (x == symbol)) (c.needed x)
          ∙ sym (is_handled-handle symbol h (connect ok s) x)))
]
