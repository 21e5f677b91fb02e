-- ===== src/Feed/Kept.antt =====
-- Every event of `MarketDataWsService` keeps the server in step with the handlers.
use aiautomation.Common.{
  ℕ, ◌-◌, String, ◌==◌, eq_iff, eq_refl, ◌≡◌, refl, ap, subst, ◌∙◌, sym, Bool, true, false, not,
  ◌&&◌, ◌||◌, Option, none, some, List, [], ◌∷◌, filter, eqb, ltb, length, arith, lookup,
  lookup-insert, includes, includes-append, includes-without, Bool-cases, Option-cases, inl, inr,
  if◌then◌else◌,
}
use aiautomation.Symbols.{normalize_symbol}
use aiautomation.Feed.{
  Outgoing, subscribe, unsubscribe, ping, Phase, connecting, open_, closing, closed, Socket,
  Incoming, malformed, no_quote, quote, FeedState,
}
use aiautomation.Feed.Service.{
  send, disconnect, subscribe_symbol, unhandle, is_handled, is_open, release_symbol,
  unsubscribe_symbol, on_open, resent, on_message, on_close, in_phase, watch, Event, connects,
  disconnects, subscribes, unsubscribes, opens, old_opens, messages, closes, old_closes, pings,
  watches, reconnects, happen, happen_all, initial_service, is_connecting,
}
use aiautomation.Feed.InStep.{
  AsksFor, SocketAsks, IsInStep, SocketAsks-send_to, served_unsubscribe, open_socket-IsInStep,
  connect-IsInStep, subscribe_to-IsInStep,
}

and_false : (b : Bool) → (b && false) ≡ false
and_false true = refl
and_false false = refl

and_true : (b : Bool) → (b && true) ≡ b
and_true true = refl
and_true false = refl

unhandle-kept :
    (symbol : String) (h : ℕ) (s : FeedState)
    → ((unhandle symbol h s).ws ≡ s.ws) × ((unhandle symbol h s).subscribed ≡ s.subscribed)
unhandle-kept symbol h s = (ground arith, ground arith)

lookup-unhandle :
    (symbol : String) (h : ℕ) (s : FeedState) (x : String)
    → (x == symbol) ≡ false
    → lookup x (unhandle symbol h s).handlers ≡ lookup x s.handlers
lookup-unhandle symbol h s x e = elim (Option-cases (lookup symbol s.handlers)) [
  | inl n ↦ rw (n, unhandle) refl
  | inr (hs, n) ↦
      rw (n, unhandle)
        (ground (
          arith,
          lookup-insert symbol x (filter (λ g. not (eqb g h)) hs) s.handlers,
          eq_iff symbol x,
          eq_iff x symbol,
        ))
]

is_handled-filter :
    (h : ℕ) (hs : List ℕ)
    → is_handled (some (filter (λ g. not (eqb g h)) hs)) ≡ true
    → is_handled (some hs) ≡ true
is_handled-filter h [] e = e
is_handled-filter h (g ∷ hs) e = refl

is_handled-unhandle :
    (symbol : String) (h : ℕ) (s : FeedState)
    → is_handled (lookup symbol (unhandle symbol h s).handlers) ≡ true
    → is_handled (lookup symbol s.handlers) ≡ true
is_handled-unhandle symbol h s e = elim (Option-cases (lookup symbol s.handlers)) [
  | inl n ↦ ap is_handled n ∙ ap is_handled (sym n) ∙ (rw (n, unhandle) at e)
  | inr (hs, n) ↦ rw n (
      is_handled-filter h hs (
        rw
          (
            n,
            unhandle,
            lookup-insert symbol symbol (filter (λ g. not (eqb g h)) hs) s.handlers,
            eq_refl symbol,
          )
          at e))
]

still :
    (symbol : String) (s : FeedState) (x : String)
    → ((y : String)
        → (y == symbol) ≡ false
        → includes y s.subscribed ≡ is_handled (lookup y s.handlers))
    → includes symbol s.subscribed ≡ is_handled (lookup symbol s.handlers)
    → includes x s.subscribed ≡ is_handled (lookup x s.handlers)
still symbol s x others own = elim (Bool-cases (x == symbol)) [
  | inl e ↦
      subst (λ y. includes y s.subscribed ≡ is_handled (lookup y s.handlers))
        (sym ((eq_iff x symbol).0 e)) own
  | inr e ↦ others x e
]

dropped :
    (symbol : String) (s : FeedState) (x : String)
    → ((y : String)
        → (y == symbol) ≡ false
        → includes y s.subscribed ≡ is_handled (lookup y s.handlers))
    → is_handled (lookup symbol s.handlers) ≡ false
    → (includes x s.subscribed && not (x == symbol)) ≡ is_handled (lookup x s.handlers)
dropped symbol s x others own = elim (Bool-cases (x == symbol)) [
  | inl e ↦
      let gone = ap (λ y. is_handled (lookup y s.handlers)) ((eq_iff x symbol).0 e) ∙ own in
      rw (e, gone) (and_false (includes x s.subscribed))
  | inr e ↦ rw e (and_true (includes x s.subscribed) ∙ others x e)
]

release_symbol-IsInStep :
    (symbol : String) (s : FeedState)
    → SocketAsks s.ws s.subscribed
    → ((x : String)
        → (x == symbol) ≡ false
        → includes x s.subscribed ≡ is_handled (lookup x s.handlers))
    → (is_handled (lookup symbol s.handlers) ≡ true → includes symbol s.subscribed ≡ true)
    → IsInStep (release_symbol symbol s)
unfolding release_symbol send
release_symbol-IsInStep symbol s h others own =
    elim (Bool-cases (is_handled (lookup symbol s.handlers))) [
      | inl e ↦ rw e (record { asked = h; needed = λ x. still symbol s x others (own e ∙ sym e) })
      | inr e ↦ rw e (record {
        asked =
            SocketAsks-send_to (unsubscribe (symbol ∷ [])) s.ws s.subscribed _
              (served_unsubscribe symbol s.subscribed) h;
        needed = λ x. includes-without x symbol s.subscribed ∙ dropped symbol s x others e;
      })
    ]

unsubscribe_symbol-IsInStep :
    (symbol : String) (h : ℕ) (s : FeedState)
    → IsInStep s
    → IsInStep (unsubscribe_symbol symbol h s)
unfolding unsubscribe_symbol
unsubscribe_symbol-IsInStep symbol h s i =
    let k = unhandle-kept symbol h s in
    release_symbol-IsInStep symbol (unhandle symbol h s) (rw (k.0, k.1) i.asked)
      (λ x e.
        ap (includes x) k.1 ∙ i.needed x ∙ sym (ap is_handled (lookup-unhandle symbol h s x e)))
      (λ e. ap (includes symbol) k.1 ∙ i.needed symbol ∙ is_handled-unhandle symbol h s e)

or_self : (b : Bool) → (b || b) ≡ b
or_self true = refl
or_self false = refl

SocketAsks-resent :
    (xs : List String) (w : Option Socket) → SocketAsks w xs → SocketAsks (resent xs w) xs
SocketAsks-resent [] w h = h
SocketAsks-resent (x ∷ xs) w h =
    SocketAsks-send_to (subscribe (x ∷ xs)) w (x ∷ xs) (x ∷ xs)
      (λ zs k y.
        includes-append y zs (x ∷ xs)
        ∙ ap (λ b. b || includes y (x ∷ xs)) (k y)
        ∙ or_self (includes y (x ∷ xs)))
      h

resent_opened :
    (xs : List String) → SocketAsks (resent xs (some (record { phase = open_; sent = [] }))) xs
resent_opened [] = λ y. refl
resent_opened (x ∷ xs) = λ y. refl

AsksFor-opened :
    (p : Phase) (sent : List Outgoing) (xs : List String)
    → is_connecting (some (record { phase = p; sent = sent })) ≡ true
    → AsksFor p sent xs
    → SocketAsks (resent xs (some (record { phase = open_; sent = sent }))) xs
AsksFor-opened connecting sent xs e h =
    subst (λ l. SocketAsks (resent xs (some (record { phase = open_; sent = l }))) xs) (sym h)
      (resent_opened xs)
AsksFor-opened open_ sent xs e h = cc
AsksFor-opened closing sent xs e h = cc
AsksFor-opened closed sent xs e h = cc

SocketAsks-opened :
    (w : Option Socket) (xs : List String)
    → is_connecting w ≡ true
    → SocketAsks w xs
    → SocketAsks (resent xs (in_phase open_ w)) xs
SocketAsks-opened none xs e h = cc
SocketAsks-opened (some w) xs e h = AsksFor-opened w.phase w.sent xs e h

SocketAsks-closed : (w : Option Socket) (xs : List String) → SocketAsks (in_phase closed w) xs
SocketAsks-closed none xs = tt
SocketAsks-closed (some w) xs = tt

SocketAsks-closing : (w : Option Socket) (xs : List String) → SocketAsks (in_phase closing w) xs
SocketAsks-closing none xs = tt
SocketAsks-closing (some w) xs = tt

send_ping-IsInStep : (s : FeedState) → IsInStep s → IsInStep (send ping s)
unfolding send
send_ping-IsInStep s i = record {
  asked = SocketAsks-send_to ping s.ws s.subscribed s.subscribed (λ zs k. k) i.asked;
  needed = i.needed;
}

-- The state with another socket, other timers and another time.
same_needs-IsInStep :
    (s t : FeedState)
    → t.subscribed ≡ s.subscribed
    → t.handlers ≡ s.handlers
    → SocketAsks t.ws t.subscribed
    → IsInStep s
    → IsInStep t
same_needs-IsInStep s t u v h i = record {
  asked = h;
  needed = λ x. ap (includes x) u ∙ i.needed x ∙ ap (λ m. is_handled (lookup x m)) (sym v);
}

on_close-IsInStep : (s : FeedState) → IsInStep s → IsInStep (on_close s)
unfolding on_close
on_close-IsInStep s i = elim (Bool-cases s.stopped) [
  | inl e ↦ rw e (same_needs-IsInStep s _ refl refl i.asked i)
  | inr e ↦ rw e (same_needs-IsInStep s _ refl refl i.asked i)
]

warned-IsInStep : (b : Bool) (s : FeedState) → IsInStep s → IsInStep (if b then send ping s else s)
warned-IsInStep true s i = send_ping-IsInStep s i
warned-IsInStep false s i = i

watch-IsInStep : (now : ℕ) (s : FeedState) → IsInStep s → IsInStep (watch now s)
unfolding watch
watch-IsInStep now s i =
    let warned = warned-IsInStep (ltb 10000 (now - s.last_msg)) s i in
    elim (Bool-cases (not (is_open s.ws) || eqb (length s.subscribed) 0)) [
      | inl e ↦ rw e i
      | inr e ↦ elim (Bool-cases (ltb 30000 (now - s.last_msg))) [
        | inl f ↦ rw (e, f) (same_needs-IsInStep _ _ refl refl (SocketAsks-closing _ _) warned)
        | inr f ↦ rw (e, f) warned
      ]
    ]

on_message-IsInStep :
    (now : ℕ) (m : Incoming) (s : FeedState) → IsInStep s → IsInStep (on_message now m s).0
unfolding on_message
on_message-IsInStep now malformed s i = i
on_message-IsInStep now no_quote s i = same_needs-IsInStep s _ refl refl i.asked i
on_message-IsInStep now (quote symbol) s i = same_needs-IsInStep s _ refl refl i.asked i

happen-IsInStep : (e : Event) (s : FeedState) → IsInStep s → IsInStep (happen e s)
unfolding happen subscribe_symbol disconnect on_open
happen-IsInStep (connects ok) s i = connect-IsInStep ok s i
happen-IsInStep disconnects s i = same_needs-IsInStep s _ refl refl tt i
happen-IsInStep (subscribes ok raw h) s i = subscribe_to-IsInStep ok (normalize_symbol raw) h s i
happen-IsInStep (unsubscribes symbol h) s i = unsubscribe_symbol-IsInStep symbol h s i
happen-IsInStep (opens now) s i = elim (Bool-cases (is_connecting s.ws)) [
  | inl e ↦
      rw e (same_needs-IsInStep s _ refl refl (SocketAsks-opened s.ws s.subscribed e i.asked) i)
  | inr e ↦ rw e i
]
happen-IsInStep (old_opens now) s i =
    same_needs-IsInStep s _ refl refl (SocketAsks-resent s.subscribed s.ws i.asked) i
happen-IsInStep (messages now m) s i = on_message-IsInStep now m s i
happen-IsInStep closes s i =
    on_close-IsInStep (record s { ws = in_phase closed s.ws })
      (same_needs-IsInStep s _ refl refl (SocketAsks-closed s.ws s.subscribed) i)
happen-IsInStep old_closes s i = on_close-IsInStep s i
happen-IsInStep pings s i = send_ping-IsInStep s i
happen-IsInStep (watches now) s i = watch-IsInStep now s i
happen-IsInStep (reconnects ok) s i =
    open_socket-IsInStep ok (record s { reconn_timer = false })
      (same_needs-IsInStep s _ refl refl i.asked i)

happen_all-kept : (es : List Event) (s : FeedState) → IsInStep s → IsInStep (happen_all es s)
unfolding happen_all
happen_all-kept [] s i = i
happen_all-kept (e ∷ es) s i = happen_all-kept es (happen e s) (happen-IsInStep e s i)

-- However calls, socket events and timers follow one another from the start, a symbol is subscribed
-- exactly when it has a handler, and once the socket that the service holds is open the messages
-- sent on it have asked the server for exactly the subscribed symbols.
pub happen_all-IsInStep : (es : List Event) → IsInStep (happen_all es initial_service)
unfolding lookup
happen_all-IsInStep es =
    happen_all-kept es initial_service (record { asked = tt; needed = λ x. refl })
