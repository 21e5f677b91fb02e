-- ===== src/Research/Loading.antt =====
-- store/diagnosticsStore.ts: the flag `loading` under all actions and answers.
use aiautomation.Common.{
  ℕ, String, ◌≡◌, refl, inl, inr, Bool, true, false, Bool-cases, not, Option, none, some, List, ◌∷◌,
  ◌++◌, if◌then◌else◌,
}
use aiautomation.Common.Pending.{OnlyWhile, waits_new, waits_more, waits_less}
use aiautomation.Research.Diagnostics.{
  Lookback, RefreshRun, Diagnostics, Waiting, load_waits, refresh_waits, poll_waits,
  DiagnosticsPage, set_enabled, set_lookback_days, dismiss_error, ask_all, receive_all, ask_refresh,
  receive_refresh, ask_poll, is_done, poll_error, receive_poll,
}

abbrev is_load : Waiting → Bool
is_load load_waits = true
is_load refresh_waits = false
is_load (poll_waits id) = false

module _ {D : Type 0} (to_lower : String → String) where
  -- The page behind one of its actions, or behind the answer to one of the requests that wait.
  pub data PageStep : DiagnosticsPage D → DiagnosticsPage D → Type 0 where
    enabling :
        {p : DiagnosticsPage D} (v : Bool) → PageStep p (record p { state = set_enabled v p.state })
    looking_back :
        {p : DiagnosticsPage D} (days : Lookback)
        → PageStep p (record p { state = set_lookback_days days p.state })
    dismissing : {p : DiagnosticsPage D} → PageStep p (record p { state = dismiss_error p.state })
    asking : {p : DiagnosticsPage D} → PageStep p (ask_all p)
    refreshing : {p : DiagnosticsPage D} → PageStep p (ask_refresh p)
    polling : {p : DiagnosticsPage D} (id : ℕ) → PageStep p (ask_poll id p)
    all_came :
        {p : DiagnosticsPage D} (before after : List Waiting) (d : Option (Diagnostics D × ℕ))
        (message : String)
        → p.waiting ≡ before ++ load_waits ∷ after
        → PageStep p (record { state = receive_all d message p.state; waiting = before ++ after })
    refresh_came :
        {p : DiagnosticsPage D} (before after : List Waiting) (r : Option (ℕ × RefreshRun))
        (message : String)
        → p.waiting ≡ before ++ refresh_waits ∷ after
        → PageStep p
            (record { state = receive_refresh r message p.state; waiting = before ++ after })
    poll_came :
        {p : DiagnosticsPage D} (id : ℕ) (before after : List Waiting) (r : Option (RefreshRun × ℕ))
        (message : String)
        → p.waiting ≡ before ++ poll_waits id ∷ after
        → PageStep p (receive_poll to_lower r message (record p { waiting = before ++ after }))

  pub data PageRun (first : DiagnosticsPage D) : DiagnosticsPage D → Type 0 where
    at_first : PageRun first first
    then_step : {p q : DiagnosticsPage D} → PageRun first p → PageStep p q → PageRun first q

module _ {D : Type 0} where
  -- The page shows that it loads only while a load waits.
  abbrev pub IsBusy : DiagnosticsPage D → Type 0
  IsBusy p = OnlyWhile is_load p.state.loading p.waiting

module _ {D : Type 0} (to_lower : String → String) where
  ask_all-IsBusy : (p : DiagnosticsPage D) → IsBusy p → IsBusy (ask_all p)
  unfolding ask_all
  ask_all-IsBusy p h = elim (Bool-cases p.state.enabled) [
    | inl e ↦ rw (e, ask_all) (waits_new is_load true p.waiting load_waits refl)
    | inr e ↦ rw (e, ask_all) h
  ]

  ask_refresh-IsBusy : (p : DiagnosticsPage D) → IsBusy p → IsBusy (ask_refresh p)
  unfolding ask_refresh
  ask_refresh-IsBusy p h = elim (Bool-cases p.state.enabled) [
    | inl e ↦ rw (e, ask_refresh) (waits_more is_load _ p.waiting refresh_waits h)
    | inr e ↦ rw (e, ask_refresh) h
  ]

  one_of_both :
      (test : Bool) (p q : DiagnosticsPage D) → IsBusy p → IsBusy q → IsBusy (if test then p else q)
  one_of_both true p q h k = h
  one_of_both false p q h k = k

  receive_poll-IsBusy :
      (r : Option (RefreshRun × ℕ)) (message : String) (p : DiagnosticsPage D)
      → IsBusy p
      → IsBusy (receive_poll to_lower r message p)
  unfolding receive_poll
  receive_poll-IsBusy none message p h = h
  receive_poll-IsBusy (some (run, now)) message p h =
      let polled : DiagnosticsPage D = record p {
        state = record (p.state) {
          refresh_run = some run;
          refreshing = not (is_done to_lower now run);
          error = poll_error to_lower now run;
        };
      } in
      one_of_both _ (ask_all polled) polled (ask_all-IsBusy polled h) h

  PageStep-IsBusy : {p q : DiagnosticsPage D} → PageStep to_lower p q → IsBusy p → IsBusy q
  unfolding ask_poll receive_all receive_refresh
  PageStep-IsBusy (enabling v) h = h
  PageStep-IsBusy (looking_back days) h = h
  PageStep-IsBusy dismissing h = h
  PageStep-IsBusy {p} asking h = ask_all-IsBusy p h
  PageStep-IsBusy {p} refreshing h = ask_refresh-IsBusy p h
  PageStep-IsBusy {p} (polling id) h = waits_more is_load _ p.waiting (poll_waits id) h
  PageStep-IsBusy (all_came before after (some (d, now)) message e) h = inl refl
  PageStep-IsBusy (all_came before after none message e) h = inl refl
  PageStep-IsBusy {p} (refresh_came before after (some (code, run)) message e) h =
      waits_less is_load _ before after p.waiting refresh_waits e refl h
  PageStep-IsBusy {p} (refresh_came before after none message e) h =
      waits_less is_load _ before after p.waiting refresh_waits e refl h
  PageStep-IsBusy {p} (poll_came id before after r message e) h =
      receive_poll-IsBusy r message (record p { waiting = before ++ after })
        (waits_less is_load _ before after p.waiting (poll_waits id) e refl h)

  -- However its actions and the answers interleave, the page shows that it loads only while a load
  -- waits for its answer.
  pub PageRun-IsBusy :
      {first page : DiagnosticsPage D} → PageRun to_lower first page → IsBusy first → IsBusy page
  PageRun-IsBusy at_first h = h
  PageRun-IsBusy (then_step run s) h = PageStep-IsBusy s (PageRun-IsBusy run h)
