-- ===== src/Session/Launch.antt =====
-- `consumeRuntimeLaunchToken` of services/api/session.ts, in a browser.
use Prim.Native.String
use aiautomation.Common.{
  String, ◌==◌, false, ◌≡◌, refl, ap, ◌∙◌, Bool-cases, inl, inr, Option, none, some, if◌then◌else◌,
}

-- The token that was read before, what the page was given, and the address bar.
pub record LaunchPage : Type 0 where
  pub runtime_token : Option String
  pub injected : Option String
  pub path : String
  pub hash : String

-- `s ? s : undefined`
abbrev non_empty : Option String → Option String
non_empty none = none
non_empty (some s) = if s == "" then none else some s

abbrev map_text : (String → String) → Option String → Option String
map_text f none = none
map_text f (some s) = some (f s)

-- `trim`, the text of the fragment behind its `#`, and `URLSearchParams`: the value of the key, and
-- the text without it.
module _ (trim : String → String) (fragment_of : String → String) (get_key : String → Option String)
    (delete_key : String → String) where
  -- `window.history.replaceState`
  abbrev clean_hash : String → String
  clean_hash hash =
      let remaining = delete_key (fragment_of hash) in
      if remaining == "" then "" else String.◌++◌ "#" remaining

  abbrev from_hash : Option String → LaunchPage → LaunchPage × Option String
  from_hash none p = (p, none)
  from_hash (some token) p =
      (record p { runtime_token = some token; hash = clean_hash p.hash }, some token)

  abbrev from_page : Option String → LaunchPage → LaunchPage × Option String
  from_page none p = from_hash (non_empty (map_text trim (get_key (fragment_of p.hash)))) p
  from_page (some token) p = (record p { runtime_token = some token; injected = none }, some token)

  abbrev from_memory : Option String → LaunchPage → LaunchPage × Option String
  from_memory none p = from_page (non_empty (map_text trim p.injected)) p
  from_memory (some token) p = (p, some token)

  unfoldable pub consume_runtime_launch_token : LaunchPage → LaunchPage × Option String
  consume_runtime_launch_token p = from_memory (non_empty p.runtime_token) p

  -- The token of a page, where it is not empty, is what it remembers.
  abbrev Remembers : LaunchPage × Option String → Type 0
  Remembers (p, none) = Unit
  Remembers (p, some t) = (p.runtime_token ≡ some t) × ((t == "") ≡ false)

  abbrev IsFull : Option String → Type 0
  IsFull none = Unit
  IsFull (some t) = (t == "") ≡ false

  non_empty-IsFull : (o : Option String) → IsFull (non_empty o)
  non_empty-IsFull none = tt
  non_empty-IsFull (some s) = elim (Bool-cases (s == "")) [ inl e ↦ rw e tt | inr e ↦ rw e e ]

  non_empty-some : (o : Option String) (t : String) → non_empty o ≡ some t → o ≡ some t
  non_empty-some none t h = h
  non_empty-some (some s) t h = elim (Bool-cases (s == "")) [
    | inl e ↦ let clash : none ≡ some t = rw e at h in cc
    | inr e ↦ rw e at h
  ]

  from_hash-Remembers : (o : Option String) (p : LaunchPage) → IsFull o → Remembers (from_hash o p)
  from_hash-Remembers none p h = tt
  from_hash-Remembers (some t) p h = (refl, h)

  from_page-Remembers : (o : Option String) (p : LaunchPage) → IsFull o → Remembers (from_page o p)
  from_page-Remembers none p h =
      let token = map_text trim (get_key (fragment_of p.hash)) in
      from_hash-Remembers (non_empty token) p (non_empty-IsFull token)
  from_page-Remembers (some t) p h = (refl, h)

  from_memory-Remembers :
      (p : LaunchPage) (o : Option String)
      → non_empty p.runtime_token ≡ o
      → IsFull o
      → Remembers (from_memory o p)
  from_memory-Remembers p none e h =
      let token = map_text trim p.injected in
      from_page-Remembers (non_empty token) p (non_empty-IsFull token)
  from_memory-Remembers p (some t) e h = (non_empty-some p.runtime_token t e, h)

  consume_remembered :
      (r : LaunchPage × Option String) (t : String)
      → Remembers r
      → r.1 ≡ some t
      → consume_runtime_launch_token r.0 ≡ (r.0, some t)
  unfolding consume_runtime_launch_token
  consume_remembered (p, none) t h e = cc
  consume_remembered (p, some u) t h e =
      let full : non_empty p.runtime_token ≡ some u = rw (h.0, h.1) refl in
      ap (λ o. from_memory o p) full ∙ ap (λ o. (p, o)) e

  -- A token that was found once is found again, and nothing else changes.
  pub consume_runtime_launch_token_again :
      (p : LaunchPage) (t : String)
      → (consume_runtime_launch_token p).1 ≡ some t
      → consume_runtime_launch_token (consume_runtime_launch_token p).0
        ≡ ((consume_runtime_launch_token p).0, some t)
  unfolding consume_runtime_launch_token
  consume_runtime_launch_token_again p t e =
      consume_remembered (consume_runtime_launch_token p) t
        (from_memory-Remembers p (non_empty p.runtime_token) refl
          (non_empty-IsFull p.runtime_token))
        e
