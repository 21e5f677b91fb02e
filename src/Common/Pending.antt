-- ===== src/Common/Pending.antt =====
-- Requests that wait for their answer, as a list, and a flag that is on only while one of a kind waits.
use aiautomation.Common.{
  ◌≡◌, refl, sym, ap, ◌∙◌, ◌⊎◌, inl, inr, Bool, true, false, ◌||◌, List, [], ◌∷◌, ◌++◌, any, arith,
}

module _ {A : Type 0} (p : A → Bool) where
  any-append : (xs ys : List A) → any p (xs ++ ys) ≡ (any p xs || any p ys)
  any-append [] ys = refl
  any-append (x ∷ xs) ys = ground (arith, any-append xs ys)

  any_without :
      (before after ws : List A) (w : A)
      → ws ≡ before ++ w ∷ after
      → p w ≡ false
      → any p ws ≡ true
      → any p (before ++ after) ≡ true
  any_without before after ws w e n h =
      let k : any p (before ++ w ∷ after) ≡ true = ap (any p) (sym e) ∙ h in
      ground (arith, any-append before (w ∷ after), any-append before after)

  -- The flag is off, or one of the kind waits.
  abbrev pub OnlyWhile : Bool → List A → Type 0
  OnlyWhile flag ws = (flag ≡ false) ⊎ (any p ws ≡ true)

  pub waits_new : (flag : Bool) (ws : List A) (w : A) → p w ≡ true → OnlyWhile flag (ws ++ w ∷ [])
  waits_new flag ws w e = inr (ground (arith, any-append ws (w ∷ [])))

  pub waits_more :
      (flag : Bool) (ws : List A) (w : A) → OnlyWhile flag ws → OnlyWhile flag (ws ++ w ∷ [])
  waits_more flag ws w (inl h) = inl h
  waits_more flag ws w (inr h) = inr (ground (arith, any-append ws (w ∷ [])))

  pub waits_less :
      (flag : Bool) (before after ws : List A) (w : A)
      → ws ≡ before ++ w ∷ after
      → p w ≡ false
      → OnlyWhile flag ws
      → OnlyWhile flag (before ++ after)
  waits_less flag before after ws w e n (inl h) = inl h
  waits_less flag before after ws w e n (inr h) = inr (any_without before after ws w e n h)
