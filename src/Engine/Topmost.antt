-- ===== src/Engine/Topmost.antt =====
-- utils/drawingEngine.ts: which drawing hitTestDrawings returns.
use mathlib.Core.List.{reverse, reverse-cons, reverse-reverse}
use aiautomation.Common.{
  Bool, Option, ◌≡◌, refl, ap, ◌∙◌, sym, subst, true, false, Bool-cases, inl, inr, Option-cases,
  none, some, List, [], ◌∷◌, ◌++◌, All, All-append, append_assoc, length, if◌then◌else◌, arith,
}
use aiautomation.Drawing.{
  DrawingType, Drawing, DrawingPoint, point_count, horizontal_line, trendline, fibonacci,
}
use aiautomation.Drawing.Points.{HasPoints}
use aiautomation.Engine.{Plane, HitTestResult}
use aiautomation.Engine.HitTest.{
  HitOutcome, fault, missed, found, Canvas, hit_horizontal, hit_between, hit_trendline,
  hit_fibonacci, hit_drawing, hit_from, hit_test_drawings,
}

module _ {N : Type 0} (g : Plane N) (c : Canvas N) where
  -- What the result says of the drawings, the first of which is the lowest on the screen.
  abbrev pub IsTopmost : List (Drawing N) → HitOutcome → Type 0
  IsTopmost drawings fault = ⊥
  IsTopmost drawings missed = All (λ d. hit_drawing g c d ≡ missed) drawings
  IsTopmost drawings (found r) =
      (below : List (Drawing N)) × (d : Drawing N) × (above : List (Drawing N)) × (drawings
        ≡ below ++ d ∷ above)
      × (d.visible ≡ true)
      × (d.id ≡ r.drawing_id)
      × (hit_drawing g c d ≡ found r)
      × All (λ e. hit_drawing g c e ≡ missed) above

  -- What a pass of the loop over one drawing can find.
  abbrev IsHit : Drawing N → HitOutcome → Type 0
  IsHit d fault = ⊥
  IsHit d missed = Unit
  IsHit d (found r) = d.id ≡ r.drawing_id

  outcome_fits :
      (d : Drawing N) (b : Bool) (r : HitTestResult)
      → d.id ≡ r.drawing_id
      → IsHit d (if b then found r else missed)
  outcome_fits d true r e = e
  outcome_fits d false r e = tt

  hit_horizontal-IsHit :
      (d : Drawing N) (ps : List (DrawingPoint N))
      → length ps ≡ 1
      → IsHit d (hit_horizontal g c d ps)
  unfolding hit_horizontal
  hit_horizontal-IsHit d [] h = absurd (omega arith)
  hit_horizontal-IsHit d (p ∷ ps) h = elim (Option-cases (c.price_to_y p.price)) [
    | inl e ↦ rw (e, hit_horizontal) tt
    | inr (y, e) ↦ rw (e, hit_horizontal) (outcome_fits d _ _ refl)
  ]

  hit_between-IsHit :
      (d : Drawing N) (x1 y1 x2 y2 : Option N) → IsHit d (hit_between g c d x1 y1 x2 y2)
  unfolding hit_between
  hit_between-IsHit d (some x1) (some y1) (some x2) (some y2) = outcome_fits d _ _ refl
  hit_between-IsHit d (some x1) (some y1) (some x2) none = tt
  hit_between-IsHit d (some x1) (some y1) none y2 = tt
  hit_between-IsHit d (some x1) none x2 y2 = tt
  hit_between-IsHit d none y1 x2 y2 = tt

  hit_trendline-IsHit :
      (d : Drawing N) (ps : List (DrawingPoint N)) → IsHit d (hit_trendline g c d ps)
  unfolding hit_trendline
  hit_trendline-IsHit d [] = tt
  hit_trendline-IsHit d (p ∷ []) = tt
  hit_trendline-IsHit d (p ∷ q ∷ rest) = hit_between-IsHit d _ _ _ _

  hit_fibonacci-IsHit :
      (d : Drawing N) (ps : List (DrawingPoint N)) → IsHit d (hit_fibonacci g c d ps)
  unfolding hit_fibonacci
  hit_fibonacci-IsHit d [] = tt
  hit_fibonacci-IsHit d (p ∷ []) = tt
  hit_fibonacci-IsHit d (p ∷ q ∷ rest) = outcome_fits d _ _ refl

  -- the switch over the type
  abbrev switch : Drawing N → List (DrawingPoint N) → DrawingType → HitOutcome
  switch d ps horizontal_line = hit_horizontal g c d ps
  switch d ps trendline = hit_trendline g c d ps
  switch d ps fibonacci = hit_fibonacci g c d ps

  switch-IsHit :
      (d : Drawing N) (ps : List (DrawingPoint N)) (type : DrawingType)
      → length ps ≡ point_count type
      → IsHit d (switch d ps type)
  switch-IsHit d ps horizontal_line h = hit_horizontal-IsHit d ps h
  switch-IsHit d ps trendline h = hit_trendline-IsHit d ps
  switch-IsHit d ps fibonacci h = hit_fibonacci-IsHit d ps

  hit_drawing-switch :
      (d : Drawing N) → d.visible ≡ true → hit_drawing g c d ≡ switch d d.points d.type
  unfolding hit_drawing
  hit_drawing-switch d e = rw (e, hit_drawing) (by_type d.type)
    where
      by_type :
          (type : DrawingType)
          → (elim type [
            | horizontal_line ↦ hit_horizontal g c d d.points
            | trendline ↦ hit_trendline g c d d.points
            | fibonacci ↦ hit_fibonacci g c d d.points
          ])
            ≡ switch d d.points type
      by_type horizontal_line = refl
      by_type trendline = refl
      by_type fibonacci = refl

  hit_drawing-hidden : (d : Drawing N) → d.visible ≡ false → hit_drawing g c d ≡ missed
  unfolding hit_drawing
  hit_drawing-hidden d e = rw (e, hit_drawing) refl

  -- A drawing with its points is hit, as itself, or missed.
  hit_drawing-IsHit : (d : Drawing N) → HasPoints d → IsHit d (hit_drawing g c d)
  hit_drawing-IsHit d h = elim (Bool-cases d.visible) [
    | inl e ↦ rw (hit_drawing-switch d e) (switch-IsHit d d.points d.type h)
    | inr e ↦ rw (hit_drawing-hidden d e) tt
  ]

  found-visible :
      (d : Drawing N) (r : HitTestResult) → hit_drawing g c d ≡ found r → d.visible ≡ true
  found-visible d r h = elim (Bool-cases d.visible) [
    | inl e ↦ e
    | inr e ↦ let clash : found r ≡ missed = sym h ∙ hit_drawing-hidden d e in cc
  ]

  -- A drawing above the others that is missed changes nothing.
  IsTopmost-snoc :
      (ds : List (Drawing N)) (d : Drawing N) (o : HitOutcome)
      → hit_drawing g c d ≡ missed
      → IsTopmost ds o
      → IsTopmost (ds ++ d ∷ []) o
  IsTopmost-snoc ds d fault e h = h
  IsTopmost-snoc ds d missed e h = All-append _ ds (d ∷ []) h (e, tt)
  IsTopmost-snoc ds d (found r) e (below, b, above, eq, v, id, f, m) = (
    below,
    b,
    above ++ d ∷ [],
    ap (λ t. t ++ d ∷ []) eq ∙ append_assoc below (b ∷ above) (d ∷ []),
    v,
    id,
    f,
    All-append _ above (d ∷ []) m (e, tt),
  )

  outcome_above :
      (ds : List (Drawing N)) (d : Drawing N) (rest o : HitOutcome)
      → HasPoints d
      → hit_drawing g c d ≡ o
      → IsTopmost ds rest
      → IsTopmost (ds ++ d ∷ []) (elim o [ fault ↦ fault | missed ↦ rest | found r ↦ found r ])
  outcome_above ds d rest fault p e h = rw e at (hit_drawing-IsHit d p)
  outcome_above ds d rest missed p e h = IsTopmost-snoc ds d rest e h
  outcome_above ds d rest (found r) p e h =
      (ds, d, [], refl, found-visible d r e, rw e at (hit_drawing-IsHit d p), e, tt)

  hit_from-IsTopmost :
      (ds : List (Drawing N)) → All HasPoints ds → IsTopmost (reverse ds) (hit_from g c ds)
  unfolding hit_from
  hit_from-IsTopmost [] h = tt
  hit_from-IsTopmost (d ∷ ds) h = rw (reverse-cons d ds) (
      outcome_above (reverse ds) d (hit_from g c ds) (hit_drawing g c d) h.0 refl
        (hit_from-IsTopmost ds h.1))

  All-reverse : (ds : List (Drawing N)) → All HasPoints ds → All HasPoints (reverse ds)
  All-reverse [] h = tt
  All-reverse (d ∷ ds) h =
      rw (reverse-cons d ds)
        (All-append HasPoints (reverse ds) (d ∷ []) (All-reverse ds h.1) (h.0, tt))

  -- For drawings with the points of their tools, `hitTestDrawings` does not fail: it returns the
  -- hit of a visible drawing above which every drawing is missed, or null where all are missed.
  pub hit_test_drawings-IsTopmost :
      (drawings : List (Drawing N))
      → All HasPoints drawings
      → IsTopmost drawings (hit_test_drawings g c drawings)
  unfolding hit_test_drawings
  hit_test_drawings-IsTopmost drawings h =
      subst (λ ds. IsTopmost ds (hit_from g c (reverse drawings))) (reverse-reverse drawings)
        (hit_from-IsTopmost (reverse drawings) (All-reverse drawings h))
