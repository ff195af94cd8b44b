-- ===== src/Backtest/Levels/Trailing.antt =====
-- A stop over the bars of a position.
use marketmind_open.Common.{ℕ, zero, suc, ◌≡◌, ◌⊎◌, refl, true, Option, none, some, inl, arith}
use marketmind_open.Backtest.Floats.{Floats}
use marketmind_open.Backtest.Schema.{StopLossMethod, Position, Series}
use marketmind_open.Backtest.Levels.{update_trailing}

module _ {F : Type 0} (fl : Floats F) (stop_method : Option (StopLossMethod F))
    (atr : Option (Series F)) where
  -- `left` bars with the given highs, from `bar` on.
  pub trail : ℕ → ℕ → Series F → Position F → Position F
  trail zero bar highs pos = pos
  trail (suc left) bar highs pos =
      trail left (suc bar) highs (update_trailing fl pos stop_method (highs bar) atr bar)

  -- The same stop or a higher one; no stop stays none.
  abbrev pub Raised : Option F → Option F → Type 0
  Raised none none = Unit {0}
  Raised (some stop) (some stop') = (stop' ≡ stop) ⊎ (fl.lt stop stop' ≡ true)
  Raised none (some stop') = ⊥
  Raised (some stop) none = ⊥

  update_trailing-Raised :
      (bar : ℕ) (high : F) (pos : Position F)
      → Raised pos.stop_level (update_trailing fl pos stop_method high atr bar).stop_level
  unfolding update_trailing
  update_trailing-Raised bar high pos = ground arith

  Raised-refl : (a : Option F) → Raised a a
  Raised-refl none = tt
  Raised-refl (some x) = inl refl

  module _ (lt_trans : (x y z : F) → fl.lt x y ≡ true → fl.lt y z ≡ true → fl.lt x z ≡ true) where
    Raised-trans : (a b c : Option F) → Raised a b → Raised b c → Raised a c
    Raised-trans none none c h k = k
    Raised-trans none (some y) c h k = absurd h
    Raised-trans (some x) none c h k = absurd h
    Raised-trans (some x) (some y) none h k = absurd k
    Raised-trans (some x) (some y) (some z) h k = ground (arith, h, k, lt_trans x y z)

    -- Where `<` on floats is transitive, a stop is never lowered over the bars of a position, whatever
    -- the highs and the ranges are, NaN included, and none appears or disappears.
    pub trail-Raised :
        (left bar : ℕ) (highs : Series F) (pos : Position F)
        → Raised pos.stop_level (trail left bar highs pos).stop_level
    unfolding trail
    trail-Raised zero bar highs pos = Raised-refl pos.stop_level
    trail-Raised (suc left) bar highs pos =
        let pos' = update_trailing fl pos stop_method (highs bar) atr bar in
        Raised-trans pos.stop_level pos'.stop_level (trail left (suc bar) highs pos').stop_level
          (update_trailing-Raised bar (highs bar) pos) (trail-Raised left (suc bar) highs pos')
