-- ===== src/Backtest/Live/Peek.antt =====
-- The phantom trades that the stepper advances bar by bar, against the forward look of the backtest.
use marketmind_open.Common.{
  ℕ, zero, suc, ◌+◌, ◌-◌, ◌≤◌, ◌<◌, ◌≡◌, refl, true, ◌&&◌, Option, none, some, inl, inr, Bool-cases,
  Option-cases, ltb, lt→ltb, if◌then◌else◌, arith,
}
use marketmind_open.Common.Result.{Result, Result-cases, ok, err, ◌>>=◌}
use marketmind_open.Backtest.Floats.{Floats, nought}
use marketmind_open.Backtest.Schema.{Position, Compiled}
use marketmind_open.Backtest.Levels.{intrabar_exit, update_trailing}
use marketmind_open.Backtest.Positions.{exit_hit}
use marketmind_open.Backtest.Phantom.{phantom_loop, phantom_position, no_fill, phantom}
use marketmind_open.Backtest.Live.Checkpoint.{LivePhantom}
use marketmind_open.Backtest.Live.{Advanced, still_open, advance_open, advance_phantom, new_phantom}

module _ {F : Type 0} (fl : Floats F) (c : Compiled F) where
  -- A phantom advanced over `left` bars from `bar` on, or until it resolves.
  pub advance_all : ℕ → ℕ → LivePhantom F → Result (Advanced fl c)
  advance_all zero bar ph = ok (inl ph)
  advance_all (suc left) bar ph = advance_phantom fl c ph bar >>= λ advanced. elim advanced [
    | inl ph' ↦ advance_all left (suc bar) ph'
    | inr out ↦ ok (inr out)
  ]

  -- The variables of a phantom after a bar whose range hits nothing.
  abbrev later : ℕ → ℕ → Position F → LivePhantom F
  later signal_bar bar pos =
      still_open fl c signal_bar (update_trailing fl pos c.stop_method (c.highs bar) c.atr bar)
        (if exit_hit c bar signal_bar then some bar else none)

  abbrev look : ℕ → ℕ → ℕ → ℕ → Position F → Option ℕ → F × ℕ
  look n signal_bar rest bar pos pending = phantom_loop fl c n signal_bar rest bar pos pending

  module _ (n signal_bar rest bar : ℕ) (pos : Position F)
      (inside : intrabar_exit fl pos (c.lows bar) (c.highs bar) (c.opens bar) ≡ none) where
    look-later :
        suc bar < n
        → look n signal_bar (suc rest) bar pos none
          ≡ look n signal_bar rest
              (suc bar)
              (update_trailing fl pos c.stop_method (c.highs bar) c.atr bar)
              (if exit_hit c bar signal_bar then some bar else none)
    unfolding phantom_loop
    look-later h = elim (Bool-cases (exit_hit c bar signal_bar)) [
      | inl hit ↦
          let before_end : ltb bar (n - 1) ≡ true = lt→ltb bar (n - 1) (omega (arith, h)) in
          rw (phantom_loop, inside, hit, before_end) refl
      | inr no_hit ↦ rw (phantom_loop, inside, no_hit) refl
    ]

    advance_all-later :
        (left : ℕ)
        → advance_all (suc left) bar (still_open fl c signal_bar pos none)
          ≡ advance_all left (suc bar) (later signal_bar bar pos)
    unfolding advance_all advance_phantom
    advance_all-later left = rw (advance_all, advance_open, inside) refl

  phantom_loop_bar :
      (n signal_bar left bar : ℕ) (pos : Position F) (pending : Option ℕ)
      → bar + suc left ≡ n
      → bar ≤ (look n signal_bar (suc left) bar pos pending).1
  unfolding phantom_loop
  phantom_loop_bar n s left bar pos (some exit_bar) h = omega arith
  phantom_loop_bar n s zero bar pos none h =
      elim (Option-cases (intrabar_exit fl pos (c.lows bar) (c.highs bar) (c.opens bar))) [
        | inr (out, hit) ↦ rw (phantom_loop, hit) (omega arith)
        | inl inside ↦ rw (phantom_loop, inside) (omega (arith, h))
      ]
  phantom_loop_bar n s (suc left) bar pos none h =
      elim (Option-cases (intrabar_exit fl pos (c.lows bar) (c.highs bar) (c.opens bar))) [
        | inr (out, hit) ↦ rw (phantom_loop, hit) (omega arith)
        | inl inside ↦
            let pos' = update_trailing fl pos c.stop_method (c.highs bar) c.atr bar in
            let pending' : Option ℕ =
              if exit_hit c bar s && ltb bar (n - 1) then some bar else none in
            rw (phantom_loop, inside)
              (omega (arith, phantom_loop_bar n s left (suc bar) pos' pending' (omega (arith, h))))
      ]

  -- What the forward look sees of a phantom that is open at `bar`.
  abbrev Seen : F × ℕ → ℕ → Result (Advanced fl c) → Type 0
  Seen outcome last (err e) = ⊥
  Seen outcome last (ok (inr out)) = outcome ≡ out
  Seen outcome last (ok (inl ph)) = last ≤ outcome.1

  advance_all-Seen :
      (n signal_bar left rest bar last : ℕ) (pos : Position F) (pending : Option ℕ)
      → bar + rest ≡ n
      → bar + left ≡ last
      → last < n
      → Seen
          (look n signal_bar rest bar pos pending)
          last
          (advance_all left bar (still_open fl c signal_bar pos pending))
  unfolding advance_all advance_phantom phantom_loop
  advance_all-Seen n s left zero bar last pos pending whole ends h = absurd (omega arith)
  advance_all-Seen n s zero (suc rest) bar last pos pending whole ends h =
      omega (arith, phantom_loop_bar n s rest bar pos pending whole)
  advance_all-Seen n s (suc left) (suc rest) bar last pos (some exit_bar) whole ends h = refl
  advance_all-Seen n s (suc left) (suc rest) bar last pos none whole ends h =
      elim (Option-cases (intrabar_exit fl pos (c.lows bar) (c.highs bar) (c.opens bar))) [
        | inr ((price, reason), hit) ↦ rw (phantom_loop, advance_all, advance_open, hit) refl
        | inl inside ↦
            let pos' = update_trailing fl pos c.stop_method (c.highs bar) c.atr bar in
            let pending' : Option ℕ = if exit_hit c bar s then some bar else none in
            rw (look-later n s rest bar pos inside (omega arith)) (
              rw (advance_all-later n s rest bar pos inside left) (
                advance_all-Seen n s left rest (suc bar) last pos' pending' (omega (arith, whole))
                  (omega (arith, ends)) h))
      ]

  -- What the backtest foresees of the phantom of a signal, given how the stepper's stands at `last`.
  abbrev pub Foresees : ℕ → ℕ → ℕ → Result (Advanced fl c) → Type 0
  Foresees n signal_bar last (err e) = phantom fl c n signal_bar ≡ err e
  Foresees n signal_bar last (ok (inr out)) = phantom fl c n signal_bar ≡ ok out
  Foresees n signal_bar last (ok (inl ph)) =
      (out : F × ℕ) × (phantom fl c n signal_bar ≡ ok out) × (last ≤ out.1)

  Seen-Foresees :
      (n signal_bar last : ℕ) (out : F × ℕ) (a : Result (Advanced fl c))
      → phantom fl c n signal_bar ≡ ok out
      → Seen out last a
      → Foresees n signal_bar last a
  Seen-Foresees n s last out (err e) h seen = absurd seen
  Seen-Foresees n s last out (ok (inr result)) h seen = rw (← seen) h
  Seen-Foresees n s last out (ok (inl ph)) h seen = (out, h, seen)

  -- The phantom trade of a skipped signal, advanced bar by bar over bars before the last one, agrees with
  -- the forward look of the backtest: where it has resolved, the look gave the same return and the same
  -- bar; where it is still open, the look resolves it no earlier than the next bar; and where the target
  -- raises, both raise the same error.
  pub advance_all-Foresees :
      (n left signal_bar : ℕ)
      → signal_bar + suc (suc left) < n
      → Foresees n signal_bar
          (signal_bar + suc (suc left))
          (advance_all (suc left) (suc signal_bar) (new_phantom fl c signal_bar))
  unfolding advance_all advance_phantom phantom
  advance_all-Foresees n left s h = elim (Bool-cases (no_fill fl c (c.opens (suc s)))) [
    | inl unfilled ↦
        let skipped : phantom fl c n s ≡ ok (nought fl, suc s) = rw (phantom, unfilled) refl in
        rw (advance_all, advance_phantom, unfilled) skipped
    | inr fills ↦ elim (Result-cases (phantom_position fl c s (c.opens (suc s)))) [
      | inr (e, r) ↦
          let fails : phantom fl c n s ≡ err e = rw (phantom, fills, r) refl in
          rw (advance_all, advance_phantom, fills, r) fails
      | inl (pos, r) ↦
          let out = look n s (n - suc s) (suc s) pos none in
          let foreseen : phantom fl c n s ≡ ok out = rw (phantom, fills, r) refl in
          let opens : advance_all (suc left) (suc s) (new_phantom fl c s)
              ≡ advance_all (suc left) (suc s) (still_open fl c s pos none) =
            rw (advance_all, advance_phantom, fills, r) refl in
          rw opens (
            Seen-Foresees n s (s + suc (suc left)) out _ foreseen (
              advance_all-Seen n s (suc left) (n - suc s) (suc s) (s + suc (suc left)) pos none
                (omega arith) (omega arith) h))
    ]
  ]
