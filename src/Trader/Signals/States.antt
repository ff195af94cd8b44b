-- ===== src/Trader/Signals/States.antt =====
-- What a stateful evaluation stores is what the next one loads.
use Prim.Native.String.{String}
use text.Mathlib.Text.{◌==◌ as str_eq}
use text.Mathlib.TextEquality.{eq_iff}
use marketmind_open.Common.{
  ◌≡◌, refl, ◌<◌, Bool, true, ◌&&◌, none, some, List, [], ◌∷◌, ◌++◌, All, ◌==◌, find, select, inl,
  inr, Bool-cases, Option-cases, arith,
}
use marketmind_open.Clock.{Instant}
use marketmind_open.Trader.Tables.{latest}
use marketmind_open.Trader.Signals.Store.{
  Templates, Store, Pair, cold, warm, is_state_of, state_ts, state_at, state_row,
  load_strategy_state, persist_strategy_state,
}

module _ {A : Type 0} (key : A → Instant) where
  -- Rows before an instant.
  abbrev pub Older : Instant → List A → Type 0
  Older t xs = All (λ x. key x < t) xs

  latest-none : (t : Instant) (xs : List A) → latest key xs ≡ none → Older t xs
  latest-none t [] h = tt
  latest-none t (x ∷ xs) h = elim (Option-cases (latest key xs)) [
    | inl empty ↦ absurd (ground (arith, h, empty))
    | inr (y, found) ↦ absurd (ground (arith, h, found))
  ]

  -- Rows are older than what the latest of them is older than.
  latest-Older :
      (t : Instant) (xs : List A) (y : A) → latest key xs ≡ some y → key y < t → Older t xs
  latest-Older t [] y h lt = absurd (ground (arith, h))
  latest-Older t (x ∷ xs) y h lt = elim (Option-cases (latest key xs)) [
    | inl empty ↦ (ground (arith, h, empty, lt), latest-none t xs empty)
    | inr (z, found) ↦
        (ground (arith, h, found, lt), latest-Older t xs z found (ground (arith, h, found, lt)))
  ]

  latest-append : (xs : List A) (r : A) → Older (key r) xs → latest key (xs ++ r ∷ []) ≡ some r
  latest-append [] r h = refl
  latest-append (x ∷ xs) r h = ground (arith, latest-append xs r h.1, h.0)

  find-Older :
      (q : A → Bool) (t : Instant) (xs : List A)
      → Older t (select q xs)
      → find (λ r. q r && key r == t) xs ≡ none
  find-Older q t [] h = refl
  find-Older q t (x ∷ xs) h = elim (Bool-cases (q x)) [
    | inl here ↦
        let h' : Older t (x ∷ select q xs) = rw here at h in
        ground (arith, here, h'.0, find-Older q t xs h'.1)
    | inr there ↦
        let h' : Older t (select q xs) = rw there at h in
        ground (arith, there, find-Older q t xs h')
  ]

  select-append :
      (q : A → Bool) (xs : List A) (r : A)
      → q r ≡ true
      → select q (xs ++ r ∷ []) ≡ select q xs ++ r ∷ []
  select-append q [] r h = rw h refl
  select-append q (x ∷ xs) r h = ground (arith, select-append q xs r h)

str_eq_refl : (a : String) → str_eq a a ≡ true
str_eq_refl a = ground (arith, eq_iff a a)

module _ {T St : Type 0} (ops : Templates T St) where
  is_state_of-state_row :
      (p : Pair) (t : Instant) (next : St) → is_state_of p (state_row ops p t next) ≡ true
  is_state_of-state_row p t next = ground (arith, str_eq_refl p.symbol, str_eq_refl p.timeframe)

  -- A state stored after all of its pair is the one to load.
  pub load-persist :
      (p : Pair) (t : Instant) (next : St) (s : Store St)
      → Older state_ts t (select (is_state_of p) s.states)
      → load_strategy_state p (persist_strategy_state ops p t next s) ≡ warm next t
  unfolding load_strategy_state persist_strategy_state
  load-persist p t next s older =
      let row = state_row ops p t next in
      let fresh : find (state_at p t) s.states ≡ none =
        find-Older state_ts (is_state_of p) t s.states older in
      let loaded : latest state_ts (select (is_state_of p) (s.states ++ row ∷ [])) ≡ some row =
        rw (select-append state_ts (is_state_of p) s.states row (is_state_of-state_row p t next))
          (latest-append state_ts (select (is_state_of p) s.states) row older) in
      rw (persist_strategy_state, fresh, load_strategy_state, loaded) (ground arith)

  -- A pair without a state, or with an older one.
  pub cold-Older :
      (p : Pair) (t : Instant) (s : Store St)
      → load_strategy_state p s ≡ cold
      → Older state_ts t (select (is_state_of p) s.states)
  unfolding load_strategy_state
  cold-Older p t s h = elim (Option-cases (latest state_ts (select (is_state_of p) s.states))) [
    | inl empty ↦ latest-none state_ts t _ empty
    | inr (row, found) ↦ absurd (ground (arith, h, found))
  ]

  pub warm-Older :
      (p : Pair) (t : Instant) (s : Store St) (prior : St) (prev : Instant)
      → load_strategy_state p s ≡ warm prior prev
      → prev < t
      → Older state_ts t (select (is_state_of p) s.states)
  unfolding load_strategy_state
  warm-Older p t s prior prev h lt =
      elim (Option-cases (latest state_ts (select (is_state_of p) s.states))) [
        | inl empty ↦ latest-none state_ts t _ empty
        | inr (row, found) ↦ latest-Older state_ts t _ row found (ground (arith, h, found, lt))
      ]

  -- Storing a state touches no other table.
  pub untouched-persist :
      (p : Pair) (t : Instant) (next : St) (s : Store St)
      → ((persist_strategy_state ops p t next s).book ≡ s.book)
        × ((persist_strategy_state ops p t next s).audit_logs ≡ s.audit_logs)
        × ((persist_strategy_state ops p t next s).alerts ≡ s.alerts)
  unfolding persist_strategy_state
  untouched-persist p t next s = elim (Option-cases (find (state_at p t) s.states)) [
    | inl new ↦ rw (persist_strategy_state, new) (refl, refl, refl)
    | inr (row, found) ↦ rw (persist_strategy_state, found) (refl, refl, refl)
  ]

  pub book-persist :
      (p : Pair) (t : Instant) (next : St) (s : Store St)
      → (persist_strategy_state ops p t next s).book ≡ s.book
  book-persist p t next s = (untouched-persist p t next s).0

-- A state is loaded from the table of states alone.
pub load-same :
    {St : Type 0} (p : Pair) (s s' : Store St)
    → s'.states ≡ s.states
    → load_strategy_state p s' ≡ load_strategy_state p s
unfolding load_strategy_state
load-same p s s' same = rw (load_strategy_state, same) refl
