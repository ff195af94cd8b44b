-- ===== src/Trader/Ingestion/Feed.antt =====
-- The error state of a pair as a machine over its outcomes.
use marketmind_open.Common.{
  ℕ, suc, ◌+◌, ◌≤◌, ◌<◌, ◌≡◌, refl, Bool, true, false, none, List, [], ◌∷◌, All, leb, ◌==◌,
  if◌then◌else◌, arith,
}
use marketmind_open.Clock.{Instant}
use marketmind_open.Trader.Jobs.{live_count}
use marketmind_open.Trader.Ingestion.{
  redis_err_ttl, ErrorKeys, Action, none_due, fire_failure, fire_recovery, is_alerted,
  update_error_state,
}

-- Whether a fetch succeeded, and when.
pub record Fetch : Type 0 where
  pub succeeded : Bool
  pub at : Instant

-- The failures since the last success, in a history with the last fetch first.
abbrev pub streak : List Fetch → ℕ
streak [] = 0
streak (o ∷ earlier) = let rest = streak earlier in if o.succeeded then 0 else suc rest

-- The alert that a fetch asks for, after a streak.
abbrev pub due : Bool → ℕ → Action
due true n = if leb 3 n then fire_recovery else none_due
due false n = if n == 2 then fire_failure else none_due

abbrev pub all_due : List Fetch → List Action
all_due [] = []
all_due (o ∷ earlier) = due o.succeeded (streak earlier) ∷ all_due earlier

abbrev pub no_keys : ErrorKeys
no_keys = record { err_count = none; err_alerted = none }

-- The keys after a history, and the actions, the last one first.
abbrev pub updated : List Fetch → ErrorKeys × List Action
updated [] = (no_keys, [])
updated (o ∷ earlier) =
    let (keys, actions) = updated earlier in
    let (update, keys') = update_error_state o.succeeded o.at keys in
    (keys', update.action ∷ actions)

-- Within 24 hours from an instant on.
abbrev pub InWindow : Instant → Instant → Type 0
InWindow start t = (start ≤ t) × (t < start + redis_err_ttl)

-- What the keys say at any instant of the window.
abbrev Shows : Instant → ErrorKeys → ℕ → Type 0
Shows start keys n =
    (now : Instant)
    → InWindow start now
    → (live_count keys.err_count now ≡ n) × (is_alerted now keys.err_alerted ≡ leb 3 n)

update-Shows :
    (start at : Instant) (succeeded : Bool) (keys : ErrorKeys) (n : ℕ)
    → InWindow start at
    → Shows start keys n
    → Shows start (update_error_state succeeded at keys).1 (if succeeded then 0 else suc n)
unfolding update_error_state
update-Shows start at true keys n here h now there = (refl, refl)
update-Shows start at false keys n here h now there =
    let (count, alerted) = h at here in
    let (count', alerted') = h now there in
    (ground (arith, count, here, there), ground (arith, count, alerted, alerted', here, there))

update_due :
    (start at : Instant) (succeeded : Bool) (keys : ErrorKeys) (n : ℕ)
    → InWindow start at
    → Shows start keys n
    → (update_error_state succeeded at keys).0.action ≡ due succeeded n
unfolding update_error_state
update_due start at true keys n here h = let (count, alerted) = h at here in ground (arith, alerted)
update_due start at false keys n here h =
    let (count, alerted) = h at here in ground (arith, count, alerted)

updated-Shows :
    (start : Instant) (history : List Fetch)
    → All (λ (o : Fetch). InWindow start o.at) history
    → Shows start (updated history).0 (streak history)
updated-Shows start [] h = λ now there. (refl, refl)
updated-Shows start (o ∷ earlier) h =
    update-Shows start o.at o.succeeded (updated earlier).0 (streak earlier) h.0
      (updated-Shows start earlier h.1)

-- The fetches of one pair within 24 hours of an instant ask for exactly the alerts of the machine: a
-- failure alert at the third failure in a row, a recovery at a success after three or more, and nothing
-- else.
pub updated_refines :
    (start : Instant) (history : List Fetch)
    → All (λ (o : Fetch). InWindow start o.at) history
    → (updated history).1 ≡ all_due history
updated_refines start [] h = refl
updated_refines start (o ∷ earlier) h =
    cons-eq
      (update_due start o.at o.succeeded (updated earlier).0 (streak earlier) h.0
        (updated-Shows start earlier h.1))
      (updated_refines start earlier h.1)
  where
    cons-eq : {x y : Action} {xs ys : List Action} → x ≡ y → xs ≡ ys → (x ∷ xs) ≡ (y ∷ ys)
    cons-eq same rest = cc
