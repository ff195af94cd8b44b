-- ===== src/Trader/Alerts/Counts.antt =====
-- What a pass of the dispatcher counts, and how long it takes.
use marketmind_open.Common.{
  ℕ, zero, suc, ◌+◌, ◌*◌, ◌≤◌, ◌≡◌, refl, ◌∙◌, Bool, true, false, List, [], ◌∷◌, length, inl, inr,
  Bool-cases, arith,
}
use marketmind_open.Trader.Alerts.{
  Alert, DeliveryError, Reply, DeliveryOutcome, success, failure, classify, attempts,
  send_to_telegram, Dispatch, load_pending_alerts, is_audit_only, dispatch, dispatch_all,
  dispatch_pending_alerts,
}

-- From any attempt on there are at most as many POSTs as attempts left.
attempts_posts :
    (left attempt : ℕ) (replies : ℕ → Reply) (last : DeliveryOutcome)
    → (attempts left attempt replies last).1 ≤ left
unfolding attempts
attempts_posts zero attempt replies last = omega arith
attempts_posts (suc left) attempt replies last =
    ground (arith, attempts_posts left (suc attempt) replies (classify (replies attempt)).1)

send_bounds :
    (configured : Bool) (replies : ℕ → Reply)
    → ((send_to_telegram configured replies).1 ≤ 3) × ((send_to_telegram configured replies).2 ≤ 4)
unfolding send_to_telegram attempts
send_bounds false replies = (omega arith, omega arith)
send_bounds true replies =
    (attempts_posts 3 0 replies (failure DeliveryError.no_attempts), ground arith)

module _ (configured : Bool) (replies : Alert → ℕ → Reply) where
  -- Between two moments of a pass, k alerts apart.
  abbrev Accounts : ℕ → Dispatch → Dispatch → Type 0
  Accounts k d d' =
      let r = d.result in
      let r' = d'.result in
      (r'.alerts_loaded ≡ r.alerts_loaded)
      × (r'.alerts_skipped_no_dispatch + r'.alerts_attempted_telegram
          ≡ k + (r.alerts_skipped_no_dispatch + r.alerts_attempted_telegram))
      × (r'.alerts_attempted_telegram + r.alerts_delivered + r.alerts_failed
          ≡ r.alerts_attempted_telegram + r'.alerts_delivered + r'.alerts_failed)
      × (d'.posts + 3 * r.alerts_attempted_telegram ≤ d.posts + 3 * r'.alerts_attempted_telegram)
      × (d'.slept + 4 * r.alerts_attempted_telegram ≤ d.slept + 4 * r'.alerts_attempted_telegram)

  dispatch-Accounts : (a : Alert) (d : Dispatch) → Accounts 1 d (dispatch configured replies a d)
  unfolding dispatch
  dispatch-Accounts a d =
      let (posts, slept) = send_bounds configured (replies a) in
      elim (Bool-cases (is_audit_only a)) [
        | inl audit ↦ rw (dispatch, audit) (refl, omega arith, refl, omega arith, omega arith)
        | inr loud ↦ go loud (send_to_telegram configured (replies a)).0 refl
      ]
    where
      go :
          is_audit_only a ≡ false
          → (outcome : DeliveryOutcome) → (send_to_telegram configured (replies a)).0 ≡ outcome
          → Accounts 1 d (dispatch configured replies a d)
      go loud success h =
          rw (dispatch, loud, h)
            (
              refl,
              omega arith,
              omega arith,
              omega (arith, send_bounds configured (replies a)),
              omega (arith, send_bounds configured (replies a)),
            )
      go loud (failure error) h =
          rw (dispatch, loud, h)
            (
              refl,
              omega arith,
              omega arith,
              omega (arith, send_bounds configured (replies a)),
              omega (arith, send_bounds configured (replies a)),
            )

  all-Accounts :
      (alerts : List Alert) (d : Dispatch)
      → Accounts (length alerts) d (dispatch_all configured replies alerts d)
  unfolding dispatch_all
  all-Accounts [] d = (refl, omega arith, refl, omega arith, omega arith)
  all-Accounts (a ∷ alerts) d =
      let now = dispatch-Accounts a d in
      let later = all-Accounts alerts (dispatch configured replies a d) in
      (
        later.0 ∙ now.0,
        omega (arith, now.1, later.1),
        omega (arith, now.2, later.2),
        omega (arith, now.3, later.3),
        omega (arith, now.4, later.4),
      )

  -- A pass loads the alerts that are not delivered, counts each as skipped or attempted and each
  -- attempted one as delivered or failed, and for each attempted one makes at most three POSTs and
  -- sleeps at most four seconds.
  dispatch_pending_alerts_accounts :
      (rows : List Alert)
      → let d = dispatch_pending_alerts configured replies rows in
        let r = d.result in
        (r.alerts_loaded ≡ length (load_pending_alerts rows))
        × (r.alerts_skipped_no_dispatch + r.alerts_attempted_telegram ≡ r.alerts_loaded)
        × (r.alerts_attempted_telegram ≡ r.alerts_delivered + r.alerts_failed)
        × (d.posts ≤ 3 * r.alerts_attempted_telegram)
        × (d.slept ≤ 4 * r.alerts_attempted_telegram)
  unfolding dispatch_pending_alerts
  dispatch_pending_alerts_accounts rows =
      let h = all-Accounts (load_pending_alerts rows) _ in
      (h.0, omega (arith, h.0, h.1), omega (arith, h.2), omega (arith, h.3), omega (arith, h.4))
