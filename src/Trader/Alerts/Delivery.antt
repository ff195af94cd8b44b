-- ===== src/Trader/Alerts/Delivery.antt =====
-- Which rows a pass of the dispatcher marks as delivered.
use marketmind_open.Common.{
  ℕ, ltb, leb, not, select, ap, ◌≡◌, refl, ◌∙◌, Bool, true, false, ◌||◌, ◌&&◌, none, some, List, [],
  ◌∷◌, map, ◌==◌, if◌then◌else◌, inl, inr, Bool-cases, arith,
}
use marketmind_open.Trader.Schema.{Severity}
use marketmind_open.Trader.Tables.{insert_by, order_by, before}
use marketmind_open.Trader.Alerts.{
  Alert, AlertChannel, alert_ts, is_undelivered, Body, raises, response, classify, attempts,
  DeliveryError, Reply, DeliveryOutcome, success, failure, send_to_telegram, Dispatch,
  load_pending_alerts, mark_delivered, mark_failed, is_audit_only, dispatch, dispatch_all,
  dispatch_pending_alerts,
}

abbrev pub any : (Alert → Bool) → List Alert → Bool
any p [] = false
any p (a ∷ alerts) = p a || any p alerts

abbrev pub delivered_of : Alert → Bool
delivered_of r = r.delivered

cons-eq : {x y : Bool} {xs ys : List Bool} → x ≡ y → xs ≡ ys → (x ∷ xs) ≡ (y ∷ ys)
cons-eq same rest = cc

or_false : (b : Bool) → b ≡ b || false
or_false b = ground arith

no_alerts : (rows : List Alert) → map delivered_of rows ≡ map (λ r. r.delivered || false) rows
no_alerts [] = refl
no_alerts (r ∷ rows) = cons-eq (or_false r.delivered) (no_alerts rows)

abbrev pub is_success : DeliveryOutcome → Bool
is_success success = true
is_success (failure error) = false

module _ (configured : Bool) (replies : Alert → ℕ → Reply) where
  -- An alert that needs no message, or whose message is accepted.
  abbrev pub goes_out : Alert → Bool
  goes_out a = is_audit_only a || is_success (send_to_telegram configured (replies a)).0

  abbrev pub settles : ℕ → Alert → Bool
  settles id a = goes_out a && a.id == id

  abbrev pub delivered_after : List Alert → Alert → Bool
  delivered_after alerts r = r.delivered || any (settles r.id) alerts

  marked_after :
      (a : Alert) (alerts rows : List Alert)
      → goes_out a ≡ true
      → map (delivered_after alerts) (mark_delivered a.id rows)
        ≡ map (delivered_after (a ∷ alerts)) rows
  unfolding mark_delivered
  marked_after a alerts [] h = refl
  marked_after a alerts (r ∷ rows) h =
      let change = λ (x : Alert).
        if x.id == a.id then record x { delivered = true; delivery_error = none } else x in
      let same : delivered_after alerts (change r) ≡ delivered_after (a ∷ alerts) r =
        ground (arith, h) in
      cons-eq same (marked_after a alerts rows h)

  failed_after :
      (a : Alert) (error : DeliveryError) (alerts rows : List Alert)
      → goes_out a ≡ false
      → map (delivered_after alerts) (mark_failed a.id error rows)
        ≡ map (delivered_after (a ∷ alerts)) rows
  unfolding mark_failed
  failed_after a error alerts [] h = refl
  failed_after a error alerts (r ∷ rows) h =
      let change =
        λ (x : Alert). if x.id == a.id then record x { delivery_error = some error } else x in
      let same : delivered_after alerts (change r) ≡ delivered_after (a ∷ alerts) r =
        ground (arith, h) in
      cons-eq same (failed_after a error alerts rows h)

  dispatch_after :
      (a : Alert) (alerts : List Alert) (d : Dispatch)
      → map (delivered_after alerts) (dispatch configured replies a d).rows
        ≡ map (delivered_after (a ∷ alerts)) d.rows
  unfolding dispatch
  dispatch_after a alerts d = elim (Bool-cases (is_audit_only a)) [
    | inl audit ↦ rw (dispatch, audit) (marked_after a alerts d.rows (ground (arith, audit)))
    | inr loud ↦ go loud (send_to_telegram configured (replies a)).0 refl
  ]
    where
      go :
          is_audit_only a ≡ false
          → (outcome : DeliveryOutcome) → (send_to_telegram configured (replies a)).0 ≡ outcome
          → map (delivered_after alerts) (dispatch configured replies a d).rows
            ≡ map (delivered_after (a ∷ alerts)) d.rows
      go loud success h =
          rw (dispatch, loud, h) (marked_after a alerts d.rows (ground (arith, loud, h)))
      go loud (failure error) h =
          rw (dispatch, loud, h) (failed_after a error alerts d.rows (ground (arith, loud, h)))

  all_after :
      (alerts : List Alert) (d : Dispatch)
      → map delivered_of (dispatch_all configured replies alerts d).rows
        ≡ map (delivered_after alerts) d.rows
  unfolding dispatch_all
  all_after [] d = no_alerts d.rows
  all_after (a ∷ alerts) d =
      all_after alerts (dispatch configured replies a d) ∙ dispatch_after a alerts d

  -- An alert for the log, or one that only informs.
  abbrev pub needs_no_message : AlertChannel → Severity → Bool
  needs_no_message AlertChannel.log severity = true
  needs_no_message AlertChannel.telegram Severity.info = true
  needs_no_message AlertChannel.telegram Severity.warning = false
  needs_no_message AlertChannel.telegram Severity.critical = false

  -- A status below 400 with a body that says ok.
  abbrev pub is_accepted : Reply → Bool
  is_accepted raises = false
  is_accepted (response status Body.ok_true) = ltb status 400
  is_accepted (response status Body.ok_false) = false
  is_accepted (response status Body.non_json) = false

  -- An exception of the transport or a status from 500 on.
  abbrev pub is_retried : Reply → Bool
  is_retried raises = true
  is_retried (response status body) = leb 500 status

  -- The first of three attempts that is not retried is accepted.
  abbrev pub accepts : (ℕ → Reply) → Bool
  accepts reply =
      is_accepted (reply 0)
      || is_retried (reply 0)
        && (is_accepted (reply 1) || is_retried (reply 1) && is_accepted (reply 2))

  abbrev pub reaches : Alert → Bool
  reaches a = needs_no_message a.channel a.severity || configured && accepts (replies a)

  -- A row after a pass over a table.
  abbrev pub delivered_by : List Alert → Alert → Bool
  delivered_by rows r =
      r.delivered || any (λ a. not a.delivered && (reaches a && a.id == r.id)) rows

  one_attempt :
      (r : Reply) → ((classify r).0 ≡ is_retried r) × (is_success (classify r).1 ≡ is_accepted r)
  unfolding classify
  one_attempt raises = (refl, refl)
  one_attempt (response status Body.ok_true) = ground arith
  one_attempt (response status Body.ok_false) = ground arith
  one_attempt (response status Body.non_json) = ground arith

  sends :
      (reply : ℕ → Reply)
      → is_success (send_to_telegram configured reply).0 ≡ configured && accepts reply
  unfolding send_to_telegram attempts
  sends reply = ground (arith, one_attempt (reply 0), one_attempt (reply 1), one_attempt (reply 2))

  goes_out-reaches : (a : Alert) → goes_out a ≡ reaches a
  unfolding is_audit_only
  goes_out-reaches a = ground (arith, sends (replies a))

  any-insert_by :
      (p : Alert → Bool) (le : Alert → Alert → Bool) (x : Alert) (xs : List Alert)
      → any p (insert_by le x xs) ≡ p x || any p xs
  any-insert_by p le x [] = refl
  any-insert_by p le x (y ∷ ys) = ground (arith, any-insert_by p le x ys)

  any-order_by :
      (p : Alert → Bool) (xs : List Alert) → any p (order_by alert_ts alert_ts xs) ≡ any p xs
  any-order_by p [] = refl
  any-order_by p (x ∷ xs) =
      any-insert_by p (before alert_ts alert_ts) x (order_by alert_ts alert_ts xs)
      ∙ ap (λ b. p x || b) (any-order_by p xs)

  any-select :
      (id : ℕ) (xs : List Alert)
      → any (settles id) (select is_undelivered xs)
        ≡ any (λ a. not a.delivered && (reaches a && a.id == id)) xs
  any-select id [] = refl
  any-select id (x ∷ xs) = ground (arith, goes_out-reaches x, any-select id xs)

  after-by :
      (all rows : List Alert)
      → map (delivered_after (load_pending_alerts all)) rows ≡ map (delivered_by all) rows
  unfolding load_pending_alerts
  after-by all [] = refl
  after-by all (r ∷ rows) =
      cons-eq
        (ap (λ b. r.delivered || b)
          (any-order_by (settles r.id) (select is_undelivered all) ∙ any-select r.id all))
        (after-by all rows)

  -- After a pass a row is delivered exactly if it was delivered before, or a row with its id was not
  -- delivered and reaches its reader: it goes to the log or only informs, or Telegram is configured and
  -- the first of three attempts that neither raises nor gets a status from 500 on gets a status below
  -- 400 and a body that says ok.
  pub dispatch_pending_alerts_delivers :
      (rows : List Alert)
      → map delivered_of (dispatch_pending_alerts configured replies rows).rows
        ≡ map (delivered_by rows) rows
  unfolding dispatch_pending_alerts
  dispatch_pending_alerts_delivers rows =
      all_after (load_pending_alerts rows) _ ∙ after-by rows rows
