-- ===== src/Trader/Alerts/Tests.antt =====
-- Passes over three alerts.
use marketmind_open.Common.{ℕ, zero, suc, ◌≡◌, refl, true, false, none, List, [], ◌∷◌, map}
use marketmind_open.Trader.Schema.{Severity}
use marketmind_open.Trader.Alerts.{
  Alert, AlertChannel, Reply, raises, response, Body, failure, DeliveryError, classify, attempts,
  send_to_telegram, load_pending_alerts, mark_delivered, mark_failed, is_audit_only, dispatch,
  dispatch_all, dispatch_pending_alerts,
}
use marketmind_open.Trader.Alerts.Delivery.{
  delivered_of, delivered_by, dispatch_pending_alerts_delivers,
}

abbrev tripped : Alert
tripped = record {
  id = 1;
  ts = 100;
  channel = AlertChannel.telegram;
  severity = Severity.critical;
  delivered = false;
  delivery_error = none;
}

abbrev recovered : Alert
recovered = record tripped { id = 2; ts = 50; severity = Severity.info }

abbrev disabled : Alert
disabled = record tripped { id = 3; ts = 200; severity = Severity.warning }

abbrev rows : List Alert
rows = tripped ∷ recovered ∷ disabled ∷ []

-- The first alert is accepted at its third attempt, the others are refused by 429.
abbrev replies : Alert → ℕ → Reply
replies a zero = elim a.severity [ Severity.critical ↦ raises | _ ↦ response 429 Body.ok_false ]
replies a (suc zero) = response 503 Body.non_json
replies a (suc (suc n)) = response 200 Body.ok_true

flags : map delivered_of (dispatch_pending_alerts true replies rows).rows ≡ true ∷ true ∷ false ∷ []
unfolding dispatch_pending_alerts load_pending_alerts dispatch_all dispatch is_audit_only
    send_to_telegram attempts classify mark_delivered mark_failed
flags = refl

-- A rate limit is refused for good: one attempt, and no second one.
rate_limit :
    send_to_telegram true (λ attempt. response 429 Body.ok_false)
    ≡ (failure (DeliveryError.client_error 429), 1, 0)
unfolding send_to_telegram attempts classify
rate_limit = refl

dispatch_pending_alerts_delivers_example :
    map delivered_of (dispatch_pending_alerts true replies rows).rows
    ≡ map (delivered_by true replies rows) rows
dispatch_pending_alerts_delivers_example = dispatch_pending_alerts_delivers true replies rows
