-- ===== src/Trader/Alerts.antt =====
-- workers/src/marketmind_workers/trader/alerts.py: the routing of the stored alerts and their delivery
-- to Telegram with retries. What Telegram replies to each attempt is a parameter. The texts of the
-- errors are left out, and so are the subjects and bodies.
pub mod Counts
pub mod Delivery
mod Tests
use Prim.Native.String.{String}
use text.Mathlib.Text.{◌==◌ as str_eq}
use marketmind_open.Common.{
  ℕ, zero, suc, ◌+◌, Bool, true, false, ◌||◌, not, Option, none, some, List, [], map, ◌∷◌, leb,
  ◌==◌, if◌then◌else◌, length, select,
}
use marketmind_open.Clock.{Instant}
use marketmind_open.Trader.Schema.{Severity}
use marketmind_open.Trader.Tables.{order_by}

pub data AlertChannel : Type 0 where
  telegram log : AlertChannel

-- The last error of an alert.
pub data DeliveryError : Type 0 where
  not_configured no_attempts http_error non_json_body not_ok : DeliveryError
  server_error client_error : ℕ → DeliveryError

-- trader_alerts
pub record Alert : Type 0 where
  pub id : ℕ
  pub ts : Instant
  pub channel : AlertChannel
  pub severity : Severity
  pub delivered : Bool
  pub delivery_error : Option DeliveryError

-- The body of a response: JSON that says ok or not, or something else.
pub data Body : Type 0 where
  ok_true ok_false non_json : Body

-- An attempt raises `httpx.HTTPError` or gets a response.
pub data Reply : Type 0 where
  raises : Reply
  response : ℕ → Body → Reply

pub data DeliveryOutcome : Type 0 where
  success : DeliveryOutcome
  failure : DeliveryError → DeliveryOutcome

abbrev pub telegram_max_attempts : ℕ
telegram_max_attempts = 3

-- `_sleep_between_attempts`: seconds after the attempt.
abbrev pub sleep_between_attempts : ℕ → ℕ
sleep_between_attempts zero = 1
sleep_between_attempts (suc zero) = 3
sleep_between_attempts (suc (suc n)) = 0

-- What one attempt decides, or the error after which the next one follows.
unfoldable pub classify : Reply → Bool × DeliveryOutcome
classify raises = (true, failure http_error)
classify (response status body) =
    if leb 500 status
    then (true, failure (server_error status))
    else (if leb 400 status then (false, failure (client_error status)) else (elim body [
      | non_json ↦ (false, failure non_json_body)
      | ok_false ↦ (false, failure not_ok)
      | ok_true ↦ (false, success)
    ]))

-- The attempts from one on: the outcome, the number of POSTs and the seconds slept.
unfoldable pub attempts : ℕ → ℕ → (ℕ → Reply) → DeliveryOutcome → DeliveryOutcome × ℕ × ℕ
attempts zero attempt replies last = (last, 0, 0)
attempts (suc left) attempt replies last =
    let (transient, outcome) = classify (replies attempt) in
    let (final, posts, slept) = attempts left (suc attempt) replies outcome in
    if transient
    then (final, suc posts, sleep_between_attempts attempt + slept)
    else (outcome, 1, 0)

-- With the token and the chat configured, or not.
unfoldable pub send_to_telegram : Bool → (ℕ → Reply) → DeliveryOutcome × ℕ × ℕ
send_to_telegram configured replies =
    if configured
    then attempts telegram_max_attempts 0 replies (failure no_attempts)
    else (failure not_configured, 0, 0)

pub record AlertDispatchResult : Type 0 where
  pub alerts_loaded : ℕ
  pub alerts_skipped_no_dispatch : ℕ
  pub alerts_attempted_telegram : ℕ
  pub alerts_delivered : ℕ
  pub alerts_failed : ℕ

abbrev pub alert_ts : Alert → Instant
alert_ts a = a.ts

abbrev pub is_undelivered : Alert → Bool
is_undelivered a = not a.delivered

-- ORDER BY ts ASC
unfoldable pub load_pending_alerts : List Alert → List Alert
load_pending_alerts rows = order_by alert_ts alert_ts (select is_undelivered rows)

unfoldable pub mark_delivered : ℕ → List Alert → List Alert
mark_delivered id rows =
    map (λ a. if a.id == id then record a { delivered = true; delivery_error = none } else a) rows

unfoldable pub mark_failed : ℕ → DeliveryError → List Alert → List Alert
mark_failed id error rows =
    map (λ a. if a.id == id then record a { delivery_error = some error } else a) rows

-- `channel == "log" or severity == "info"`
unfoldable pub is_audit_only : Alert → Bool
is_audit_only a = elim a.channel [
  | AlertChannel.log ↦ true
  | AlertChannel.telegram ↦ elim a.severity [ Severity.info ↦ true | _ ↦ false ]
]

-- A pass in flight: the counters, the table, the POSTs and the seconds slept.
pub record Dispatch : Type 0 where
  pub result : AlertDispatchResult
  pub rows : List Alert
  pub posts : ℕ
  pub slept : ℕ

module _ (configured : Bool) (replies : Alert → ℕ → Reply) where
  -- One round of the loop.
  unfoldable pub dispatch : Alert → Dispatch → Dispatch
  dispatch a d =
      let r = d.result in
      let (outcome, posts, slept) = send_to_telegram configured (replies a) in
      if is_audit_only a
      then record d {
        result = record r { alerts_skipped_no_dispatch = suc r.alerts_skipped_no_dispatch };
        rows = mark_delivered a.id d.rows;
      }
      else (elim outcome [
        | success ↦ record d {
          result = record r {
            alerts_attempted_telegram = suc r.alerts_attempted_telegram;
            alerts_delivered = suc r.alerts_delivered;
          };
          rows = mark_delivered a.id d.rows;
          posts = d.posts + posts;
          slept = d.slept + slept;
        }
        | failure error ↦ record d {
          result = record r {
            alerts_attempted_telegram = suc r.alerts_attempted_telegram;
            alerts_failed = suc r.alerts_failed;
          };
          rows = mark_failed a.id error d.rows;
          posts = d.posts + posts;
          slept = d.slept + slept;
        }
      ])

  unfoldable pub dispatch_all : List Alert → Dispatch → Dispatch
  dispatch_all [] d = d
  dispatch_all (a ∷ alerts) d = dispatch_all alerts (dispatch a d)

  unfoldable pub dispatch_pending_alerts : List Alert → Dispatch
  dispatch_pending_alerts rows =
      let alerts = load_pending_alerts rows in
      dispatch_all alerts (record {
        result = record {
          alerts_loaded = length alerts;
          alerts_skipped_no_dispatch = 0;
          alerts_attempted_telegram = 0;
          alerts_delivered = 0;
          alerts_failed = 0;
        };
        rows = rows;
        posts = 0;
        slept = 0;
      })
