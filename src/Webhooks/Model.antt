-- ===== src/Webhooks/Model.antt =====
-- processWebhookDelivery of lib/webhooks/deliver.ts, on the rows of
-- lib/organizations/repository.ts. What the network does in an attempt is an argument; the signature is
-- left out, and the text of an error is its kind.
use extension_lab.Common.{
  Bool, List, Option, String, false, if◌then◌else◌, leb, ltb, min, none, some, true, ℕ, ◌&&◌, ◌*◌,
  ◌+◌, ◌==◌, ◌^◌,
}
use extension_lab.Sql.Defs.{find_by, update_where}

pub data DeliveryStatus : Type 0 where
  pending succeeded undelivered dead_letter : DeliveryStatus

-- `last_error`
pub data DeliveryError : Type 0 where
  webhook_removed destination_rejected network_error : DeliveryError
  http_error : ℕ → DeliveryError

pub record DeliveryRow : Type 0 where
  pub id : ℕ
  pub organization_id : ℕ
  pub webhook_id : ℕ
  pub event_id : ℕ
  pub event_type : String
  pub payload_json : String
  pub status : DeliveryStatus
  pub attempts : ℕ
  pub next_attempt_at : Option ℕ
  pub last_status_code : Option ℕ
  pub last_error : Option DeliveryError
  pub created_at : ℕ
  pub updated_at : ℕ

pub record WebhookConfig : Type 0 where
  pub max_retries : ℕ
  pub backoff_base_ms : ℕ

-- What an attempt meets: a destination that is not allowed, a request that fails, or a response.
pub data Attempt : Type 0 where
  rejected unreachable : Attempt
  responded : ℕ → Attempt

pub data DeliveryOutcome : Type 0 where
  delivered retry_scheduled given_up skipped : DeliveryOutcome

-- The retry that is enqueued: its delivery, its number and its time.
pub record Retry : Type 0 where
  pub delivery_id : ℕ
  pub attempt : ℕ
  pub run_after : ℕ

abbrev pub is_terminal : DeliveryStatus → Bool
is_terminal succeeded = true
is_terminal dead_letter = true
is_terminal _ = false

abbrev pub delivery_key : DeliveryRow → ℕ
delivery_key d = d.id

-- The row, the outcome and the retry that a call leaves.
abbrev pub Delivered : Type 0
Delivered = DeliveryRow × DeliveryOutcome × Option Retry

abbrev pub removed : ℕ → DeliveryRow → DeliveryRow
removed now d = record d {
  status = dead_letter;
  last_error = some webhook_removed;
  next_attempt_at = none;
  updated_at = now;
}

abbrev buried : ℕ → Option ℕ → DeliveryError → DeliveryRow → DeliveryRow
buried now code error d = record d {
  status = dead_letter;
  attempts = d.attempts + 1;
  last_status_code = code;
  last_error = some error;
  next_attempt_at = none;
  updated_at = now;
}

abbrev rescheduled : ℕ → ℕ → Option ℕ → DeliveryError → DeliveryRow → DeliveryRow
rescheduled now next code error d = record d {
  status = undelivered;
  attempts = d.attempts + 1;
  last_status_code = code;
  last_error = some error;
  next_attempt_at = some next;
  updated_at = now;
}

-- min(base * 2 ** max(0, nextAttempts - 1), one hour), for the attempt `n + 1`
unfoldable pub backoff_ms : WebhookConfig → ℕ → ℕ
backoff_ms config n = min (config.backoff_base_ms * 2 ^ n) 3600000

unfoldable pub record_failure :
    WebhookConfig → ℕ → Option ℕ → DeliveryError → DeliveryRow → Delivered
record_failure config now code error d =
    let next = now + backoff_ms config d.attempts in
    if ltb (config.max_retries + 1) (d.attempts + 1)
    then (buried now code error d, given_up, none)
    else (
      rescheduled now next code error d,
      retry_scheduled,
      some (record { delivery_id = d.id; attempt = d.attempts + 1; run_after = next }),
    )

abbrev pub received : ℕ → ℕ → DeliveryRow → DeliveryRow
received now code d = record d {
  status = succeeded;
  attempts = d.attempts + 1;
  last_status_code = some code;
  last_error = none;
  next_attempt_at = none;
  updated_at = now;
}

abbrev pub is_success : ℕ → Bool
is_success code = leb 200 code && ltb code 300

unfoldable pub attempt_delivery : WebhookConfig → ℕ → Attempt → DeliveryRow → Delivered
attempt_delivery config now rejected d = record_failure config now none destination_rejected d
attempt_delivery config now unreachable d = record_failure config now none network_error d
attempt_delivery config now (responded code) d =
    if is_success code
    then (received now code d, delivered, none)
    else record_failure config now (some code) (http_error code) d

-- The call at the delivery that was read; `active` tells that its webhook exists and is active.
unfoldable pub process_row : WebhookConfig → ℕ → Bool → Attempt → DeliveryRow → Delivered
process_row config now active attempt d =
    if is_terminal d.status
    then (d, skipped, none)
    else if active
    then attempt_delivery config now attempt d
    else (removed now d, given_up, none)

-- The deliveries and the retries that were enqueued, in order.
unfoldable pub process_webhook_delivery :
    WebhookConfig
    → ℕ
    → Bool
    → Attempt
    → ℕ
    → List DeliveryRow
    → List DeliveryRow × DeliveryOutcome × Option Retry
process_webhook_delivery config now active attempt id t = elim (find_by delivery_key id t) [
  | none ↦ (t, skipped, none)
  | some d ↦
      let (row, outcome, retry) = process_row config now active attempt d in
      (update_where (λ x. x.id == id) (λ x. row) t, outcome, retry)
]
