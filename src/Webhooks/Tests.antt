-- ===== src/Webhooks/Tests.antt =====
-- The theorems on webhook deliveries at concrete inputs.
use extension_lab.Common.{Bool, List, [], none, some, true, ℕ, ◌∷◌}
use extension_lab.Webhooks.Model.{
  Attempt, DeliveryRow, WebhookConfig, pending, rejected, responded, unreachable,
}

abbrev config : WebhookConfig
config = record { max_retries = 1; backoff_base_ms = 1000 }

abbrev delivery : DeliveryRow
delivery = record {
  id = 5;
  organization_id = 1;
  webhook_id = 2;
  event_id = 3;
  event_type = "member.joined";
  payload_json = "{}";
  status = pending;
  attempts = 0;
  next_attempt_at = some 0;
  last_status_code = none;
  last_error = none;
  created_at = 0;
  updated_at = 0;
}

abbrev failures : List (ℕ × Bool × Attempt)
failures = (10, true, unreachable) ∷ (2000, true, responded 500) ∷ (5000, true, rejected) ∷ []
