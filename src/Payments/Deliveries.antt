-- ===== src/Payments/Deliveries.antt =====
-- processProviderEvent of lib/billing/webhooks.ts: a delivery claims its event, may ask the provider for the
-- subscription of an invoice, and handles the event in a transaction.
use extension_lab.Common.{
  Bool, Option, false, holds, if◌then◌else◌, is_some, none, not, some, true, ℕ, ◌||◌,
}
use extension_lab.Payments.Applying.{PaymentsConfig}
use extension_lab.Payments.Handling.{HandleResult, handle}
use extension_lab.Payments.Ledger.{claim_billing_event, finish_billing_event}
use extension_lab.Payments.Rows.{
  BillingEventResult, BillingEventType, PaymentsDb, ProviderEvent, ProviderInvoice,
  ProviderSubscription, broken, ignored, invoice_paid, invoice_payment_failed,
}

pub data WebhookOutcome : Type 0 where
  outcome_processed duplicate outcome_ignored : WebhookOutcome

-- What the provider answers, and whether the transaction fails for another reason.
pub data Fetch : Type 0 where
  fetch_throws : Fetch
  fetched : Option ProviderSubscription → Fetch

pub record Delivery : Type 0 where
  pub event : ProviderEvent
  pub fetch : Fetch
  pub aborts : Bool

abbrev pub is_invoice_event : BillingEventType → Bool
is_invoice_event invoice_paid = true
is_invoice_event invoice_payment_failed = true
is_invoice_event _ = false

abbrev pub names_subscription : ProviderEvent → Bool
names_subscription e = holds (λ (i : ProviderInvoice). is_some i.subscription_id) e.invoice

unfoldable pub hydrate : Fetch → ProviderEvent → Option ProviderEvent
hydrate answer e =
    if is_some e.subscription || not (names_subscription e) || not (is_invoice_event e.type)
    then some e
    else elim answer [
      | fetch_throws ↦ none
      | fetched none ↦ some e
      | fetched (some sub) ↦ some (record e { subscription = some sub })
    ]

abbrev pub outcome_of : BillingEventResult → WebhookOutcome
outcome_of ignored = outcome_ignored
outcome_of _ = outcome_processed

-- finishBillingEvent of the transaction.
abbrev pub settled : ℕ → ℕ → PaymentsDb × HandleResult → PaymentsDb × Option WebhookOutcome
settled now claim (db, r) = (
  finish_billing_event now claim r.outcome r.user_id r.subscription_id db,
  some (outcome_of r.outcome),
)

-- The handling of a claimed event; an exception marks it as failed, and is thrown on: `none`.
unfoldable pub work_off :
    PaymentsConfig → ℕ → Delivery → ℕ → PaymentsDb → PaymentsDb × Option WebhookOutcome
work_off config now d claim db =
    let failed = finish_billing_event now claim broken none none db in
    elim (hydrate d.fetch d.event) [
      | none ↦ (failed, none)
      | some e ↦ elim (handle config now e db) [
        | none ↦ (failed, none)
        | some done ↦ if d.aborts then (failed, none) else settled now claim done
      ]
    ]

unfoldable pub process_provider_event :
    PaymentsConfig → ℕ → Delivery → PaymentsDb → PaymentsDb × Option WebhookOutcome
process_provider_event config now d db =
    let (db', claim) = claim_billing_event now config.provider d.event db in
    elim claim [ none ↦ (db', some duplicate) | some row ↦ work_off config now d row.id db' ]
