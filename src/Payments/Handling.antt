-- ===== src/Payments/Handling.antt =====
-- The `handle` of lib/billing/webhooks.ts: what an event of the provider does. The audit records, metrics and
-- logs are left out.
use mathlib.Core.Option
use extension_lab.Common.{
  Bool, List, Option, coalesce, false, if◌then◌else◌, is_some, none, some, true, ℕ, ◌+◌, ◌==◌,
}
use extension_lab.Billing.Plans.{pro}
use extension_lab.Billing.Subscriptions.{SubscriptionRow, get_subscription_by_provider_id}
use extension_lab.Payments.Applying.{Applied, PaymentsConfig, apply_provider_subscription, or_other}
use extension_lab.Payments.Ledger.{
  find_user_id_by_provider_customer, get_checkout_record, record_payment_if_new,
  update_checkout_status, upsert_billing_customer,
}
use extension_lab.Payments.Rows.{
  BillingCustomerRow, BillingEventResult, BillingEventType, BillingPaymentRow, CheckoutSessionRow,
  PaymentsDb, ProviderCheckoutSession, ProviderEvent, ProviderInvoice, checkout_completed, complete,
  ignored, invoice_paid, invoice_payment_failed, lapsed, processed, subscription_created,
  subscription_deleted, subscription_updated,
}
use extension_lab.Sql.Defs.{find_where}

pub record HandleResult : Type 0 where
  pub outcome : BillingEventResult
  pub user_id : Option ℕ
  pub subscription_id : Option ℕ

abbrev pub ignoring : HandleResult
ignoring = record { outcome = ignored; user_id = none; subscription_id = none }

abbrev pub applied_user : Applied → Option ℕ
applied_user a = Option.map (λ (p : ℕ × Option ℕ). p.0) a

abbrev pub applied_row : Applied → Option ℕ
applied_row none = none
applied_row (some (user, row)) = row

-- updateCheckoutStatus of the record, if there is one.
abbrev pub checked_out : PaymentsConfig → ℕ → ProviderCheckoutSession → PaymentsDb → PaymentsDb
checked_out config now session db = record db {
  checkouts =
      update_checkout_status now config.provider session.id
        (elim session.status [ lapsed ↦ lapsed | _ ↦ complete ]) db.checkouts;
}

-- upsertBillingCustomer where the user and the customer are known.
unfoldable pub link_customer :
    PaymentsConfig → ℕ → Option ℕ → Option ℕ → PaymentsDb → Option PaymentsDb
link_customer config now (some user) (some customer) db =
    Option.map (λ (t : List BillingCustomerRow). record db { customers = t })
      (upsert_billing_customer now user config.provider customer db.customers)
link_customer config now _ _ db = some db

-- The subscription of an event, where it has one.
unfoldable pub apply_event_subscription :
    PaymentsConfig → ℕ → ProviderEvent → Option ℕ → PaymentsDb → PaymentsDb × Applied
apply_event_subscription config now e user db = elim e.subscription [
  | none ↦ (db, none)
  | some sub ↦ apply_provider_subscription config now sub e.created_at user db
]

unfoldable pub handle_checkout :
    PaymentsConfig
    → ℕ
    → ProviderEvent
    → ProviderCheckoutSession
    → PaymentsDb
    → Option (PaymentsDb × HandleResult)
handle_checkout config now e session db =
    let user =
      or_other
        (Option.map (λ (r : CheckoutSessionRow). r.user_id)
          (get_checkout_record config.provider session.id db.checkouts))
        session.metadata_user_id in
    elim (link_customer config now user session.customer_id (checked_out config now session db)) [
      | none ↦ none
      | some linked ↦
          let (done, applied) =
            if is_some user
            then apply_event_subscription config now e user linked
            else (linked, none) in
          some (
            done,
            record { outcome = processed; user_id = user; subscription_id = applied_row applied },
          )
    ]

unfoldable pub handle_subscription :
    PaymentsConfig → ℕ → ProviderEvent → PaymentsDb → Option (PaymentsDb × HandleResult)
handle_subscription config now e db =
    let (done, applied) = apply_event_subscription config now e none db in
    some (
      done,
      elim applied [
        | none ↦ ignoring
        | some (user, row) ↦ record {
          outcome = processed;
          user_id = some user;
          subscription_id = row;
        }
      ],
    )

-- The owner and the local subscription of an invoice: those of the subscription that was applied, of the
-- stored subscription, or of the customer.
abbrev pub local_subscription :
    PaymentsConfig → ProviderInvoice → PaymentsDb → Option SubscriptionRow
local_subscription config invoice db = elim invoice.subscription_id [
  | none ↦ none
  | some id ↦ get_subscription_by_provider_id config.provider id db.subscriptions
]

abbrev pub local_owner : Option SubscriptionRow → Option ℕ → Option ℕ × Option ℕ
local_owner (some r) by_customer = (some r.user_id, some r.id)
local_owner none by_customer = (by_customer, none)

unfoldable pub invoice_owner :
    PaymentsConfig → ProviderInvoice → Applied → PaymentsDb → Option ℕ × Option ℕ
invoice_owner config invoice (some (user, row)) db = (some user, row)
invoice_owner config invoice none db =
    local_owner (local_subscription config invoice db)
      (find_user_id_by_provider_customer config.provider invoice.customer_id db.customers)

abbrev pub is_paid_event : BillingEventType → Bool
is_paid_event invoice_paid = true
is_paid_event _ = false

abbrev pub invoice_payment :
    PaymentsConfig → ProviderEvent → ProviderInvoice → ℕ → Option ℕ → PaymentsDb → BillingPaymentRow
invoice_payment config e invoice user row db = record {
  id = db.next_id;
  user_id = user;
  provider = config.provider;
  provider_payment_id = invoice.id;
  provider_invoice_id = some invoice.id;
  provider_subscription_id = invoice.subscription_id;
  plan_id = elim row [
    | none ↦ pro
    | some id ↦
        coalesce
          (Option.map (λ (r : SubscriptionRow). r.plan_id)
            (find_where (λ (r : SubscriptionRow). r.id == id) db.subscriptions))
          pro
  ];
  amount = invoice.amount_due;
  currency = invoice.currency;
  is_paid = is_paid_event e.type;
  created_at = invoice.created_at;
}

unfoldable pub handle_invoice :
    PaymentsConfig
    → ℕ
    → ProviderEvent
    → ProviderInvoice
    → PaymentsDb
    → Option (PaymentsDb × HandleResult)
handle_invoice config now e invoice db =
    let (done, applied) = apply_event_subscription config now e none db in
    let (user, row) = invoice_owner config invoice applied done in
    elim user [
      | none ↦ some (done, record { outcome = ignored; user_id = none; subscription_id = row })
      | some owner ↦ some (
        record done {
          payments =
              (record_payment_if_new (invoice_payment config e invoice owner row done)
                done.payments).0;
          next_id = done.next_id + 1;
        },
        record { outcome = processed; user_id = some owner; subscription_id = row },
      )
    ]

-- The invoice of an event, where it has one.
unfoldable pub handle_event_invoice :
    PaymentsConfig → ℕ → ProviderEvent → PaymentsDb → Option (PaymentsDb × HandleResult)
handle_event_invoice config now e db = elim e.invoice [
  | none ↦ some (db, ignoring)
  | some invoice ↦ handle_invoice config now e invoice db
]

unfoldable pub handle_event_checkout :
    PaymentsConfig → ℕ → ProviderEvent → PaymentsDb → Option (PaymentsDb × HandleResult)
handle_event_checkout config now e db = elim e.checkout_session [
  | none ↦ some (db, ignoring)
  | some session ↦ handle_checkout config now e session db
]

-- The `switch` on the type. `none` is an exception, at which the transaction is rolled back.
unfoldable pub handle_as :
    PaymentsConfig
    → ℕ
    → ProviderEvent
    → PaymentsDb
    → BillingEventType
    → Option (PaymentsDb × HandleResult)
handle_as config now e db checkout_completed = handle_event_checkout config now e db
handle_as config now e db subscription_created = handle_subscription config now e db
handle_as config now e db subscription_updated = handle_subscription config now e db
handle_as config now e db subscription_deleted = handle_subscription config now e db
handle_as config now e db invoice_paid = handle_event_invoice config now e db
handle_as config now e db invoice_payment_failed = handle_event_invoice config now e db
handle_as config now e db _ = some (db, ignoring)

unfoldable pub handle :
    PaymentsConfig → ℕ → ProviderEvent → PaymentsDb → Option (PaymentsDb × HandleResult)
handle config now e db = handle_as config now e db e.type
