-- ===== src/Payments/Recorded.antt =====
-- Handling an event (lib/billing/webhooks.ts): the tables that it leaves alone, the payments that it records.
use mathlib.Core.Option
use extension_lab.Common.{
  Bool-cases, Option, Option-cases, arith, inl, inr, is_some, none, refl, some, true, ℕ, ◌≡◌, ◌≤◌,
  ◌⊎◌,
}
use extension_lab.Payments.Applying.{PaymentsConfig, apply_provider_subscription, or_other}
use extension_lab.Payments.Handling.{
  HandleResult, apply_event_subscription, checked_out, handle, handle_as, handle_checkout,
  handle_event_checkout, handle_event_invoice, handle_invoice, handle_subscription, ignoring,
  invoice_owner, invoice_payment, link_customer,
}
use extension_lab.Payments.Ledger.{
  get_checkout_record, is_settled, record_payment_if_new, upsert_billing_customer,
}
use extension_lab.Payments.Rows.{
  BillingEventType, BillingPaymentRow, CheckoutSessionRow, PaymentsDb, ProviderCheckoutSession,
  ProviderEvent, ProviderInvoice, ProviderSubscription, checkout_completed, invoice_paid,
  invoice_payment_failed, subscription_created, subscription_deleted, subscription_updated,
}

-- The same events and payments; the counter does not fall.
abbrev pub Framed : PaymentsDb → PaymentsDb → Type 0
Framed db db' =
    (db'.billing_events ≡ db.billing_events)
    × (db'.payments ≡ db.payments)
    × (db.next_id ≤ db'.next_id)

applied-Framed :
    (config : PaymentsConfig) (now : ℕ) (sub : ProviderSubscription) (at : ℕ) (user : Option ℕ)
    (db : PaymentsDb)
    → Framed db (apply_provider_subscription config now sub at user db).0
unfolding apply_provider_subscription
applied-Framed config now sub at user db = ground arith

event_applied-Framed :
    (config : PaymentsConfig) (now : ℕ) (e : ProviderEvent) (user : Option ℕ) (db : PaymentsDb)
    → Framed db (apply_event_subscription config now e user db).0
unfolding apply_event_subscription
event_applied-Framed config now e user db = elim (Option-cases e.subscription) [
  | inl h ↦ rw (h, apply_event_subscription) (refl, refl, omega arith)
  | inr (sub, h) ↦
      rw (h, apply_event_subscription) (applied-Framed config now sub e.created_at user db)
]

pub event_applied-none :
    (config : PaymentsConfig) (now : ℕ) (e : ProviderEvent) (user : Option ℕ) (db : PaymentsDb)
    → e.subscription ≡ none
    → (apply_event_subscription config now e user db) ≡ (db, none)
unfolding apply_event_subscription
event_applied-none config now e user db h = rw (h, apply_event_subscription) refl

pub linked-Framed :
    (config : PaymentsConfig) (now : ℕ) (user customer : Option ℕ) (db db' : PaymentsDb)
    → link_customer config now user customer db ≡ some db'
    → Framed db db' × (db'.subscriptions ≡ db.subscriptions)
unfolding link_customer
linked-Framed config now none customer db db' h =
    ((ground arith, ground arith, ground arith), ground arith)
linked-Framed config now (some u) none db db' h =
    ((ground arith, ground arith, ground arith), ground arith)
linked-Framed config now (some u) (some c) db db' h =
    elim (Option-cases (upsert_billing_customer now u config.provider c db.customers)) [
      | inl e ↦ absurd (ground arith)
      | inr (t, e) ↦ ((ground arith, ground arith, ground arith), ground arith)
    ]

module _ (config : PaymentsConfig) (now : ℕ) (e : ProviderEvent) (db : PaymentsDb) where
  checkout_frame :
      (session : ProviderCheckoutSession) (db' : PaymentsDb) (r : HandleResult)
      → handle_checkout config now e session db ≡ some (db', r)
      → Framed db db' × (is_settled r.outcome ≡ true)
  unfolding handle_checkout
  checkout_frame session db' r h =
      let user =
        or_other
          (Option.map (λ (x : CheckoutSessionRow). x.user_id)
            (get_checkout_record config.provider session.id db.checkouts))
          session.metadata_user_id in
      let start = checked_out config now session db in
      elim (Option-cases (link_customer config now user session.customer_id start)) [
        | inl f ↦ absurd (ground arith)
        | inr (linked, f) ↦
            let (frame, subs) = linked-Framed config now user session.customer_id start linked f in
            let next = event_applied-Framed config now e user linked in
            elim (Bool-cases (is_some user)) [
              | inl some_user ↦ ((ground arith, ground arith, ground arith), ground arith)
              | inr no_user ↦ ((ground arith, ground arith, ground arith), ground arith)
            ]
      ]

  subscription_frame :
      (db' : PaymentsDb) (r : HandleResult)
      → handle_subscription config now e db ≡ some (db', r)
      → Framed db db' × (is_settled r.outcome ≡ true)
  unfolding handle_subscription
  subscription_frame db' r h =
      let frame = event_applied-Framed config now e none db in
      ((ground arith, ground arith, ground arith), ground arith)

  -- The payments after an invoice: as before, or with one that is recorded if it is new.
  invoice_frame :
      (invoice : ProviderInvoice) (db' : PaymentsDb) (r : HandleResult)
      → handle_invoice config now e invoice db ≡ some (db', r)
      → (db'.billing_events ≡ db.billing_events)
        × (is_settled r.outcome ≡ true)
        × (db.next_id ≤ db'.next_id)
        × ((db'.payments ≡ db.payments)
            ⊎ ((p : BillingPaymentRow) × (db'.payments ≡ (record_payment_if_new p db.payments).0)))
  unfolding handle_invoice
  invoice_frame invoice db' r h =
      let (done, applied) = apply_event_subscription config now e none db in
      let frame = event_applied-Framed config now e none db in
      elim (Option-cases (invoice_owner config invoice applied done).0) [
        | inl f ↦ (ground arith, ground arith, ground arith, inl (ground arith))
        | inr (owner, f) ↦
            let p =
              invoice_payment config e invoice owner (invoice_owner config invoice applied done).1
                done in
            (ground arith, ground arith, ground arith, inr (p, ground arith))
      ]

  -- What handling does to the tables of events and payments, and its outcome.
  abbrev pub Handled : PaymentsDb → HandleResult → Type 0
  Handled db' r =
      (db'.billing_events ≡ db.billing_events)
      × (is_settled r.outcome ≡ true)
      × (db.next_id ≤ db'.next_id)
      × ((db'.payments ≡ db.payments)
          ⊎ ((p : BillingPaymentRow) × (db'.payments ≡ (record_payment_if_new p db.payments).0)))

  from_frame :
      (db' : PaymentsDb) (r : HandleResult)
      → Framed db db' × (is_settled r.outcome ≡ true)
      → Handled db' r
  from_frame db' r (f, o) = (f.0, o, f.2, inl f.1)

  ignored-Handled :
      (db' : PaymentsDb) (r : HandleResult)
      → ◌≡◌ {A = Option (PaymentsDb × HandleResult)} (some (db, ignoring)) (some (db', r))
      → Handled db' r
  ignored-Handled db' r h = (ground arith, ground arith, ground arith, inl (ground arith))

  checkout-Handled :
      (db' : PaymentsDb) (r : HandleResult)
      → handle_event_checkout config now e db ≡ some (db', r)
      → Handled db' r
  unfolding handle_event_checkout
  checkout-Handled db' r h = elim (Option-cases e.checkout_session) [
    | inl f ↦ ignored-Handled db' r (ground arith)
    | inr (session, f) ↦ from_frame db' r (checkout_frame session db' r (ground arith))
  ]

  invoice-Handled :
      (db' : PaymentsDb) (r : HandleResult)
      → handle_event_invoice config now e db ≡ some (db', r)
      → Handled db' r
  unfolding handle_event_invoice
  invoice-Handled db' r h = elim (Option-cases e.invoice) [
    | inl f ↦ ignored-Handled db' r (ground arith)
    | inr (invoice, f) ↦ invoice_frame invoice db' r (ground arith)
  ]

  pub handle_as-Handled :
      (type : BillingEventType) (db' : PaymentsDb) (r : HandleResult)
      → handle_as config now e db type ≡ some (db', r)
      → Handled db' r
  unfolding handle_as
  handle_as-Handled checkout_completed db' r h = checkout-Handled db' r h
  handle_as-Handled subscription_created db' r h = from_frame db' r (subscription_frame db' r h)
  handle_as-Handled subscription_updated db' r h = from_frame db' r (subscription_frame db' r h)
  handle_as-Handled subscription_deleted db' r h = from_frame db' r (subscription_frame db' r h)
  handle_as-Handled invoice_paid db' r h = invoice-Handled db' r h
  handle_as-Handled invoice_payment_failed db' r h = invoice-Handled db' r h
  handle_as-Handled _ db' r h = ignored-Handled db' r h

  pub handle-Handled :
      (db' : PaymentsDb) (r : HandleResult) → handle config now e db ≡ some (db', r) → Handled db' r
  unfolding handle
  handle-Handled db' r h = handle_as-Handled e.type db' r h
