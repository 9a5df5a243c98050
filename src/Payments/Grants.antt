-- ===== src/Payments/Grants.antt =====
-- Entitlements come from subscriptions alone (lib/billing/webhooks.ts).
use mathlib.Core.Option
use extension_lab.Common.{
  Bool-cases, Option-cases, ap, arith, inl, inr, is_some, none, refl, some, ℕ, ◌∙◌, ◌≡◌,
}
use extension_lab.Payments.Applying.{PaymentsConfig, or_other}
use extension_lab.Payments.Deliveries.{Delivery, fetched, hydrate, process_provider_event, work_off}
use extension_lab.Payments.Handling.{
  HandleResult, apply_event_subscription, checked_out, handle, handle_as, handle_checkout,
  handle_event_checkout, handle_event_invoice, handle_invoice, handle_subscription, invoice_owner,
  link_customer,
}
use extension_lab.Payments.Ledger.{claim_billing_event, finish_billing_event, get_checkout_record}
use extension_lab.Payments.Recorded.{event_applied-none, linked-Framed}
use extension_lab.Payments.Rollback.{claim-SameBooks}
use extension_lab.Payments.Rows.{
  BillingEventType, CheckoutSessionRow, PaymentsDb, ProviderCheckoutSession, ProviderEvent,
  ProviderInvoice, checkout_completed, invoice_paid, invoice_payment_failed, subscription_created,
  subscription_deleted, subscription_updated,
}

module _ (config : PaymentsConfig) (now : ℕ) (e : ProviderEvent) (bare : e.subscription ≡ none)
    (db db' : PaymentsDb) (r : HandleResult) where
  checkout_grants :
      (session : ProviderCheckoutSession)
      → handle_checkout config now e session db ≡ some (db', r)
      → db'.subscriptions ≡ db.subscriptions
  unfolding handle_checkout
  checkout_grants session h =
      let user =
        or_other
          (Option.map (λ (x : CheckoutSessionRow). x.user_id)
            (get_checkout_record config.provider session.id db.checkouts))
          session.metadata_user_id in
      let start = checked_out config now session db in
      elim (Option-cases (link_customer config now user session.customer_id start)) [
        | inl f ↦ absurd (ground arith)
        | inr (linked, f) ↦
            let (frame, subs) = linked-Framed config now user session.customer_id start linked f in
            let next = event_applied-none config now e user linked bare in
            elim (Bool-cases (is_some user)) [
              | inl some_user ↦ ground arith
              | inr no_user ↦ ground arith
            ]
      ]

  subscription_grants :
      handle_subscription config now e db ≡ some (db', r) → db'.subscriptions ≡ db.subscriptions
  unfolding handle_subscription
  subscription_grants h = let next = event_applied-none config now e none db bare in ground arith

  invoice_grants :
      (invoice : ProviderInvoice)
      → handle_invoice config now e invoice db ≡ some (db', r)
      → db'.subscriptions ≡ db.subscriptions
  unfolding handle_invoice
  invoice_grants invoice h =
      let next = event_applied-none config now e none db bare in
      let (done, applied) = apply_event_subscription config now e none db in
      elim (Option-cases (invoice_owner config invoice applied done).0) [
        | inl f ↦ ground arith
        | inr (owner, f) ↦ ground arith
      ]

  event_checkout_grants :
      handle_event_checkout config now e db ≡ some (db', r) → db'.subscriptions ≡ db.subscriptions
  unfolding handle_event_checkout
  event_checkout_grants h = elim (Option-cases e.checkout_session) [
    | inl f ↦ ground arith
    | inr (session, f) ↦ checkout_grants session (ground arith)
  ]

  event_invoice_grants :
      handle_event_invoice config now e db ≡ some (db', r) → db'.subscriptions ≡ db.subscriptions
  unfolding handle_event_invoice
  event_invoice_grants h = elim (Option-cases e.invoice) [
    | inl f ↦ ground arith
    | inr (invoice, f) ↦ invoice_grants invoice (ground arith)
  ]

  handle_as_grants :
      (type : BillingEventType)
      → handle_as config now e db type ≡ some (db', r)
      → db'.subscriptions ≡ db.subscriptions
  unfolding handle_as
  handle_as_grants checkout_completed h = event_checkout_grants h
  handle_as_grants subscription_created h = subscription_grants h
  handle_as_grants subscription_updated h = subscription_grants h
  handle_as_grants subscription_deleted h = subscription_grants h
  handle_as_grants invoice_paid h = event_invoice_grants h
  handle_as_grants invoice_payment_failed h = event_invoice_grants h
  handle_as_grants _ h = ground arith

  handle_grants : handle config now e db ≡ some (db', r) → db'.subscriptions ≡ db.subscriptions
  unfolding handle
  handle_grants h = handle_as_grants e.type h

bare_hydrate :
    (d : Delivery) (e : ProviderEvent)
    → d.event.subscription ≡ none
    → d.fetch ≡ fetched none
    → hydrate d.fetch d.event ≡ some e
    → e ≡ d.event
unfolding hydrate
bare_hydrate d e bare unknown h = ground arith

worked_on :
    (config : PaymentsConfig) (now : ℕ) (d : Delivery) (claim : ℕ) (db : PaymentsDb)
    → d.event.subscription ≡ none
    → d.fetch ≡ fetched none
    → (work_off config now d claim db).0.subscriptions ≡ db.subscriptions
unfolding work_off finish_billing_event
worked_on config now d claim db bare unknown = elim (Option-cases (hydrate d.fetch d.event)) [
  | inl h ↦ rw (h, work_off) refl
  | inr (e, h) ↦
      let same = bare_hydrate d e bare unknown h in
      elim (Option-cases (handle config now e db)) [
        | inl f ↦ rw (h, work_off, f) refl
        | inr ((done, r), f) ↦
            let kept =
              handle_grants config now e (ap (λ x. x.subscription) same ∙ bare) db done r f in
            elim (Bool-cases d.aborts) [
              | inl a ↦ rw (h, work_off, f) rw a refl
              | inr a ↦ rw (h, work_off, f) rw a kept
            ]
      ]
]

-- No event grants an entitlement by itself: a delivery without a subscription, for which the provider knows none
-- either, leaves the subscriptions as they were, also if it reports a checkout that was completed or an
-- invoice that was paid.
pub process_provider_event_grants :
    (config : PaymentsConfig) (now : ℕ) (d : Delivery) (db : PaymentsDb)
    → d.event.subscription ≡ none
    → d.fetch ≡ fetched none
    → (process_provider_event config now d db).0.subscriptions ≡ db.subscriptions
unfolding process_provider_event
process_provider_event_grants config now d db bare unknown =
    let taken = claim_billing_event now config.provider d.event db in
    let books = claim-SameBooks now config.provider d.event db in
    elim (Option-cases taken.1) [
      | inl c ↦ rw (c, process_provider_event) books.1
      | inr (row, c) ↦
          rw (c, process_provider_event)
            (worked_on config now d row.id taken.0 bare unknown ∙ books.1)
    ]
