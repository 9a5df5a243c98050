-- ===== src/Payments/Books.antt =====
-- The ledger of payments (lib/db/repositories/billing.ts) under deliveries in any order.
use extension_lab.Common.{
  Bool-cases, List, Option-cases, [], ap, arith, inl, inr, ltb, sym, ℕ, ◌∙◌, ◌∷◌, ◌≡◌, ◌≤◌,
}
use extension_lab.Payments.Applying.{PaymentsConfig}
use extension_lab.Payments.Deliveries.{Delivery, work_off}
use extension_lab.Payments.Ledger.{
  claim_billing_event, delete_old_billing_events, delete_old_billing_payments, finish_billing_event,
  is_payment, record_payment_if_new,
}
use extension_lab.Payments.Once.{worked}
use extension_lab.Payments.Recorded.{handle-Handled}
use extension_lab.Payments.Rows.{BillingPaymentRow, PaymentsDb, ProviderEvent}
use extension_lab.Payments.Steps.{
  PaymentsOp, apply_payments, purge_events, purge_payments, run_payments, take_event, work,
}
use extension_lab.Sql.Defs.{count_where, find_where}
use extension_lab.Sql.Laws.{count_where-insert, count_where-zero}
use extension_lab.Sql.Single.{count_where-delete_le}

-- A payment of a provider is recorded at most once.
abbrev pub IsUnique : List BillingPaymentRow → Type 0
IsUnique t = (provider payment : ℕ) → count_where (is_payment provider payment) t ≤ 1

record_payment-IsUnique :
    (p : BillingPaymentRow) (t : List BillingPaymentRow)
    → IsUnique t
    → IsUnique (record_payment_if_new p t).0
unfolding record_payment_if_new
record_payment-IsUnique p t u provider payment =
    elim (Option-cases (find_where (is_payment p.provider p.provider_payment_id) t)) [
      | inr (r, h) ↦ rw (h, record_payment_if_new) (u provider payment)
      | inl h ↦ elim (Bool-cases (is_payment provider payment p)) [
        | inr apart ↦
            ground (arith, count_where-insert (is_payment provider payment) p t, u provider payment)
        | inl same ↦
            let at : p.provider ≡ provider = ground arith in
            let named : p.provider_payment_id ≡ payment = ground arith in
            let none_yet = count_where-zero (is_payment p.provider p.provider_payment_id) t h in
            let none_here : count_where (is_payment provider payment) t ≡ 0 =
              ap (λ x. count_where (is_payment x payment) t) (sym at)
              ∙ ap (λ x. count_where (is_payment p.provider x) t) (sym named)
              ∙ none_yet in
            ground (arith, count_where-insert (is_payment provider payment) p t, none_here)
      ]
    ]

work_off-IsUnique :
    (config : PaymentsConfig) (now : ℕ) (d : Delivery) (claim : ℕ) (db : PaymentsDb)
    → IsUnique db.payments
    → IsUnique (work_off config now d claim db).0.payments
unfolding finish_billing_event
work_off-IsUnique config now d claim db u = elim (worked config now d claim db) [
  | inl e ↦ rw e u
  | inr (e, done, r, h, w) ↦
      let (same, is, grows, paid) = handle-Handled config now e db done r h in
      rw w (elim paid [
        | inl kept ↦ rw kept u
        | inr (p, new) ↦ rw new (record_payment-IsUnique p db.payments u)
      ])
]

claim-payments :
    (now provider : ℕ) (e : ProviderEvent) (db : PaymentsDb)
    → (claim_billing_event now provider e db).0.payments ≡ db.payments
unfolding claim_billing_event
claim-payments now provider e db = ground arith

-- However the steps of deliveries interleave, also if two of them handle one event at once, and whatever fails,
-- no payment of a provider is ever recorded twice.
pub run_payments-IsUnique :
    (config : PaymentsConfig) (os : List (ℕ × PaymentsOp)) (db : PaymentsDb)
    → IsUnique db.payments
    → IsUnique (run_payments config os db).payments
unfolding run_payments apply_payments delete_old_billing_payments delete_old_billing_events
run_payments-IsUnique config [] db u = u
run_payments-IsUnique config ((now, take_event e) ∷ os) db u =
    run_payments-IsUnique config os (claim_billing_event now config.provider e db).0
      (rw (claim-payments now config.provider e db) u)
run_payments-IsUnique config ((now, work d claim) ∷ os) db u =
    run_payments-IsUnique config os (work_off config now d claim db).0
      (work_off-IsUnique config now d claim db u)
run_payments-IsUnique config ((now, purge_payments before) ∷ os) db u =
    run_payments-IsUnique config os
      (record db { payments = delete_old_billing_payments before db.payments })
      (λ provider payment. omega (
        arith,
        count_where-delete_le (is_payment provider payment) (λ r. ltb r.created_at before)
            db.payments,
        u provider payment,
      ))
run_payments-IsUnique config ((now, purge_events before) ∷ os) db u =
    run_payments-IsUnique config os (delete_old_billing_events before db) u
