-- ===== src/Payments/Rollback.antt =====
-- A delivery that fails (lib/billing/webhooks.ts), and one without a subscription.
use extension_lab.Common.{
  Option, Option-cases, ap, arith, false, inl, inr, is_some, none, refl, some, true, ℕ, ◌==◌, ◌∙◌,
  ◌≡◌,
}
use extension_lab.Payments.Applying.{PaymentsConfig}
use extension_lab.Payments.Deliveries.{Delivery, duplicate, process_provider_event, work_off}
use extension_lab.Payments.EventTable.{claim_found}
use extension_lab.Payments.Ledger.{
  claim_billing_event, finish_billing_event, finished, get_billing_event, is_event, is_settled,
}
use extension_lab.Payments.Once.{worked}
use extension_lab.Payments.Rows.{BillingEventRow, PaymentsDb, ProviderEvent, broken}
use extension_lab.Sql.Single.{find_where-update_hit}

-- The tables but that of events.
abbrev pub SameBooks : PaymentsDb → PaymentsDb → Type 0
SameBooks db db' =
    (db'.customers ≡ db.customers)
    × (db'.subscriptions ≡ db.subscriptions)
    × (db'.checkouts ≡ db.checkouts)
    × (db'.payments ≡ db.payments)

pub claim-SameBooks :
    (now provider : ℕ) (e : ProviderEvent) (db : PaymentsDb)
    → SameBooks db (claim_billing_event now provider e db).0
unfolding claim_billing_event
claim-SameBooks now provider e db = (ground arith, ground arith, ground arith, ground arith)

unsettled_claims :
    (now provider : ℕ) (e : ProviderEvent) (db : PaymentsDb) (x : BillingEventRow)
    → get_billing_event provider e.id db.billing_events ≡ some x
    → is_settled x.result ≡ false
    → is_some (claim_billing_event now provider e db).1 ≡ true
unfolding claim_billing_event
unsettled_claims now provider e db x h s = rw (h, claim_billing_event, s) refl

module _ (config : PaymentsConfig) (now : ℕ) (d : Delivery) (db : PaymentsDb) where
  abbrev taken : PaymentsDb × Option BillingEventRow
  taken = claim_billing_event now config.provider d.event db

  -- The row of the event has the result `failed` with the time of the failure, and the event can be claimed.
  abbrev pub FailedAt : PaymentsDb → Type 0
  FailedAt db' =
      (r : BillingEventRow) × (get_billing_event config.provider d.event.id db'.billing_events
        ≡ some r)
      × (r.result ≡ broken)
      × (r.processed_at ≡ some now)
      × ((later : ℕ) → is_some (claim_billing_event later config.provider d.event db').1 ≡ true)

  refused_answers :
      taken.1 ≡ none → process_provider_event config now d db ≡ (taken.0, some duplicate)
  unfolding process_provider_event
  refused_answers c = rw (c, process_provider_event) refl

  granted_works :
      (row : BillingEventRow)
      → taken.1 ≡ some row
      → process_provider_event config now d db ≡ work_off config now d row.id taken.0
  unfolding process_provider_event
  granted_works row c = rw (c, process_provider_event) refl

  -- A delivery that failed claimed its event, and then marked it as failed.
  failed_shape :
      (process_provider_event config now d db).1 ≡ none
      → (row : BillingEventRow) × (taken.1 ≡ some row)
        × ((process_provider_event config now d db).0
            ≡ finish_billing_event now row.id broken none none taken.0)
  failed_shape failed = elim (Option-cases taken.1) [
    | inl c ↦ absurd (ground (arith, refused_answers c))
    | inr (row, c) ↦ elim (worked config now d row.id taken.0) [
      | inl w ↦ (row, c, ap (λ p. p.0) (granted_works row c ∙ w))
      | inr (e, done, r, h, w) ↦ absurd (ground (arith, granted_works row c, w))
    ]
  ]

  finished_books :
      (row : BillingEventRow)
      → SameBooks db (finish_billing_event now row.id broken none none taken.0)
  unfolding finish_billing_event
  finished_books row = claim-SameBooks now config.provider d.event db

  finished_found :
      (row : BillingEventRow)
      → taken.1 ≡ some row
      → get_billing_event config.provider d.event.id
          (finish_billing_event now row.id broken none none taken.0).billing_events
        ≡ some (finished now broken none none row)
  unfolding finish_billing_event get_billing_event
  finished_found row c =
      find_where-update_hit (is_event config.provider d.event.id) (λ x. x.id == row.id)
        (finished now broken none none) (λ x. refl) taken.0.billing_events row
        (claim_found now config.provider d.event db row c) (ground arith)

  finished_fails :
      (row : BillingEventRow)
      → taken.1 ≡ some row
      → FailedAt (finish_billing_event now row.id broken none none taken.0)
  finished_fails row c = (
    finished now broken none none row,
    finished_found row c,
    refl,
    refl,
    λ later.
        unsettled_claims later config.provider d.event
          (finish_billing_event now row.id broken none none taken.0)
          (finished now broken none none row) (finished_found row c) refl,
  )

  -- A delivery that fails, in the fetch or in its transaction, leaves all but the table of events as it was;
  -- the row of its event has the result `failed` and the time of the failure, and the next claim of the event
  -- is granted.
  pub process_provider_event_rollback :
      (process_provider_event config now d db).1 ≡ none
      → SameBooks db (process_provider_event config now d db).0
        × FailedAt (process_provider_event config now d db).0
  process_provider_event_rollback failed =
      let (row, c, shape) = failed_shape failed in
      (rw shape (finished_books row), rw shape (finished_fails row c))
