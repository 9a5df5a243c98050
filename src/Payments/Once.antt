-- ===== src/Payments/Once.antt =====
-- Deliveries of one event (lib/billing/webhooks.ts), among the steps of others.
use mathlib.Core.Path.{subst}
use extension_lab.Common.{
  Bool-cases, List, Option-cases, [], ap, arith, false, inl, inr, none, refl, some, sym, true, ℕ,
  ◌==◌, ◌∙◌, ◌∷◌, ◌≡◌, ◌⊎◌,
}
use extension_lab.Payments.Applying.{PaymentsConfig}
use extension_lab.Payments.Deliveries.{
  Delivery, WebhookOutcome, duplicate, hydrate, process_provider_event, settled, work_off,
}
use extension_lab.Payments.EventRows.{claim_apart, finish_apart}
use extension_lab.Payments.EventTable.{
  IsNumbered, SettledAt, claim-IsNumbered, claim_found, claim_keeps_id, event_key,
  finish-IsNumbered, settled_refuses,
}
use extension_lab.Payments.Handling.{HandleResult, handle}
use extension_lab.Payments.Ledger.{
  claim_billing_event, finish_billing_event, finished, get_billing_event, is_event, is_settled,
}
use extension_lab.Payments.Recorded.{handle-Handled}
use extension_lab.Payments.Rows.{BillingEventRow, PaymentsDb, ProviderEvent, broken}
use extension_lab.Payments.Steps.{
  AllSpare, PaymentsOp, apply_payments, purge_events, purge_payments, run_payments, spares,
  take_event, work,
}
use extension_lab.Sql.Defs.{find_by}
use extension_lab.Sql.Single.{find_where-update_hit}

module _ (config : PaymentsConfig) (now : ℕ) (d : Delivery) (claim : ℕ) (db : PaymentsDb) where
  -- Working a claimed event off marks it as failed, or handles it in a transaction.
  pub worked :
      (work_off config now d claim db ≡ (finish_billing_event now claim broken none none db, none))
      ⊎ ((e : ProviderEvent) × (done : PaymentsDb) × (r : HandleResult) × (handle config now e db
            ≡ some (done, r))
          × (work_off config now d claim db ≡ settled now claim (done, r)))
  unfolding work_off
  worked = elim (Option-cases (hydrate d.fetch d.event)) [
    | inl h ↦ inl (rw (h, work_off) refl)
    | inr (e, h) ↦ elim (Option-cases (handle config now e db)) [
      | inl f ↦ inl (rw (h, work_off, f) refl)
      | inr ((done, r), f) ↦ elim (Bool-cases d.aborts) [
        | inl a ↦ inl (rw (h, work_off, f) rw a refl)
        | inr a ↦ inr (e, done, r, f, rw (h, work_off, f) rw a refl)
      ]
    ]
  ]

handled-IsNumbered :
    (config : PaymentsConfig) (now : ℕ) (e : ProviderEvent) (db done : PaymentsDb)
    (r : HandleResult)
    → handle config now e db ≡ some (done, r)
    → IsNumbered db
    → IsNumbered done
handled-IsNumbered config now e db done r h n =
    let (same, is, grows, paid) = handle-Handled config now e db done r h in
    record {
      keyed = rw same n.keyed;
      below = λ i b. ap (find_by event_key i) same ∙ n.below i (omega (arith, grows));
    }

work_off-IsNumbered :
    (config : PaymentsConfig) (now : ℕ) (d : Delivery) (claim : ℕ) (db : PaymentsDb)
    → IsNumbered db
    → IsNumbered (work_off config now d claim db).0
work_off-IsNumbered config now d claim db n = elim (worked config now d claim db) [
  | inl e ↦ rw e (finish-IsNumbered now claim broken none none db n)
  | inr (e, done, r, h, w) ↦ rw w (
      finish-IsNumbered now claim r.outcome r.user_id r.subscription_id done
        (handled-IsNumbered config now e db done r h n))
]

-- A row of another event stays while a claimed event is worked off.
work_off_apart :
    (config : PaymentsConfig) (now : ℕ) (d : Delivery) (claim : ℕ) (db : PaymentsDb) (event : ℕ)
    (x : BillingEventRow)
    → IsNumbered db
    → get_billing_event config.provider event db.billing_events ≡ some x
    → (x.id == claim) ≡ false
    → get_billing_event config.provider event (work_off config now d claim db).0.billing_events
      ≡ some x
work_off_apart config now d claim db event x n here other = elim (worked config now d claim db) [
  | inl e ↦ rw e (finish_apart config.provider event db n x here now claim broken none none other)
  | inr (e, done, r, h, w) ↦
      let (same, is, grows, paid) = handle-Handled config now e db done r h in
      rw w (
        finish_apart config.provider event done (handled-IsNumbered config now e db done r h n) x
          (ap (get_billing_event config.provider event) same ∙ here) now claim r.outcome r.user_id
          r.subscription_id other)
]

-- The row that was claimed is settled by the transaction.
work_off_settles :
    (config : PaymentsConfig) (now : ℕ) (d : Delivery) (row : BillingEventRow) (db : PaymentsDb)
    (event : ℕ) (o : WebhookOutcome)
    → get_billing_event config.provider event db.billing_events ≡ some row
    → (work_off config now d row.id db).1 ≡ some o
    → (x : BillingEventRow) × (get_billing_event config.provider event
          (work_off config now d row.id db).0.billing_events
        ≡ some x)
      × (x.id ≡ row.id)
      × (is_settled x.result ≡ true)
unfolding finish_billing_event get_billing_event
work_off_settles config now d row db event o here won = elim (worked config now d row.id db) [
  | inl e ↦ absurd (ground arith)
  | inr (e, done, r, h, w) ↦
      let (same, is, grows, paid) = handle-Handled config now e db done r h in
      rw w (
        finished now r.outcome r.user_id r.subscription_id row,
        find_where-update_hit (is_event config.provider event) (λ x. x.id == row.id)
            (finished now r.outcome r.user_id r.subscription_id) (λ x. refl) done.billing_events row
            (ap (get_billing_event config.provider event) same ∙ here) (ground arith),
        refl,
        is,
      )
]

-- A step that spares a claim leaves the identifiers in order.
apply-IsNumbered :
    (config : PaymentsConfig) (now id : ℕ) (o : PaymentsOp) (db : PaymentsDb)
    → spares id o ≡ true
    → IsNumbered db
    → IsNumbered (apply_payments config now o db)
unfolding apply_payments
apply-IsNumbered config now id (take_event e) db s n = claim-IsNumbered now config.provider e db n
apply-IsNumbered config now id (work d claim) db s n = work_off-IsNumbered config now d claim db n
apply-IsNumbered config now id (purge_payments before) db s n = record {
  keyed = n.keyed;
  below = n.below;
}
apply-IsNumbered config now id (purge_events before) db s n = absurd (ground arith)

module _ (config : PaymentsConfig) (event id : ℕ) where
  -- The event has the row that was claimed.
  abbrev HeldAt : PaymentsDb → Type 0
  HeldAt db =
      (x : BillingEventRow) × (get_billing_event config.provider event db.billing_events ≡ some x)
      × (x.id ≡ id)

  apply-HeldAt :
      (now : ℕ) (o : PaymentsOp) (db : PaymentsDb)
      → spares id o ≡ true
      → IsNumbered db
      → HeldAt db
      → HeldAt (apply_payments config now o db)
  unfolding apply_payments
  apply-HeldAt now (take_event e) db s n (x, here, same) = elim (Bool-cases (e.id == event)) [
    | inr other ↦ (x, claim_apart config.provider event db n x here now e other, same)
    | inl at ↦
        let named : e.id ≡ event = ground arith in
        let (y, there, kept) =
          claim_keeps_id now config.provider e db x
            (ap (λ k. get_billing_event config.provider k db.billing_events) named ∙ here) in
        let after = (claim_billing_event now config.provider e db).0 in
        (
          y,
          ap (λ k. get_billing_event config.provider k after.billing_events) (sym named) ∙ there,
          kept ∙ same,
        )
  ]
  apply-HeldAt now (work d claim) db s n (x, here, same) =
      (x, work_off_apart config now d claim db event x n here (ground arith), same)
  apply-HeldAt now (purge_payments before) db s n held = held
  apply-HeldAt now (purge_events before) db s n held = absurd (ground arith)

  run-HeldAt :
      (os : List (ℕ × PaymentsOp)) (db : PaymentsDb)
      → AllSpare id os
      → IsNumbered db
      → HeldAt db
      → IsNumbered (run_payments config os db) × HeldAt (run_payments config os db)
  unfolding run_payments
  run-HeldAt [] db s n held = (n, held)
  run-HeldAt ((now, o) ∷ os) db (s, rest) n held =
      run-HeldAt os (apply_payments config now o db) rest (apply-IsNumbered config now id o db s n)
        (apply-HeldAt now o db s n held)

  -- The event has the row that was claimed, and is settled.
  abbrev EndedAt : PaymentsDb → Type 0
  EndedAt db =
      (x : BillingEventRow) × (get_billing_event config.provider event db.billing_events ≡ some x)
      × (x.id ≡ id)
      × (is_settled x.result ≡ true)

  apply-EndedAt :
      (now : ℕ) (o : PaymentsOp) (db : PaymentsDb)
      → spares id o ≡ true
      → IsNumbered db
      → EndedAt db
      → EndedAt (apply_payments config now o db)
  unfolding apply_payments
  apply-EndedAt now (take_event e) db s n (x, here, same, is) = elim (Bool-cases (e.id == event)) [
    | inr other ↦ (x, claim_apart config.provider event db n x here now e other, same, is)
    | inl at ↦
        let named : e.id ≡ event = ground arith in
        let refused =
          settled_refuses now config.provider e db
            (x, ap (λ k. get_billing_event config.provider k db.billing_events) named ∙ here, is) in
        subst (λ p. EndedAt p.0) (sym refused) (x, here, same, is)
  ]
  apply-EndedAt now (work d claim) db s n (x, here, same, is) =
      (x, work_off_apart config now d claim db event x n here (ground arith), same, is)
  apply-EndedAt now (purge_payments before) db s n ended = ended
  apply-EndedAt now (purge_events before) db s n ended = absurd (ground arith)

  run-EndedAt :
      (os : List (ℕ × PaymentsOp)) (db : PaymentsDb)
      → AllSpare id os
      → IsNumbered db
      → EndedAt db
      → EndedAt (run_payments config os db)
  unfolding run_payments
  run-EndedAt [] db s n ended = ended
  run-EndedAt ((now, o) ∷ os) db (s, rest) n ended =
      run-EndedAt os (apply_payments config now o db) rest (apply-IsNumbered config now id o db s n)
        (apply-EndedAt now o db s n ended)

  work_off-EndedAt :
      (now : ℕ) (d : Delivery) (db : PaymentsDb) (o : WebhookOutcome)
      → HeldAt db
      → (work_off config now d id db).1 ≡ some o
      → EndedAt (work_off config now d id db).0
  work_off-EndedAt now d db o (x, here, same) won =
      subst (λ i. (work_off config now d i db).1 ≡ some o → EndedAt (work_off config now d i db).0)
        same
        (λ w.
          let (y, there, kept, is) = work_off_settles config now d x db event o here w in
          (y, there, kept ∙ same, is))
        won

-- A delivery of an event that is settled.
process_duplicate :
    (config : PaymentsConfig) (now : ℕ) (d : Delivery) (db : PaymentsDb)
    → SettledAt config.provider d.event.id db
    → process_provider_event config now d db ≡ (db, some duplicate)
unfolding process_provider_event
process_duplicate config now d db there =
    let refused = settled_refuses now config.provider d.event db there in
    let gone : (claim_billing_event now config.provider d.event db).1 ≡ none =
      ap (λ p. p.1) refused in
    rw (gone, process_provider_event) (ap (λ p. (p.0, some duplicate)) refused)

-- An event takes effect once, where no two deliveries work on one claim: a delivery claims its event, its work
-- succeeds, and between and after these two steps come any steps of overlapping deliveries, claims of the
-- same event among them, but no work on that claim and no deletion of old events. A further delivery of the
-- event is then a duplicate and changes nothing, whatever it carries.
pub process_provider_event_once :
    (config : PaymentsConfig) (now mid later : ℕ) (d again : Delivery)
    (between after : List (ℕ × PaymentsOp)) (db : PaymentsDb) (row : BillingEventRow)
    (o : WebhookOutcome)
    → let claimed =
        run_payments config between (claim_billing_event now config.provider d.event db).0 in
      let ended = run_payments config after (work_off config mid d row.id claimed).0 in
      IsNumbered db
      → (claim_billing_event now config.provider d.event db).1 ≡ some row
      → AllSpare row.id between
      → (work_off config mid d row.id claimed).1 ≡ some o
      → AllSpare row.id after
      → again.event.id ≡ d.event.id
      → process_provider_event config later again ended ≡ (ended, some duplicate)
process_provider_event_once config now mid later d again between after db row o n c s won s' same =
    let start = (claim_billing_event now config.provider d.event db).0 in
    let claimed = run_payments config between start in
    let (n', held) =
      run-HeldAt config d.event.id row.id between start s
        (claim-IsNumbered now config.provider d.event db n)
        (row, claim_found now config.provider d.event db row c, refl) in
    let (x, here, _, is) =
      run-EndedAt config d.event.id row.id after (work_off config mid d row.id claimed).0 s'
        (work_off-IsNumbered config mid d row.id claimed n')
        (work_off-EndedAt config d.event.id row.id mid d claimed o held won) in
    let ended = run_payments config after (work_off config mid d row.id claimed).0 in
    process_duplicate config later again ended
      (subst (λ k. SettledAt config.provider k ended) (sym same) (x, here, is))
