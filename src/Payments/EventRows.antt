-- ===== src/Payments/EventRows.antt =====
-- Writes of other events leave the row of an event (lib/db/repositories/billing.ts).
use extension_lab.Common.{
  Bool-cases, Option, Option-cases, ap, arith, false, inl, inr, refl, some, sym, true, ℕ, ◌&&◌,
  ◌==◌, ◌∙◌, ◌≡◌,
}
use extension_lab.Payments.EventTable.{IsNumbered, event_key, find_where-update_other, keyed_found}
use extension_lab.Payments.Ledger.{
  claim_billing_event, claimed_event, finish_billing_event, finished, get_billing_event, is_event,
  is_settled, reopened,
}
use extension_lab.Payments.Rows.{BillingEventResult, BillingEventRow, PaymentsDb, ProviderEvent}
use extension_lab.Sql.Defs.{find_by}
use extension_lab.Sql.Laws.{find_where-holds, find_where-insert}

-- Rows of other events, in a table whose identifiers are unique.
module _ (provider event : ℕ) (db : PaymentsDb) (n : IsNumbered db) (r : BillingEventRow)
    (here : get_billing_event provider event db.billing_events ≡ some r) where
  named : (r.provider == provider && r.provider_event_id == event) ≡ true
  unfolding get_billing_event
  named = find_where-holds (is_event provider event) db.billing_events r here

  by_key : find_by event_key r.id db.billing_events ≡ some r
  unfolding get_billing_event
  by_key = keyed_found event_key (is_event provider event) db.billing_events r n.keyed here

  old_id : (r.id == db.next_id) ≡ false
  old_id = elim (Bool-cases (r.id == db.next_id)) [
    | inr apart ↦ apart
    | inl same ↦ absurd (ground (arith, n.below r.id (ground arith), by_key))
  ]

  other_id :
      (e : ProviderEvent) (x : BillingEventRow)
      → (e.id == event) ≡ false
      → get_billing_event provider e.id db.billing_events ≡ some x
      → (r.id == x.id) ≡ false
  unfolding get_billing_event
  other_id e x other h = elim (Bool-cases (r.id == x.id)) [
    | inr apart ↦ apart
    | inl same ↦
        let at : r.id ≡ x.id = ground arith in
        let theirs : find_by event_key x.id db.billing_events ≡ some x =
          keyed_found event_key (is_event provider e.id) db.billing_events x n.keyed h in
        let both : find_by event_key x.id db.billing_events ≡ some r =
          ap (λ i. find_by event_key i db.billing_events) (sym at) ∙ by_key in
        let x_is : x ≡ r = ground arith in
        let holds_x = find_where-holds (is_event provider e.id) db.billing_events x h in
        absurd (ground (arith, named, ap (λ y. y.provider_event_id) x_is, holds_x))
  ]

  -- A claim of another event leaves the row, and gives one with another identifier.
  pub claim_apart :
      (now : ℕ) (e : ProviderEvent)
      → (e.id == event) ≡ false
      → get_billing_event provider event (claim_billing_event now provider e db).0.billing_events
        ≡ some r
  unfolding claim_billing_event get_billing_event
  claim_apart now e other =
      let new = claimed_event now db.next_id provider e in
      elim (Option-cases (get_billing_event provider e.id db.billing_events)) [
        | inl h ↦
            rw (h, claim_billing_event)
              (find_where-insert (is_event provider event) new db.billing_events ∙ ground arith)
        | inr (x, h) ↦ elim (Bool-cases (is_settled x.result)) [
          | inl s ↦ rw (h, claim_billing_event, s) here
          | inr s ↦
              rw (h, claim_billing_event, s)
                (find_where-update_other (is_event provider event) (λ y. y.id == x.id) reopened
                  (λ y. refl) db.billing_events r here (other_id e x other h))
        ]
      ]

  pub claim_other_id :
      (now : ℕ) (e : ProviderEvent) (row : BillingEventRow)
      → (e.id == event) ≡ false
      → (claim_billing_event now provider e db).1 ≡ some row
      → (r.id == row.id) ≡ false
  unfolding claim_billing_event
  claim_other_id now e row other c =
      elim (Option-cases (get_billing_event provider e.id db.billing_events)) [
        | inl h ↦ let same : row.id ≡ db.next_id = ground arith in ap (λ i. r.id == i) same ∙ old_id
        | inr (x, h) ↦ elim (Bool-cases (is_settled x.result)) [
          | inl s ↦ absurd (ground arith)
          | inr s ↦
              let same : row.id ≡ x.id = ground arith in
              ap (λ i. r.id == i) same ∙ other_id e x other h
        ]
      ]

  -- The end of another event leaves the row.
  pub finish_apart :
      (now id : ℕ) (result : BillingEventResult) (user subscription : Option ℕ)
      → (r.id == id) ≡ false
      → get_billing_event provider event
          (finish_billing_event now id result user subscription db).billing_events
        ≡ some r
  unfolding finish_billing_event get_billing_event
  finish_apart now id result user subscription other =
      find_where-update_other (is_event provider event) (λ y. y.id == id)
        (finished now result user subscription) (λ y. refl) db.billing_events r here other
