-- ===== src/Payments/EventTable.antt =====
-- The table of events of lib/db/repositories/billing.ts: claims, and rows that other writes leave alone.
use mathlib.Core.Option
use extension_lab.Common.{
  Bool, Bool-cases, List, Option, Option-cases, [], ap, arith, false, if◌then◌else◌, inl, inr,
  is_none, none, refl, some, sym, true, ℕ, ◌==◌, ◌∙◌, ◌∷◌, ◌≡◌, ◌≤◌,
}
use extension_lab.Payments.Ledger.{
  claim_billing_event, claimed_event, finish_billing_event, finished, get_billing_event, is_event,
  is_settled, reopened,
}
use extension_lab.Payments.Rows.{BillingEventResult, BillingEventRow, PaymentsDb, ProviderEvent}
use extension_lab.Sql.Defs.{IsKeyed, find_by, find_where, update_where}
use extension_lab.Sql.Laws.{
  find_by-insert, find_by-update_where, insert_row-IsKeyed, update_where-IsKeyed,
}
use extension_lab.Sql.Single.{find_where-insert_new, find_where-update_hit}

abbrev pub event_key : BillingEventRow → ℕ
event_key r = r.id

-- Identifiers are unique, and below the counter.
pub record IsNumbered (db : PaymentsDb) : Type 0 where
  pub keyed : IsKeyed event_key db.billing_events
  pub below : (i : ℕ) → db.next_id ≤ i → find_by event_key i db.billing_events ≡ none

module _ {A : Type 0} (p q : A → Bool) (f : A → A) where
  -- An UPDATE of other rows leaves the row that a test finds.
  pub find_where-update_other :
      ((r : A) → p (f r) ≡ p r)
      → (t : List A) (r : A) → find_where p t ≡ some r
      → q r ≡ false
      → find_where p (update_where q f t) ≡ some r
  unfolding find_where update_where
  find_where-update_other same [] r h e = absurd (ground arith)
  find_where-update_other same (x ∷ t) r h e =
      ground (arith, same x, find_where-update_other same t r)

module _ {A : Type 0} (key : A → ℕ) where
  -- The row that a test finds is found by its key.
  pub keyed_found :
      (p : A → Bool) (t : List A) (r : A)
      → IsKeyed key t
      → find_where p t ≡ some r
      → find_by key (key r) t ≡ some r
  unfolding find_where find_by
  keyed_found p [] r k h = absurd (ground arith)
  keyed_found p (x ∷ t) r k h = elim (Bool-cases (p x)) [
    | inl e ↦ ground arith
    | inr e ↦
        let later : find_where (λ y. key y == key r) t ≡ some r =
          keyed_found p t r k.1 (ground arith) in
        elim (Bool-cases (key x == key r)) [
          | inl same ↦
              let at : key x ≡ key r = ground arith in
              let gone : is_none (find_where (λ y. key y == key x) t) ≡ true = k.0 in
              let gone' : is_none (find_where (λ y. key y == key r) t) ≡ true =
                ap (λ i. is_none (find_where (λ y. key y == i) t)) (sym at) ∙ gone in
              absurd (ground arith)
          | inr apart ↦ ground arith
        ]
  ]

-- The row of an event, settled.
abbrev pub SettledAt : ℕ → ℕ → PaymentsDb → Type 0
SettledAt provider event db =
    (r : BillingEventRow) × (get_billing_event provider event db.billing_events ≡ some r)
    × (is_settled r.result ≡ true)

module _ (now provider : ℕ) (e : ProviderEvent) (db : PaymentsDb) where
  pub claim-IsNumbered : IsNumbered db → IsNumbered (claim_billing_event now provider e db).0
  unfolding claim_billing_event
  claim-IsNumbered n = elim (Option-cases (get_billing_event provider e.id db.billing_events)) [
    | inl h ↦
        let new = claimed_event now db.next_id provider e in
        rw (h, claim_billing_event)
          (record {
            keyed =
                insert_row-IsKeyed event_key new db.billing_events n.keyed
                  (n.below db.next_id (omega arith));
            below = λ i b.
                ground (
                  arith,
                  find_by-insert event_key new i db.billing_events,
                  n.below i (omega arith),
                );
          })
    | inr (r, h) ↦ elim (Bool-cases (is_settled r.result)) [
      | inl s ↦ rw (h, claim_billing_event, s) n
      | inr s ↦
          rw (h, claim_billing_event, s)
            (record {
              keyed =
                  update_where-IsKeyed event_key (λ x. x.id == r.id) reopened (λ x. refl)
                    db.billing_events n.keyed;
              below = λ i b.
                  find_by-update_where event_key (λ x. x.id == r.id) reopened (λ x. refl) i
                    db.billing_events
                  ∙ ap (Option.map (λ x. if x.id == r.id then reopened x else x)) (n.below i b);
            })
    ]
  ]

  -- A claim that is granted is found under its event.
  pub claim_found :
      (row : BillingEventRow)
      → (claim_billing_event now provider e db).1 ≡ some row
      → get_billing_event provider e.id (claim_billing_event now provider e db).0.billing_events
        ≡ some row
  unfolding claim_billing_event get_billing_event
  claim_found row c =
      let event = is_event provider e.id in
      let new = claimed_event now db.next_id provider e in
      elim (Option-cases (get_billing_event provider e.id db.billing_events)) [
        | inl h ↦
            let same : new ≡ row = ground arith in
            rw (h, claim_billing_event)
              (find_where-insert_new event new db.billing_events h (ground arith) ∙ ap some same)
        | inr (r, h) ↦ elim (Bool-cases (is_settled r.result)) [
          | inl s ↦ absurd (ground arith)
          | inr s ↦
              let same : reopened r ≡ row = ground arith in
              rw (h, claim_billing_event, s)
                (find_where-update_hit event (λ x. x.id == r.id) reopened (λ x. refl)
                    db.billing_events r h (ground arith)
                  ∙ ap some same)
        ]
      ]

  -- A claim of an event that has a row leaves it a row with the same identifier.
  pub claim_keeps_id :
      (r : BillingEventRow)
      → get_billing_event provider e.id db.billing_events ≡ some r
      → (x : BillingEventRow) × (get_billing_event provider e.id
            (claim_billing_event now provider e db).0.billing_events
          ≡ some x)
        × (x.id ≡ r.id)
  unfolding claim_billing_event get_billing_event
  claim_keeps_id r h = elim (Bool-cases (is_settled r.result)) [
    | inl s ↦ (r, rw (h, claim_billing_event, s) h, refl)
    | inr s ↦ (
      reopened r,
      rw (h, claim_billing_event, s)
          (find_where-update_hit (is_event provider e.id) (λ x. x.id == r.id) reopened (λ x. refl)
            db.billing_events r h (ground arith)),
      refl,
    )
  ]

  -- A claim that is refused is of an event that is settled, and changes nothing.
  pub claim_refused :
      (claim_billing_event now provider e db).1 ≡ none
      → SettledAt provider e.id db × ((claim_billing_event now provider e db).0 ≡ db)
  unfolding claim_billing_event
  claim_refused c = elim (Option-cases (get_billing_event provider e.id db.billing_events)) [
    | inl h ↦ absurd (ground arith)
    | inr (r, h) ↦ elim (Bool-cases (is_settled r.result)) [
      | inl s ↦ ((r, h, s), rw (h, claim_billing_event, s) refl)
      | inr s ↦ absurd (ground arith)
    ]
  ]

  pub settled_refuses :
      SettledAt provider e.id db → claim_billing_event now provider e db ≡ (db, none)
  unfolding claim_billing_event
  settled_refuses (r, h, s) = rw (h, claim_billing_event, s) refl

pub finish-IsNumbered :
    (now id : ℕ) (result : BillingEventResult) (user subscription : Option ℕ) (db : PaymentsDb)
    → IsNumbered db
    → IsNumbered (finish_billing_event now id result user subscription db)
unfolding finish_billing_event
finish-IsNumbered now id result user subscription db n = record {
  keyed =
      update_where-IsKeyed event_key (λ x. x.id == id) (finished now result user subscription)
        (λ x. refl) db.billing_events n.keyed;
  below = λ i b.
      find_by-update_where event_key (λ x. x.id == id) (finished now result user subscription)
        (λ x. refl) i db.billing_events
      ∙ ap (Option.map (λ x. if x.id == id then finished now result user subscription x else x))
          (n.below i b);
}
