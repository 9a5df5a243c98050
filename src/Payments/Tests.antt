-- ===== src/Payments/Tests.antt =====
-- The theorems on payments at concrete inputs.
use extension_lab.Common.{Bool, List, [], arith, false, length, none, refl, some, true, ℕ, ◌∷◌, ◌≡◌}
use extension_lab.Billing.Plans.{pro}
use extension_lab.Payments.Applying.{PaymentsConfig}
use extension_lab.Payments.Books.{IsUnique, run_payments-IsUnique}
use extension_lab.Payments.Deliveries.{
  Delivery, duplicate, fetched, hydrate, outcome_processed, process_provider_event, work_off,
}
use extension_lab.Payments.EventTable.{IsNumbered}
use extension_lab.Payments.Grants.{process_provider_event_grants}
use extension_lab.Payments.Handling.{
  apply_event_subscription, handle, handle_as, handle_event_invoice, handle_invoice, invoice_owner,
}
use extension_lab.Payments.Ledger.{
  claim_billing_event, claimed_event, find_user_id_by_provider_customer, finish_billing_event,
  get_billing_event, record_payment_if_new,
}
use extension_lab.Payments.Once.{process_provider_event_once}
use extension_lab.Payments.Rollback.{FailedAt, SameBooks, process_provider_event_rollback}
use extension_lab.Payments.Rows.{
  BillingEventRow, PaymentsDb, ProviderEvent, ProviderInvoice, invoice_paid,
}
use extension_lab.Payments.Steps.{PaymentsOp, apply_payments, run_payments, take_event, work}
use extension_lab.Sql.Defs.{count_where, find_by, find_where, insert_row, update_where}

abbrev config : PaymentsConfig
config = record { provider = 1; plan_of_price = λ p. some pro; user_exists = λ u. true }

abbrev db : PaymentsDb
db = record {
  customers =
      record {
        user_id = 7;
        provider = 1;
        provider_customer_id = 70;
        created_at = 1;
        updated_at = 1;
      }
      ∷ [];
  subscriptions = [];
  billing_events = [];
  checkouts = [];
  payments = [];
  next_id = 10;
}

abbrev invoice : ProviderInvoice
invoice = record {
  id = 500;
  customer_id = 70;
  subscription_id = none;
  amount_due = 900;
  currency = 3;
  created_at = 20;
}

abbrev paid : ProviderEvent
paid = record {
  id = 300;
  type = invoice_paid;
  created_at = 21;
  subscription = none;
  invoice = some invoice;
  checkout_session = none;
}

abbrev delivery : Bool → Delivery
delivery aborts = record { event = paid; fetch = fetched none; aborts = aborts }

numbered : IsNumbered db
unfolding find_by find_where
numbered = record { keyed = tt; below = λ i b. refl }

answered : (process_provider_event config 30 (delivery false) db).1 ≡ some outcome_processed
unfolding process_provider_event claim_billing_event get_billing_event work_off hydrate handle
    handle_as handle_event_invoice handle_invoice apply_event_subscription invoice_owner
    find_user_id_by_provider_customer find_where finish_billing_event
answered = refl

abbrev after : PaymentsDb
after = (process_provider_event config 30 (delivery false) db).0

recorded : length after.payments ≡ 1
unfolding process_provider_event claim_billing_event get_billing_event work_off hydrate handle
    handle_as handle_event_invoice handle_invoice apply_event_subscription invoice_owner
    find_user_id_by_provider_customer find_where finish_billing_event record_payment_if_new
    insert_row
recorded = refl

-- The claim of the delivery, a second claim of its event and a claim of another before its work, and more after.
abbrev start : PaymentsDb
start = (claim_billing_event 30 config.provider paid db).0

abbrev claim_row : BillingEventRow
claim_row = claimed_event 30 10 1 paid

abbrev other_paid : ProviderEvent
other_paid = record paid { id = 301 }

abbrev between : List (ℕ × PaymentsOp)
between = (31, take_event paid) ∷ (32, take_event other_paid) ∷ []

abbrev later_steps : List (ℕ × PaymentsOp)
later_steps =
    (41, take_event paid) ∷ (42, work (record (delivery true) { event = other_paid }) 11) ∷ []

granted : (claim_billing_event 30 config.provider paid db).1 ≡ some claim_row
unfolding claim_billing_event get_billing_event find_where
granted = refl

worked_off :
    (work_off config 40 (delivery false) 10 (run_payments config between start)).1
    ≡ some outcome_processed
unfolding process_provider_event claim_billing_event get_billing_event work_off hydrate handle
    handle_as handle_event_invoice handle_invoice apply_event_subscription invoice_owner
    find_user_id_by_provider_customer find_where finish_billing_event run_payments apply_payments
    update_where insert_row
worked_off = refl

process_provider_event_once_example :
    let ended =
      run_payments config later_steps
        (work_off config 40 (delivery false) 10 (run_payments config between start)).0 in
    process_provider_event config 50 (delivery false) ended ≡ (ended, some duplicate)
process_provider_event_once_example =
    process_provider_event_once config 30 40 50 (delivery false) (delivery false) between
      later_steps db claim_row outcome_processed numbered granted (refl, (refl, tt)) worked_off
      (refl, (refl, tt)) refl

aborted : (process_provider_event config 30 (delivery true) db).1 ≡ none
unfolding process_provider_event claim_billing_event get_billing_event work_off hydrate handle
    handle_as handle_event_invoice handle_invoice apply_event_subscription invoice_owner
    find_user_id_by_provider_customer find_where finish_billing_event
aborted = refl

process_provider_event_rollback_example :
    SameBooks db (process_provider_event config 30 (delivery true) db).0
    × FailedAt config 30 (delivery true) db (process_provider_event config 30 (delivery true) db).0
process_provider_event_rollback_example =
    process_provider_event_rollback config 30 (delivery true) db aborted

process_provider_event_grants_example : after.subscriptions ≡ []
process_provider_event_grants_example =
    process_provider_event_grants config 30 (delivery false) db refl refl

no_payments : IsUnique []
unfolding count_where
no_payments provider payment = omega arith

abbrev interleaved : List (ℕ × PaymentsOp)
interleaved =
    (30, take_event paid)
    ∷ (31, take_event paid)
    ∷ (32, work (delivery false) 10)
    ∷ (33, work (delivery false) 10)
    ∷ []

run_payments-IsUnique_example : IsUnique (run_payments config interleaved db).payments
run_payments-IsUnique_example = run_payments-IsUnique config interleaved db no_payments
