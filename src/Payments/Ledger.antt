-- ===== src/Payments/Ledger.antt =====
-- Customers, events, checkouts and payments of lib/db/repositories/billing.ts.
use mathlib.Core.Option
use extension_lab.Common.{
  Bool, List, Option, false, if◌then◌else◌, is_some, ltb, none, not, some, true, ℕ, ◌&&◌, ◌+◌, ◌==◌,
}
use extension_lab.Billing.Plans.{PlanId}
use extension_lab.Payments.Rows.{
  BillingCustomerRow, BillingEventResult, BillingEventRow, BillingPaymentRow, CheckoutSessionRow,
  CheckoutStatus, PaymentsDb, ProviderEvent, ignored, lapsed, processed, processing, unfinished,
}
use extension_lab.Sql.Defs.{delete_where, find_where, insert_row, update_where}

abbrev pub is_customer : ℕ → ℕ → BillingCustomerRow → Bool
is_customer provider customer r = r.provider == provider && r.provider_customer_id == customer

abbrev pub is_customer_of : ℕ → ℕ → BillingCustomerRow → Bool
is_customer_of user provider r = r.user_id == user && r.provider == provider

unfoldable pub get_billing_customer : ℕ → ℕ → List BillingCustomerRow → Option BillingCustomerRow
get_billing_customer user provider t = find_where (is_customer_of user provider) t

unfoldable pub find_user_id_by_provider_customer : ℕ → ℕ → List BillingCustomerRow → Option ℕ
find_user_id_by_provider_customer provider customer t =
    Option.map (λ (r : BillingCustomerRow). r.user_id)
      (find_where (is_customer provider customer) t)

abbrev pub new_customer : ℕ → ℕ → ℕ → ℕ → BillingCustomerRow
new_customer now user provider customer = record {
  user_id = user;
  provider = provider;
  provider_customer_id = customer;
  created_at = now;
  updated_at = now;
}

-- INSERT … ON CONFLICT(user_id, provider) DO UPDATE; `none` is the exception of
-- UNIQUE (provider, provider_customer_id), by the row of another user.
unfoldable pub upsert_billing_customer :
    ℕ → ℕ → ℕ → ℕ → List BillingCustomerRow → Option (List BillingCustomerRow)
upsert_billing_customer now user provider customer t =
    if is_some (find_where (λ r. is_customer provider customer r && not (r.user_id == user)) t)
    then none
    else if is_some (get_billing_customer user provider t)
    then some (
        update_where (is_customer_of user provider)
          (λ r. record r { provider_customer_id = customer; updated_at = now }) t)
    else some (insert_row (new_customer now user provider customer) t)

abbrev pub is_event : ℕ → ℕ → BillingEventRow → Bool
is_event provider event r = r.provider == provider && r.provider_event_id == event

unfoldable pub get_billing_event : ℕ → ℕ → List BillingEventRow → Option BillingEventRow
get_billing_event provider event t = find_where (is_event provider event) t

-- result IN ('processed','ignored')
abbrev pub is_settled : BillingEventResult → Bool
is_settled processed = true
is_settled ignored = true
is_settled _ = false

abbrev pub reopened : BillingEventRow → BillingEventRow
reopened r = record r { result = processing; processed_at = none }

abbrev pub claimed_event : ℕ → ℕ → ℕ → ProviderEvent → BillingEventRow
claimed_event now id provider e = record {
  id = id;
  provider = provider;
  provider_event_id = e.id;
  event_type = e.type;
  user_id = none;
  subscription_id = none;
  result = processing;
  created_at = now;
  processed_at = none;
}

-- A row that is not settled, which may be one that another delivery is processing, is claimed again.
unfoldable pub claim_billing_event :
    ℕ → ℕ → ProviderEvent → PaymentsDb → PaymentsDb × Option BillingEventRow
claim_billing_event now provider e db =
    let new = claimed_event now db.next_id provider e in
    elim (get_billing_event provider e.id db.billing_events) [
      | none ↦ (
        record db { billing_events = insert_row new db.billing_events; next_id = db.next_id + 1 },
        some new,
      )
      | some r ↦ if is_settled r.result then (db, none) else (
        record db { billing_events = update_where (λ x. x.id == r.id) reopened db.billing_events },
        some (reopened r),
      )
    ]

abbrev pub or_kept : Option ℕ → Option ℕ → Option ℕ
or_kept (some x) old = some x
or_kept none old = old

abbrev pub finished :
    ℕ → BillingEventResult → Option ℕ → Option ℕ → BillingEventRow → BillingEventRow
finished now result user subscription r = record r {
  result = result;
  processed_at = some now;
  user_id = or_kept user r.user_id;
  subscription_id = or_kept subscription r.subscription_id;
}

unfoldable pub finish_billing_event :
    ℕ → ℕ → BillingEventResult → Option ℕ → Option ℕ → PaymentsDb → PaymentsDb
finish_billing_event now id result user subscription db = record db {
  billing_events =
      update_where (λ r. r.id == id) (finished now result user subscription) db.billing_events;
}

unfoldable pub delete_old_billing_events : ℕ → PaymentsDb → PaymentsDb
delete_old_billing_events before db = record db {
  billing_events =
      delete_where (λ r. ltb r.created_at before && is_settled r.result) db.billing_events;
}

abbrev pub is_checkout : ℕ → ℕ → CheckoutSessionRow → Bool
is_checkout provider session r = r.provider == provider && r.provider_session_id == session

unfoldable pub get_checkout_record : ℕ → ℕ → List CheckoutSessionRow → Option CheckoutSessionRow
get_checkout_record provider session t = find_where (is_checkout provider session) t

unfoldable pub update_checkout_status :
    ℕ → ℕ → ℕ → CheckoutStatus → List CheckoutSessionRow → List CheckoutSessionRow
update_checkout_status now provider session status t =
    update_where (is_checkout provider session)
      (λ r. record r { status = status; updated_at = now }) t

-- INSERT … ON CONFLICT(provider, provider_session_id) DO UPDATE SET updated_at
unfoldable pub create_checkout_record :
    ℕ → ℕ → ℕ → ℕ → ℕ → PlanId → List CheckoutSessionRow → List CheckoutSessionRow
create_checkout_record now id user provider session plan t =
    if is_some (get_checkout_record provider session t)
    then update_where (is_checkout provider session) (λ r. record r { updated_at = now }) t
    else insert_row
        (record {
          id = id;
          user_id = user;
          provider = provider;
          provider_session_id = session;
          plan_id = plan;
          status = unfinished;
          created_at = now;
          updated_at = now;
        })
        t

abbrev pub is_unfinished : CheckoutStatus → Bool
is_unfinished unfinished = true
is_unfinished _ = false

unfoldable pub expire_stale_checkouts : ℕ → ℕ → List CheckoutSessionRow → List CheckoutSessionRow
expire_stale_checkouts now before t =
    update_where (λ r. is_unfinished r.status && ltb r.created_at before)
      (λ r. record r { status = lapsed; updated_at = now }) t

unfoldable pub delete_old_checkouts : ℕ → List CheckoutSessionRow → List CheckoutSessionRow
delete_old_checkouts before t =
    delete_where (λ r. ltb r.created_at before && not (is_unfinished r.status)) t

abbrev pub is_payment : ℕ → ℕ → BillingPaymentRow → Bool
is_payment provider payment r = r.provider == provider && r.provider_payment_id == payment

-- The row is written, with its identifier, where there is none of its provider and payment.
unfoldable pub record_payment_if_new :
    BillingPaymentRow → List BillingPaymentRow → List BillingPaymentRow × Bool
record_payment_if_new p t =
    if is_some (find_where (is_payment p.provider p.provider_payment_id) t)
    then (t, false)
    else (insert_row p t, true)

unfoldable pub delete_old_billing_payments : ℕ → List BillingPaymentRow → List BillingPaymentRow
delete_old_billing_payments before t = delete_where (λ r. ltb r.created_at before) t
