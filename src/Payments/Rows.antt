-- ===== src/Payments/Rows.antt =====
-- The rows of lib/db/schema/types.ts on payments, and what a provider reports (lib/billing/types.ts).
-- Identifiers, providers, prices and currencies are compared for equality alone, and are numbers.
use extension_lab.Common.{Bool, List, Option, ℕ}
use extension_lab.Billing.Plans.{PlanId}
use extension_lab.Billing.Subscriptions.{SubscriptionRow, SubscriptionStatus}

pub data BillingEventType : Type 0 where
  checkout_completed subscription_created subscription_updated : BillingEventType
  subscription_deleted invoice_created invoice_paid : BillingEventType
  invoice_payment_failed unknown_event : BillingEventType

pub record ProviderSubscription : Type 0 where
  pub id : ℕ
  pub customer_id : ℕ
  pub status : SubscriptionStatus
  pub price_id : Option ℕ
  pub current_period_start : Option ℕ
  pub current_period_end : Option ℕ
  pub cancel_at_period_end : Bool
  pub cancel_at : Option ℕ
  pub canceled_at : Option ℕ
  pub trial_end : Option ℕ
  pub ended_at : Option ℕ
  pub metadata_user_id : Option ℕ
  pub metadata_plan_id : Option PlanId

pub record ProviderInvoice : Type 0 where
  pub id : ℕ
  pub customer_id : ℕ
  pub subscription_id : Option ℕ
  pub amount_due : ℕ
  pub currency : ℕ
  pub created_at : ℕ

pub data CheckoutStatus : Type 0 where
  unfinished complete lapsed : CheckoutStatus

pub record ProviderCheckoutSession : Type 0 where
  pub id : ℕ
  pub customer_id : Option ℕ
  pub status : CheckoutStatus
  pub metadata_user_id : Option ℕ

pub record ProviderEvent : Type 0 where
  pub id : ℕ
  pub type : BillingEventType
  pub created_at : ℕ
  pub subscription : Option ProviderSubscription
  pub invoice : Option ProviderInvoice
  pub checkout_session : Option ProviderCheckoutSession

pub record BillingCustomerRow : Type 0 where
  pub user_id : ℕ
  pub provider : ℕ
  pub provider_customer_id : ℕ
  pub created_at : ℕ
  pub updated_at : ℕ

pub data BillingEventResult : Type 0 where
  processing processed ignored broken : BillingEventResult

pub record BillingEventRow : Type 0 where
  pub id : ℕ
  pub provider : ℕ
  pub provider_event_id : ℕ
  pub event_type : BillingEventType
  pub user_id : Option ℕ
  pub subscription_id : Option ℕ
  pub result : BillingEventResult
  pub created_at : ℕ
  pub processed_at : Option ℕ

pub record BillingPaymentRow : Type 0 where
  pub id : ℕ
  pub user_id : ℕ
  pub provider : ℕ
  pub provider_payment_id : ℕ
  pub provider_invoice_id : Option ℕ
  pub provider_subscription_id : Option ℕ
  pub plan_id : PlanId
  pub amount : ℕ
  pub currency : ℕ
  pub is_paid : Bool
  pub created_at : ℕ

pub record CheckoutSessionRow : Type 0 where
  pub id : ℕ
  pub user_id : ℕ
  pub provider : ℕ
  pub provider_session_id : ℕ
  pub plan_id : PlanId
  pub status : CheckoutStatus
  pub created_at : ℕ
  pub updated_at : ℕ

-- The tables, and the counter that fresh identifiers are taken from.
pub record PaymentsDb : Type 0 where
  pub customers : List BillingCustomerRow
  pub subscriptions : List SubscriptionRow
  pub billing_events : List BillingEventRow
  pub checkouts : List CheckoutSessionRow
  pub payments : List BillingPaymentRow
  pub next_id : ℕ
