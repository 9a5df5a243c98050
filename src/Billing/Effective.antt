-- ===== src/Billing/Effective.antt =====
-- The effective plan and the usage period (lib/billing/entitlements.ts). The days of grace are those of
-- getConfig().billing.pastDueGraceDays; a stored plan is one of the three.
use extension_lab.Common.{
  Bool, Option, coalesce, false, holds, if◌then◌else◌, leb, ltb, max, none, some, true, ℕ, ◌&&◌,
  ◌*◌, ◌+◌,
}
use extension_lab.Billing.Plans.{Plan, PlanCatalog, PlanId, plan_of}
use extension_lab.Billing.Subscriptions.{
  SubscriptionRow, SubscriptionStatus, canceled, incomplete, incomplete_expired, past_due, paused,
  subscribed, trialing, unpaid,
}

pub data BillingStateKind : Type 0 where
  on_free on_active on_trialing past_due_grace on_past_due : BillingStateKind
  cancel_scheduled cancelled expired on_incomplete on_paused : BillingStateKind

pub record EffectivePlan : Type 0 where
  pub plan : Plan
  pub subscribed_plan_id : Option PlanId
  pub state : BillingStateKind
  pub subscription : Option SubscriptionRow
  pub paid : Bool
  pub paid_until : Option ℕ
  pub grace_until : Option ℕ

abbrev pub day : ℕ
day = 86400000

-- Paid entitlements of the subscribed plan.
abbrev granted :
    PlanCatalog → SubscriptionRow → BillingStateKind → Option ℕ → Option ℕ → EffectivePlan
granted c row state until grace = record {
  plan = plan_of c row.plan_id;
  subscribed_plan_id = some row.plan_id;
  state = state;
  subscription = some row;
  paid = true;
  paid_until = until;
  grace_until = grace;
}

-- The Free plan for a subscription that grants nothing.
abbrev lapsed : PlanCatalog → SubscriptionRow → BillingStateKind → Option ℕ → EffectivePlan
lapsed c row state grace = record {
  plan = c.free_plan;
  subscribed_plan_id = some row.plan_id;
  state = state;
  subscription = some row;
  paid = false;
  paid_until = none;
  grace_until = grace;
}

-- `until !== null && until <= now`
abbrev pub is_over : ℕ → Option ℕ → Bool
is_over now until = holds (λ u. leb u now) until

abbrev or_other : Option ℕ → Option ℕ → Option ℕ
or_other (some x) y = some x
or_other none y = y

abbrev renewed_late : PlanCatalog → ℕ → ℕ → SubscriptionRow → EffectivePlan
renewed_late c grace_days now row =
    let until = coalesce row.current_period_end now + grace_days * day in
    if ltb now until
    then granted c row past_due_grace (some until) (some until)
    else lapsed c row expired none

abbrev resolve_active : PlanCatalog → ℕ → ℕ → SubscriptionRow → EffectivePlan
resolve_active c grace_days now row =
    let until = or_other row.cancel_at row.current_period_end in
    if row.cancel_at_period_end
    then (if is_over now until
        then lapsed c row cancelled none
        else granted c row cancel_scheduled until none)
    else if is_over now row.current_period_end
    then renewed_late c grace_days now row
    else granted c row on_active row.current_period_end none

abbrev resolve_trialing : PlanCatalog → ℕ → SubscriptionRow → EffectivePlan
resolve_trialing c now row =
    let until = or_other row.trial_end row.current_period_end in
    if is_over now until
    then lapsed c row expired none
    else granted c row (if row.cancel_at_period_end then cancel_scheduled else on_trialing) until
        none

abbrev resolve_past_due : PlanCatalog → ℕ → ℕ → SubscriptionRow → EffectivePlan
resolve_past_due c grace_days now row =
    let until = coalesce row.current_period_end row.updated_at + grace_days * day in
    if ltb now until
    then granted c row past_due_grace (some until) (some until)
    else lapsed c row on_past_due (some until)

-- The `switch` on the status.
unfoldable pub resolve_status :
    PlanCatalog → ℕ → ℕ → SubscriptionRow → SubscriptionStatus → EffectivePlan
resolve_status c grace_days now row subscribed = resolve_active c grace_days now row
resolve_status c grace_days now row trialing = resolve_trialing c now row
resolve_status c grace_days now row past_due = resolve_past_due c grace_days now row
resolve_status c grace_days now row canceled = lapsed c row cancelled none
resolve_status c grace_days now row incomplete = lapsed c row on_incomplete none
resolve_status c grace_days now row incomplete_expired = lapsed c row expired none
resolve_status c grace_days now row unpaid = lapsed c row expired none
resolve_status c grace_days now row paused = lapsed c row on_paused none

unfoldable pub resolve_effective_plan : PlanCatalog → ℕ → ℕ → Option SubscriptionRow → EffectivePlan
resolve_effective_plan c grace_days now none = record {
  plan = c.free_plan;
  subscribed_plan_id = none;
  state = on_free;
  subscription = none;
  paid = false;
  paid_until = none;
  grace_until = none;
}
resolve_effective_plan c grace_days now (some row) = resolve_status c grace_days now row row.status

pub data PeriodSource : Type 0 where
  calendar of_subscription : PeriodSource

pub record UsagePeriod : Type 0 where
  pub start : ℕ
  pub end : ℕ
  pub source : PeriodSource

-- calendarMonth, in the local time zone: the first instants of this month and the next.
abbrev pub calendar_month : (ℕ → ℕ × ℕ) → ℕ → UsagePeriod
calendar_month month now = record { start = (month now).0; end = (month now).1; source = calendar }

-- The period of a paid subscription with both ends known, else the calendar month.
abbrev billed_period : ℕ → UsagePeriod → Option ℕ → Option ℕ → UsagePeriod
billed_period now otherwise (some start) (some end) =
    if leb start now && ltb start end
    then record { start = start; end = max end (now + 1); source = of_subscription }
    else otherwise
billed_period now otherwise _ _ = otherwise

unfoldable pub get_usage_period : (ℕ → ℕ × ℕ) → EffectivePlan → ℕ → UsagePeriod
get_usage_period month effective now = elim effective.subscription [
  | none ↦ calendar_month month now
  | some sub ↦
      if effective.paid
      then billed_period now (calendar_month month now) sub.current_period_start
          sub.current_period_end
      else calendar_month month now
]
