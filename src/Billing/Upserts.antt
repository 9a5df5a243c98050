-- ===== src/Billing/Upserts.antt =====
-- Provider events in any order (upsertSubscription of lib/db/repositories/billing.ts).
use mathlib.Core.Option
use mathlib.Core.Path.{subst}
use extension_lab.Common.{
  Bool, Bool-cases, List, Option, Option-cases, ap, arith, if◌then◌else◌, inl, inr, ltb, none, refl,
  some, sym, ℕ, ◌/◌, ◌<◌, ◌==◌, ◌∙◌, ◌≡◌,
}
use extension_lab.Billing.Plans.{PlanId}
use extension_lab.Billing.Subscriptions.{
  SubscriptionRow, SubscriptionStatus, UpsertSubscriptionInput, get_subscription_by_provider_id,
  is_provided, is_stale, new_subscription, updated_subscription, upsert_subscription,
}
use extension_lab.Sql.Defs.{find_where}
use extension_lab.Sql.Single.{find_where-insert_new, find_where-update_hit}

-- What a provider says of a subscription, as far as it is stored.
pub record ProviderState : Type 0 where
  pub provider_customer_id : ℕ
  pub provider_price_id : Option ℕ
  pub plan_id : PlanId
  pub status : SubscriptionStatus
  pub current_period_start : Option ℕ
  pub current_period_end : Option ℕ
  pub cancel_at_period_end : Bool
  pub cancel_at : Option ℕ
  pub canceled_at : Option ℕ
  pub trial_end : Option ℕ
  pub ended_at : Option ℕ
  pub last_event_at : ℕ

unfoldable pub state_of : SubscriptionRow → ProviderState
state_of r = record {
  provider_customer_id = r.provider_customer_id;
  provider_price_id = r.provider_price_id;
  plan_id = r.plan_id;
  status = r.status;
  current_period_start = r.current_period_start;
  current_period_end = r.current_period_end;
  cancel_at_period_end = r.cancel_at_period_end;
  cancel_at = r.cancel_at;
  canceled_at = r.canceled_at;
  trial_end = r.trial_end;
  ended_at = r.ended_at;
  last_event_at = r.last_event_at;
}

-- What an event says.
unfoldable pub event_state : UpsertSubscriptionInput → ProviderState
event_state i = record {
  provider_customer_id = i.provider_customer_id;
  provider_price_id = i.provider_price_id;
  plan_id = i.plan_id;
  status = i.status;
  current_period_start = i.current_period_start;
  current_period_end = i.current_period_end;
  cancel_at_period_end = i.cancel_at_period_end;
  cancel_at = i.cancel_at;
  canceled_at = i.canceled_at;
  trial_end = i.trial_end;
  ended_at = i.ended_at;
  last_event_at = i.event_at;
}

-- The specification of an upsert: the stored state if its second is after that of the event, and else the event,
-- which may be older by less than a second.
unfoldable pub later_by_second : Option ProviderState → UpsertSubscriptionInput → ProviderState
later_by_second none i = event_state i
later_by_second (some s) i =
    if ltb (i.event_at / 1000) (s.last_event_at / 1000) then s else event_state i

-- The state that is stored for the subscription of a provider.
abbrev pub stored_state : ℕ → ℕ → List SubscriptionRow → Option ProviderState
stored_state provider sub t = Option.map state_of (get_subscription_by_provider_id provider sub t)

-- An upsert stores what the event says, unless the second of the event is before that of the stored state,
-- which then stays: an event of the same second replaces the state, also if it is up to 999 ms older.
pub upsert_subscription-later_by_second :
    (now id : ℕ) (i : UpsertSubscriptionInput) (t : List SubscriptionRow)
    → stored_state i.provider i.provider_subscription_id (upsert_subscription now id i t)
      ≡ some (later_by_second (stored_state i.provider i.provider_subscription_id t) i)
unfolding upsert_subscription get_subscription_by_provider_id later_by_second state_of event_state
upsert_subscription-later_by_second now id i t =
    elim (Option-cases (find_where (is_provided i.provider i.provider_subscription_id) t)) [
      | inl e ↦
          rw (e, upsert_subscription, later_by_second)
            (ap (Option.map state_of) (
              find_where-insert_new (is_provided i.provider i.provider_subscription_id)
                (new_subscription now id i) t e (ground arith)))
      | inr (r, e) ↦ elim (Bool-cases (is_stale i.event_at r)) [
        | inl h ↦ rw (e, upsert_subscription, later_by_second, h) rw e refl
        | inr h ↦
            rw (e, upsert_subscription, later_by_second, h)
              (ap (Option.map state_of) (
                find_where-update_hit (is_provided i.provider i.provider_subscription_id)
                  (λ x. x.id == r.id) (updated_subscription now i) (λ x. refl) t r e
                  (ground arith)))
      ]
    ]

later_by_second-later_by_second :
    (s : Option ProviderState) (a b : UpsertSubscriptionInput)
    → a.event_at / 1000 < b.event_at / 1000
    → later_by_second (some (later_by_second s a)) b
      ≡ later_by_second (some (later_by_second s b)) a
unfolding later_by_second event_state
later_by_second-later_by_second none a b h = ground arith
later_by_second-later_by_second (some s) a b h =
    elim (Bool-cases (ltb (a.event_at / 1000) (s.last_event_at / 1000))) [
      | inl x ↦ elim (Bool-cases (ltb (b.event_at / 1000) (s.last_event_at / 1000))) [
        | inl y ↦ ground arith
        | inr y ↦ ground arith
      ]
      | inr x ↦ elim (Bool-cases (ltb (b.event_at / 1000) (s.last_event_at / 1000))) [
        | inl y ↦ absurd (ground arith)
        | inr y ↦ ground arith
      ]
    ]

-- Two events of one subscription, of different seconds, leave the same state in whichever order they
-- arrive.
upsert_subscription_commutes :
    (now later id other provider sub : ℕ) (a b : UpsertSubscriptionInput) (t : List SubscriptionRow)
    → a.provider ≡ provider
    → a.provider_subscription_id ≡ sub
    → b.provider ≡ provider
    → b.provider_subscription_id ≡ sub
    → a.event_at / 1000 < b.event_at / 1000
    → stored_state provider sub (upsert_subscription later other b (upsert_subscription now id a t))
      ≡ stored_state provider sub
          (upsert_subscription later other a (upsert_subscription now id b t))
upsert_subscription_commutes now later id other provider sub a b t pa sa pb sb h =
    after now later id other a b t pa sa pb sb
    ∙ ap some (later_by_second-later_by_second (stored_state provider sub t) a b h)
    ∙ sym (after now later id other b a t pb sb pa sa)
  where
    one :
        (now id : ℕ) (i : UpsertSubscriptionInput) (t : List SubscriptionRow)
        → i.provider ≡ provider
        → i.provider_subscription_id ≡ sub
        → stored_state provider sub (upsert_subscription now id i t)
          ≡ some (later_by_second (stored_state provider sub t) i)
    one now id i t p s =
        subst
          (λ x.
            stored_state x sub (upsert_subscription now id i t)
            ≡ some (later_by_second (stored_state x sub t) i))
          p
          (subst
            (λ y.
              stored_state i.provider y (upsert_subscription now id i t)
              ≡ some (later_by_second (stored_state i.provider y t) i))
            s (upsert_subscription-later_by_second now id i t))

    after :
        (now later id other : ℕ) (i j : UpsertSubscriptionInput) (t : List SubscriptionRow)
        → i.provider ≡ provider
        → i.provider_subscription_id ≡ sub
        → j.provider ≡ provider
        → j.provider_subscription_id ≡ sub
        → stored_state provider sub
            (upsert_subscription later other j (upsert_subscription now id i t))
          ≡ some (later_by_second (some (later_by_second (stored_state provider sub t) i)) j)
    after now later id other i j t p s p' s' =
        one later other j (upsert_subscription now id i t) p' s'
        ∙ ap (λ x. some (later_by_second x j)) (one now id i t p s)
