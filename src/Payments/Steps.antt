-- ===== src/Payments/Steps.antt =====
-- Deliveries that overlap (lib/billing/webhooks.ts): the transactions of several in any order, with the sweep
-- of old rows.
use extension_lab.Common.{Bool, List, [], false, not, true, ℕ, ◌==◌, ◌∷◌, ◌≡◌}
use extension_lab.Payments.Applying.{PaymentsConfig}
use extension_lab.Payments.Deliveries.{Delivery, work_off}
use extension_lab.Payments.Ledger.{
  claim_billing_event, delete_old_billing_events, delete_old_billing_payments,
}
use extension_lab.Payments.Rows.{PaymentsDb, ProviderEvent}

-- The steps of deliveries, which may interleave: the claim of an event and the work on a claimed one; and the
-- deletion of old rows.
pub data PaymentsOp : Type 0 where
  take_event : ProviderEvent → PaymentsOp
  work : Delivery → ℕ → PaymentsOp
  purge_payments purge_events : ℕ → PaymentsOp

unfoldable pub apply_payments : PaymentsConfig → ℕ → PaymentsOp → PaymentsDb → PaymentsDb
apply_payments config now (take_event e) db = (claim_billing_event now config.provider e db).0
apply_payments config now (work d claim) db = (work_off config now d claim db).0
apply_payments config now (purge_payments before) db = record db {
  payments = delete_old_billing_payments before db.payments;
}
apply_payments config now (purge_events before) db = delete_old_billing_events before db

unfoldable pub run_payments : PaymentsConfig → List (ℕ × PaymentsOp) → PaymentsDb → PaymentsDb
run_payments config [] db = db
run_payments config ((now, o) ∷ os) db = run_payments config os (apply_payments config now o db)

-- A step that neither works on the claim with this identifier nor deletes events.
abbrev pub spares : ℕ → PaymentsOp → Bool
spares id (work d claim) = not (id == claim)
spares id (purge_events before) = false
spares id _ = true

abbrev pub AllSpare : ℕ → List (ℕ × PaymentsOp) → Type 0
AllSpare id [] = Unit
AllSpare id ((now, o) ∷ os) = (spares id o ≡ true) × AllSpare id os
