-- ===== src/Billing/QuotaHistory.antt =====
-- Histories of reservations (lib/db/repositories/quota.ts), and what is in order in a period.
use extension_lab.Common.{
  Bool, List, Option, [], ap, arith, none, not, refl, some, suc, sym, true, zero, ℕ, ◌&&◌, ◌==◌,
  ◌∙◌, ◌∷◌, ◌≡◌, ◌≤◌,
}
use extension_lab.Billing.Effective.{UsagePeriod}
use extension_lab.Billing.Entitlements.{
  BillingConfig, BillingDb, QuotaReservationRow, is_settled_none, kind_index, same_kind,
  within_period,
}
use extension_lab.Billing.Plans.{UsageKind, ai_request, analysis, interactive_browser, test_run}
use extension_lab.Billing.Quota.{
  consume_reservation, delete_old_reservations, release_dangling_reservations, release_reservation,
  reserve_quota,
}
use extension_lab.Billing.QuotaBounds.{units}
use extension_lab.Sql.Defs.{count_where}

pub data QuotaOp : Type 0 where
  reserve : ℕ → ℕ → UsageKind → Option ℕ → Option ℕ → QuotaOp
  consume : ℕ → ℕ → QuotaOp
  release : ℕ → QuotaOp
  sweep : (ℕ → Bool) → ℕ → QuotaOp
  forget : ℕ → QuotaOp

abbrev pub kept_or : BillingDb → Option BillingDb → BillingDb
kept_or db none = db
kept_or db (some db') = db'

unfoldable pub apply_quota : BillingConfig → ℕ → QuotaOp → BillingDb → BillingDb
apply_quota config now (reserve id user kind resource job) db =
    kept_or db (reserve_quota config now id user kind resource job db)
apply_quota config now (consume event_id id) db = (consume_reservation now event_id id db).0
apply_quota config now (release id) db = (release_reservation now id db).0
apply_quota config now (sweep active older_than) db =
    (release_dangling_reservations active now older_than db).0
apply_quota config now (forget before) db = (delete_old_reservations before db).0

unfoldable pub run_quota : BillingConfig → List (ℕ × QuotaOp) → BillingDb → BillingDb
run_quota config [] db = db
run_quota config ((now, o) ∷ os) db = run_quota config os (apply_quota config now o db)

abbrev pub has_reservation_id : ℕ → QuotaReservationRow → Bool
has_reservation_id id r = r.id == id

-- An open reservation of another period.
abbrev pub is_stray : ℕ → UsageKind → UsagePeriod → QuotaReservationRow → Bool
is_stray user kind p r =
    r.user_id == user
    && same_kind r.kind kind
    && is_settled_none r
    && not (within_period p r.created_at)

-- The reservations of a user and kind are in order in a period: no identifier stands twice, none is
-- open from another period, and the units are within the limit.
pub record IsWithin (user : ℕ) (kind : UsageKind) (p : UsagePeriod) (limit : ℕ) (db : BillingDb)
    : Type 0 where
  pub unique : (id : ℕ) → count_where (has_reservation_id id) db.reservations ≤ 1
  pub no_stray : count_where (is_stray user kind p) db.reservations ≡ 0
  pub bounded : units user kind p db ≤ limit

pub the_same : (m n : ℕ) → (m == n) ≡ true → m ≡ n
the_same m n h = ground arith

kind_at : ℕ → UsageKind
kind_at zero = analysis
kind_at (suc zero) = test_run
kind_at (suc (suc zero)) = ai_request
kind_at _ = interactive_browser

kind_at-kind_index : (k : UsageKind) → kind_at (kind_index k) ≡ k
unfolding kind_at
kind_at-kind_index analysis = refl
kind_at-kind_index test_run = refl
kind_at-kind_index ai_request = refl
kind_at-kind_index interactive_browser = refl

pub same_kind-eq : (a b : UsageKind) → same_kind a b ≡ true → a ≡ b
unfolding same_kind
same_kind-eq a b h =
    sym (kind_at-kind_index a)
    ∙ ap kind_at (the_same (kind_index a) (kind_index b) h)
    ∙ kind_at-kind_index b
