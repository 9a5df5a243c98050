-- ===== src/Billing/Reservations.antt =====
-- The quota of a period over histories of reservations (lib/db/repositories/quota.ts).
use mathlib.Core.Path.{subst}
use extension_lab.Common.{
  All, Bool, Bool-cases, List, Option, Option-cases, [], arith, false, inl, inr, none, refl, true,
  ℕ, ◌<◌, ◌==◌, ◌∙◌, ◌∷◌, ◌≡◌, ◌≤◌,
}
use extension_lab.Billing.Effective.{UsagePeriod}
use extension_lab.Billing.Entitlements.{
  BillingConfig, BillingDb, QuotaReservationRow, get_quota_usage, is_reserved, is_settled_none,
  is_used, within_period,
}
use extension_lab.Billing.Plans.{UsageKind}
use extension_lab.Billing.Quota.{
  consume_reservation, consumed, delete_old_reservations, find_reservation, is_allowed, is_dangling,
  is_old, is_unsettled, new_reservation, release_dangling_reservations, release_reservation,
  released, reservation_verdict, reserve_quota, usage_event,
}
use extension_lab.Billing.QuotaBounds.{allowed-room, checked_kind, units}
use extension_lab.Billing.QuotaHistory.{
  IsWithin, QuotaOp, apply_quota, consume, forget, has_reservation_id, is_stray, kept_or, release,
  reserve, run_quota, same_kind-eq, sweep, the_same,
}
use extension_lab.Billing.Subscriptions.{SubscriptionRow}
use extension_lab.Sql.Defs.{count_where, find_where, insert_row, update_where}
use extension_lab.Sql.Laws.{count_where-insert, count_where-le, count_where-zero}
use extension_lab.Sql.Single.{
  count_where-delete_le, count_where-some, count_where-update_le, count_where-update_one,
  count_where-update_same, find_where-and,
}

module _ (user : ℕ) (kind : UsageKind) (p : UsagePeriod) (limit : ℕ) (db : BillingDb)
    (k : IsWithin user kind p limit db) where
  consume-IsWithin :
      (now event_id id : ℕ)
      → within_period p now ≡ true
      → IsWithin user kind p limit (consume_reservation now event_id id db).0
  unfolding consume_reservation find_reservation units
  consume-IsWithin now event_id id here = elim (Option-cases (find_reservation id db)) [
    | inl e ↦ rw (e, consume_reservation) k
    | inr (r, e) ↦ elim (Bool-cases (is_settled_none r)) [
      | inr h ↦ rw (e, consume_reservation, h) k
      | inl h ↦
          let found =
            find_where-and (has_reservation_id id) is_settled_none db.reservations r e h in
          let few : count_where (is_unsettled id) db.reservations ≤ 1 = omega (
            arith,
            count_where-le (is_unsettled id) (has_reservation_id id) (λ x y. ground arith)
                db.reservations,
            k.unique id,
          ) in
          let one = λ (q : QuotaReservationRow → Bool).
            count_where-update_one q (is_unsettled id) (consumed now) db.reservations r found few in
          let stray : is_stray user kind p r ≡ false = elim (Bool-cases (is_stray user kind p r)) [
            | inl x ↦ absurd (
                omega (
                  arith,
                  count_where-some (is_stray user kind p) (has_reservation_id id) db.reservations r
                      e x,
                  k.no_stray,
                ))
            | inr x ↦ x
          ] in
          rw (e, consume_reservation, h)
            record {
              unique = λ j. ground (arith, one (has_reservation_id j), k.unique j);
              no_stray = ground (arith, one (is_stray user kind p), k.no_stray);
              bounded = ground (
                arith,
                one (is_reserved user kind p),
                count_where-insert (is_used user kind p) (usage_event now event_id r)
                    db.usage_events,
                k.bounded,
              );
            }
    ]
  ]

  -- A release of open reservations: nothing but their settlement changes.
  settled-IsWithin :
      (q : QuotaReservationRow → Bool) (now : ℕ)
      → IsWithin user kind p limit
          (record db { reservations = update_where q (released now) db.reservations })
  unfolding units
  settled-IsWithin q now = record {
    unique = λ j. omega (
      arith,
      count_where-update_same (has_reservation_id j) q (released now) (λ r. refl) db.reservations,
      k.unique j,
    );
    no_stray = omega (
      arith,
      count_where-update_le (is_stray user kind p) q (released now) (λ r h. ground arith)
          db.reservations,
      k.no_stray,
    );
    bounded = omega (
      arith,
      count_where-update_le (is_reserved user kind p) q (released now) (λ r h. ground arith)
          db.reservations,
      k.bounded,
    );
  }

  release-IsWithin : (now id : ℕ) → IsWithin user kind p limit (release_reservation now id db).0
  unfolding release_reservation
  release-IsWithin now id = settled-IsWithin (is_unsettled id) now

  sweep-IsWithin :
      (active : ℕ → Bool) (now older_than : ℕ)
      → IsWithin user kind p limit (release_dangling_reservations active now older_than db).0
  unfolding release_dangling_reservations
  sweep-IsWithin active now older_than = settled-IsWithin (is_dangling active older_than) now

  forget-IsWithin : (before : ℕ) → IsWithin user kind p limit (delete_old_reservations before db).0
  unfolding delete_old_reservations units
  forget-IsWithin before = record {
    unique = λ j. omega (
      arith,
      count_where-delete_le (has_reservation_id j) (is_old before) db.reservations,
      k.unique j,
    );
    no_stray = omega (
      arith,
      count_where-delete_le (is_stray user kind p) (is_old before) db.reservations,
      k.no_stray,
    );
    bounded = omega (
      arith,
      count_where-delete_le (is_reserved user kind p) (is_old before) db.reservations,
      k.bounded,
    );
  }

  fresh_unique :
      (id : ℕ) (r : QuotaReservationRow)
      → r.id ≡ id
      → find_where (has_reservation_id id) db.reservations ≡ none
      → (j : ℕ) → count_where (has_reservation_id j) (insert_row r db.reservations) ≤ 1
  fresh_unique id r at e j =
      let zero_here = count_where-zero (has_reservation_id id) db.reservations e in
      let more = count_where-insert (has_reservation_id j) r db.reservations in
      elim (Bool-cases (id == j)) [
        | inl h ↦
            let z =
              subst (λ i. count_where (has_reservation_id i) db.reservations ≡ 0) (the_same id j h)
                zero_here in
            ground arith
        | inr h ↦ ground (arith, k.unique j)
      ]

  room_at :
      (config : BillingConfig) (now other : ℕ) (asked : UsageKind)
      → is_allowed (reservation_verdict config now other asked db) ≡ true
      → other ≡ user
      → asked ≡ kind
      → checked_kind kind ≡ kind
      → units user kind (get_quota_usage config now user kind db).period db
        < (get_quota_usage config now user kind db).limit
  room_at config now other asked h same_user its_kind own =
      let here =
        subst (λ x. is_allowed (reservation_verdict config now x kind db) ≡ true) same_user
          (subst (λ x. is_allowed (reservation_verdict config now other x db) ≡ true) its_kind h) in
      subst
        (λ x.
          units user x (get_quota_usage config now user x db).period db
          < (get_quota_usage config now user x db).limit)
        own (allowed-room config now user kind db here)

  -- A reservation that is checked against the quota of its own kind.
  reserve-IsWithin :
      (config : BillingConfig) (now id other : ℕ) (asked : UsageKind) (resource job : Option ℕ)
      → within_period p now ≡ true
      → checked_kind kind ≡ kind
      → (get_quota_usage config now user kind db).period ≡ p
      → (get_quota_usage config now user kind db).limit ≤ limit
      → IsWithin user kind p limit
          (kept_or db (reserve_quota config now id other asked resource job db))
  unfolding reserve_quota find_reservation units
  reserve-IsWithin config now id other asked resource job here own same small =
      elim (Bool-cases (is_allowed (reservation_verdict config now other asked db))) [
        | inr h ↦ rw (h, reserve_quota) k
        | inl h ↦ elim (Option-cases (find_where (has_reservation_id id) db.reservations)) [
          | inr (r, e) ↦ rw (h, reserve_quota, e) k
          | inl e ↦
              let r = new_reservation now id other asked resource job in
              let more =
                λ (q : QuotaReservationRow → Bool). count_where-insert q r db.reservations in
              rw (h, reserve_quota, e)
                record {
                  unique = fresh_unique id r refl e;
                  no_stray = ground (arith, more (is_stray user kind p), k.no_stray);
                  bounded = elim (Bool-cases (is_reserved user kind p r)) [
                    | inr away ↦ ground (arith, more (is_reserved user kind p), k.bounded)
                    | inl counts ↦
                        let same_user : other ≡ user = ground arith in
                        let its_kind : asked ≡ kind = same_kind-eq asked kind (ground arith) in
                        let room = room_at config now other asked h same_user its_kind own in
                        ground (arith, more (is_reserved user kind p), same, small, room)
                  ];
                }
        ]
      ]

-- The usage period of a user and the limit of a kind stay the same at every time of the period, as long
-- as the subscriptions do.
abbrev pub IsSteady :
    BillingConfig → ℕ → UsageKind → UsagePeriod → ℕ → List SubscriptionRow → Type 0
IsSteady config user kind p limit subs =
    (now : ℕ) (db : BillingDb)
    → within_period p now ≡ true
    → db.subscriptions ≡ subs
    → ((get_quota_usage config now user kind db).period ≡ p)
      × ((get_quota_usage config now user kind db).limit ≤ limit)

abbrev pub AllWithin : UsagePeriod → List (ℕ × QuotaOp) → Type 0
AllWithin p os = All (λ step. within_period p step.0 ≡ true) os

module _ (config : BillingConfig) (user : ℕ) (kind : UsageKind) (p : UsagePeriod) (limit : ℕ)
    (subs : List SubscriptionRow) (own : checked_kind kind ≡ kind)
    (steady : IsSteady config user kind p limit subs) where
  apply_quota-subscriptions :
      (now : ℕ) (o : QuotaOp) (db : BillingDb)
      → (apply_quota config now o db).subscriptions ≡ db.subscriptions
  unfolding apply_quota reserve_quota consume_reservation release_reservation
      release_dangling_reservations delete_old_reservations
  apply_quota-subscriptions now (reserve id other asked resource job) db = ground arith
  apply_quota-subscriptions now (consume event_id id) db = ground arith
  apply_quota-subscriptions now (release id) db = refl
  apply_quota-subscriptions now (sweep active older_than) db = refl
  apply_quota-subscriptions now (forget before) db = refl

  apply_quota-IsWithin :
      (now : ℕ) (o : QuotaOp) (db : BillingDb)
      → within_period p now ≡ true
      → db.subscriptions ≡ subs
      → IsWithin user kind p limit db
      → IsWithin user kind p limit (apply_quota config now o db)
  unfolding apply_quota
  apply_quota-IsWithin now (reserve id other asked resource job) db here at k =
      let (same, small) = steady now db here at in
      reserve-IsWithin user kind p limit db k config now id other asked resource job here own same
        small
  apply_quota-IsWithin now (consume event_id id) db here at k =
      consume-IsWithin user kind p limit db k now event_id id here
  apply_quota-IsWithin now (release id) db here at k =
      release-IsWithin user kind p limit db k now id
  apply_quota-IsWithin now (sweep active older_than) db here at k =
      sweep-IsWithin user kind p limit db k active now older_than
  apply_quota-IsWithin now (forget before) db here at k =
      forget-IsWithin user kind p limit db k before

  -- The quota of a period holds over any history of it, whatever calls interleave: from tables that are
  -- in order, after any reservations, consumptions, releases and sweeps at times of the period, the
  -- units used and reserved are at most the limit. It is about the kinds whose reservations are checked
  -- against their own quota.
  pub run_quota-IsWithin :
      (os : List (ℕ × QuotaOp)) (db : BillingDb)
      → AllWithin p os
      → db.subscriptions ≡ subs
      → IsWithin user kind p limit db
      → IsWithin user kind p limit (run_quota config os db)
  unfolding run_quota
  run_quota-IsWithin [] db a at k = k
  run_quota-IsWithin ((now, o) ∷ os) db a at k =
      run_quota-IsWithin os (apply_quota config now o db) a.1
        (apply_quota-subscriptions now o db ∙ at) (apply_quota-IsWithin now o db a.0 at k)
