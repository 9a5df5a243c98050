-- ===== src/Interactive/Created.antt =====
-- What createInteractiveSession of lib/interactive/service.ts promise.
use extension_lab.Common.{
  List, Option, Option-cases, String, [], ap, arith, coalesce, inl, inr, max, negsuc, none, pos,
  refl, some, ℕ, ◌*◌, ◌+◌, ◌==◌, ◌∙◌, ◌∷◌, ◌≡◌, ◌≤◌, ◌⊎◌,
}
use extension_lab.Billing.Entitlements.{BillingConfig, BillingDb, QuotaReservationRow}
use extension_lab.Billing.Plans.{interactive_browser}
use extension_lab.Billing.Quota.{find_reservation, new_reservation, reserve_quota}
use extension_lab.Interactive.Starting.{
  CreateSessionInput, Dimension, InteractiveConfig, create_in_transaction,
  create_interactive_session, fractional, get_owned_package, initial_url_of, max_minutes, safe_url,
  session_input, validate_viewport, whole, within_bounds,
}
use extension_lab.Interactive.World.{AppError, PackageRow, Result, World, log_event, ok, thrown}
use extension_lab.Sessions.Row.{SessionRow, created, find_session, session_key}
use extension_lab.Sessions.Updates.{NewSession, insert_session, new_session}
use extension_lab.Sql.Defs.{find_where, insert_row}
use extension_lab.Sql.Laws.{find_by-insert}
use extension_lab.Sql.Single.{find_where-insert_new}

Result-cases {ℓ} :
    {A : Type ℓ} (m : Result A) → ((e : AppError) × (m ≡ thrown e)) ⊎ ((a : A) × (m ≡ ok a))
Result-cases (ok a) = inr (a, refl)
Result-cases (thrown e) = inl (e, refl)

safe_url-none : (value : List ℕ) (url : Option String) → safe_url value ≡ ok url → url ≡ none
unfolding safe_url
safe_url-none value url h = ground arith

initial_url_of-none :
    (value : Option (List ℕ)) (url : Option String) → initial_url_of value ≡ ok url → url ≡ none
unfolding initial_url_of
initial_url_of-none none url h = cc
initial_url_of-none (some []) url h = cc
initial_url_of-none (some (c ∷ cs)) url h = safe_url-none (c ∷ cs) url h

within_bounds_lem :
    (low high : ℕ) (d : Dimension) (n : ℕ)
    → within_bounds low high d ≡ some n
    → (low ≤ n) × (n ≤ high)
unfolding within_bounds
within_bounds_lem low high fractional n h = absurd (ground arith)
within_bounds_lem low high (whole (negsuc m)) n h = absurd (ground arith)
within_bounds_lem low high (whole (pos m)) n h = (ground arith, ground arith)

-- The row is of this user, new, without an initial URL, of a size within the bounds, and ends in time.
pub record IsCreated (config : InteractiveConfig) (now user : ℕ) (r : SessionRow) : Type 0 where
  pub owned : r.user_id ≡ user
  pub fresh : r.status ≡ created
  pub blank : r.initial_url ≡ none
  pub wide :
      (config.viewport_min_width ≤ r.viewport_width)
      × (r.viewport_width ≤ config.viewport_max_width)
  pub tall :
      (config.viewport_min_height ≤ r.viewport_height)
      × (r.viewport_height ≤ config.viewport_max_height)
  pub ending : r.expires_at ≤ now + max 1 config.max_session_minutes * 60000

abbrev pub Backed : World → ℕ → ℕ → Type 0
Backed w session reservation =
    (q : QuotaReservationRow) × (find_reservation reservation w.billing ≡ some q)
    × (q.resource_id ≡ some session)
    × (q.consumed_at ≡ none)
    × (q.released_at ≡ none)

reserved_shape :
    (billing : BillingConfig) (now id user : ℕ) (resource job : Option ℕ) (db db' : BillingDb)
    → reserve_quota billing now id user interactive_browser resource job db ≡ some db'
    → find_reservation id db' ≡ some (new_reservation now id user interactive_browser resource job)
unfolding reserve_quota find_reservation
reserved_shape billing now id user resource job db db' h =
    let fresh : find_where (λ r. r.id == id) db.reservations ≡ none = ground arith in
    let new = new_reservation now id user interactive_browser resource job in
    let shape : db' ≡ record db { reservations = insert_row new db.reservations } = ground arith in
    ground (arith, find_where-insert_new (λ r. r.id == id) new db.reservations fresh (ground arith))

inserted_shape :
    (now id : ℕ) (input : NewSession) (t t' : List SessionRow) (row : SessionRow)
    → insert_session now id input t ≡ some (row, t')
    → (row ≡ new_session now id input) × (find_session id t' ≡ some row)
unfolding insert_session
inserted_shape now id input t t' row h =
    let new : row ≡ new_session now id input = ground arith in
    let fresh : find_session id t ≡ none = ground arith in
    (new, ground (arith, find_by-insert session_key (new_session now id input) id t))

module _ (billing : BillingConfig) (now user : ℕ) (session_of : ℕ → NewSession) (w : World) where
  transaction_lem :
      (w' : World) (row : SessionRow)
      → create_in_transaction billing now user session_of w ≡ ok (w', row)
      → (row ≡ new_session now w.next_id (session_of (w.next_id + 1)))
        × (find_session row.id w'.sessions ≡ some row)
        × Backed w' row.id (w.next_id + 1)
  unfolding create_in_transaction log_event
  transaction_lem w' row h =
      let id = w.next_id in
      elim (Option-cases
        (reserve_quota billing now (id + 1) user interactive_browser (some id) none w.billing)) [
          | inl e ↦ absurd (ground arith)
          | inr (db, e) ↦
              elim (Option-cases (insert_session now id (session_of (id + 1)) w.sessions)) [
                | inl f ↦ absurd (ground arith)
                | inr ((r, t), f) ↦
                    let kept =
                      reserved_shape billing now (id + 1) user (some id) none w.billing db e in
                    let (new, found) =
                      inserted_shape now id (session_of (id + 1)) w.sessions t r f in
                    let same : r ≡ row = ground arith in
                    let tables : w'.sessions ≡ t = ground arith in
                    let books : w'.billing ≡ db = ground arith in
                    let own : row.id ≡ id = ground arith in
                    (
                      ground arith,
                      rw (tables, own) (ground arith),
                      (
                        new_reservation now (id + 1) user interactive_browser (some id) none,
                        rw books kept,
                        ground arith,
                        refl,
                        refl,
                      ),
                    )
              ]
        ]

validate_viewport_lem :
    (config : InteractiveConfig) (width height : Dimension) (size : ℕ × ℕ)
    → validate_viewport config width height ≡ some size
    → ((config.viewport_min_width ≤ size.0) × (size.0 ≤ config.viewport_max_width))
      × ((config.viewport_min_height ≤ size.1) × (size.1 ≤ config.viewport_max_height))
unfolding validate_viewport
validate_viewport_lem config width height (w, h) e =
    elim (Option-cases (within_bounds config.viewport_min_width config.viewport_max_width width)) [
      | inl a ↦ absurd (ground arith)
      | inr (w', a) ↦
          elim (Option-cases
            (within_bounds config.viewport_min_height config.viewport_max_height height)) [
              | inl b ↦ absurd (ground arith)
              | inr (h', b) ↦
                  let wide =
                    within_bounds_lem config.viewport_min_width config.viewport_max_width width w'
                      a in
                  let tall =
                    within_bounds_lem config.viewport_min_height config.viewport_max_height height
                      h' b in
                  ground (arith, wide, tall)
            ]
    ]

max_minutes-le :
    (config : InteractiveConfig) (billing : BillingConfig) (now user : ℕ) (db : BillingDb)
    → max_minutes config billing now user db ≤ max 1 config.max_session_minutes
unfolding max_minutes
max_minutes-le config billing now user db = ground arith

module _ (config : InteractiveConfig) (billing : BillingConfig) (now user : ℕ) (info : String)
    (input : CreateSessionInput) (w w' : World) (row : SessionRow)
    (made : create_interactive_session config billing now user info input w ≡ ok (w', row)) where
  abbrev ends : ℕ
  ends = now + max_minutes config billing now user w.billing * 60000

  -- The checks that a creation passed, and the transaction that made it.
  passed_checks :
      (pkg : PackageRow) × (url : Option String) × (size : ℕ × ℕ) × (initial_url_of
          input.initial_url
        ≡ ok url)
      × (validate_viewport config
            (coalesce input.viewport_width (whole (pos 1280)))
            (coalesce input.viewport_height (whole (pos 800)))
          ≡ some size)
      × (create_in_transaction billing now user
            (λ r. session_input input user pkg url size info r ends)
            w
          ≡ ok (w', row))
  unfolding create_interactive_session
  passed_checks =
      let width = coalesce input.viewport_width (whole (pos 1280)) in
      let height = coalesce input.viewport_height (whole (pos 800)) in
      elim (Option-cases (get_owned_package user input.package_id w.packages)) [
        | inl e1 ↦ absurd (ground arith)
        | inr (pkg, e1) ↦ elim (Result-cases (initial_url_of input.initial_url)) [
          | inl (x, e2) ↦ absurd (ground arith)
          | inr (url, e2) ↦ elim (Option-cases (validate_viewport config width height)) [
            | inl e3 ↦ absurd (ground arith)
            | inr (size, e3) ↦ (pkg, url, size, e2, e3, ground arith)
          ]
        ]
      ]

  -- A session that was created is of its user, new, without an initial URL whatever was asked for, of a
  -- size within the bounds of the deployment, and ends within its maximum of minutes, or one; it is found
  -- under its identifier, and there is an open reservation of quota for it, which it names.
  pub create_interactive_session_lem :
      IsCreated config now user row
      × (find_session row.id w'.sessions ≡ some row)
      × (row.quota_reservation_id ≡ some (w.next_id + 1))
      × Backed w' row.id (w.next_id + 1)
  create_interactive_session_lem =
      let (pkg, url, size, url_is, size_is, inserted) = passed_checks in
      let (new, found, backed) =
        transaction_lem billing now user (λ r. session_input input user pkg url size info r ends) w
          w' row inserted in
      let fits =
        validate_viewport_lem config (coalesce input.viewport_width (whole (pos 1280)))
          (coalesce input.viewport_height (whole (pos 800))) size size_is in
      (
        record {
          owned = ap (λ r. r.user_id) new;
          fresh = ap (λ r. r.status) new;
          blank = ap (λ r. r.initial_url) new ∙ initial_url_of-none input.initial_url url url_is;
          wide = rw new fits.0;
          tall = rw new fits.1;
          ending = rw new (omega (arith, max_minutes-le config billing now user w.billing));
        },
        found,
        ap (λ r. r.quota_reservation_id) new,
        backed,
      )
