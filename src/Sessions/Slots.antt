-- ===== src/Sessions/Slots.antt =====
-- The limits of claimStartSlot (lib/db/repositories/browser-sessions.ts).
use extension_lab.Common.{
  Bool, List, Option-cases, ap, arith, inl, inr, ltb, none, refl, some, true, ℕ, ◌&&◌, ◌+◌, ◌∙◌,
  ◌≡◌, ◌≤◌, ◌⊎◌,
}
use extension_lab.Sessions.Row.{
  SessionRow, find_session, holds_slot, is_queued, queued, session_key,
}
use extension_lab.Sessions.Updates.{
  SlotLimits, claim_slot_row, claim_start_slot, claimed, has_capacity, of_organization, of_user,
  slots_used, starting_row,
}
use extension_lab.Sql.Defs.{IsKeyed, count_where, update_by}
use extension_lab.Sql.Laws.{
  count_where-except, count_where-update_by, find_by-key, find_by-update_by,
}

abbrev slots_of : (SessionRow → Bool) → SessionRow → Bool
slots_of p r = holds_slot r.status && p r

-- The number of sessions that hold a runtime slot and meet a test.
unfoldable pub slots_held : (SessionRow → Bool) → List SessionRow → ℕ
slots_held p t = count_where (slots_of p) t

-- From one table to the next, one session more that meets the test holds a slot, within a limit.
abbrev pub Fits : List SessionRow → List SessionRow → (SessionRow → Bool) → ℕ → Type 0
Fits t t' p limit = (slots_held p t' ≡ slots_held p t + 1) × (slots_held p t' ≤ limit)

-- What a claim of a start slot that returns a session has done.
pub record SlotClaimed (now : ℕ) (limits : SlotLimits) (t t' : List SessionRow) (row s : SessionRow)
    : Type 0 where
  pub was_queued : row.status ≡ queued
  pub room : has_capacity limits row t ≡ true
  pub started : s ≡ starting_row now row
  pub stored : find_session row.id t' ≡ some s
  pub written : t' ≡ update_by session_key row.id (λ r. is_queued r.status) (starting_row now) t

module _ (now id : ℕ) (limits : SlotLimits) (t t' : List SessionRow) (s : SessionRow)
    (keyed : IsKeyed session_key t)
    (done : claim_start_slot now id limits t ≡ (t', claimed (some s))) where
  claim_slot_row-SlotClaimed :
      (row : SessionRow)
      → find_session row.id t ≡ some row
      → claim_slot_row now limits row t ≡ (t', claimed (some s))
      → SlotClaimed now limits t t' row s
  claim_slot_row-SlotClaimed row here e =
      let found =
        find_by-update_by session_key row.id (λ r. is_queued r.status) (starting_row now)
          (λ r. refl) row.id t in
      record {
        was_queued = ground arith;
        room = ground arith;
        started = ground arith;
        stored = ground arith;
        written = ground arith;
      }

  pub claim_start_slot-inversion :
      (row : SessionRow) × (find_session id t ≡ some row) × SlotClaimed now limits t t' row s
  unfolding claim_start_slot
  claim_start_slot-inversion = elim (Option-cases (find_session id t)) [
    | inl e ↦ absurd (ground arith)
    | inr (row, e) ↦
        let key = find_by-key session_key id t row e in
        (row, e, claim_slot_row-SlotClaimed row (ap (λ i. find_session i t) key ∙ e) (ground arith))
  ]

  fits :
      (p : SessionRow → Bool) (limit : ℕ) (row : SessionRow)
      → find_session row.id t ≡ some row
      → SlotClaimed now limits t t' row s
      → p (starting_row now row) ≡ true
      → ltb (slots_used p row.id t) limit ≡ true
      → Fits t t' p limit
  unfolding slots_held slots_used
  fits p limit row here k counts room =
      let waits : is_queued row.status ≡ true = ap is_queued k.was_queued in
      let held =
        count_where-update_by session_key (slots_of p) (λ r. is_queued r.status) (starting_row now)
          row.id t row keyed here waits in
      let except = count_where-except session_key (slots_of p) row.id t row keyed here in
      let written = ap (count_where (slots_of p)) k.written in ground arith

  -- A start slot is granted only within all three limits: the session was queued, is now starting,
  -- and with it the sessions that hold a slot are at most the global limit, those of its user at
  -- most the user's, and those of its organization at most the organization's.
  pub claim_start_slot_within :
      (row : SessionRow) × (find_session id t ≡ some row)
      × (row.status ≡ queued)
      × (s ≡ starting_row now row)
      × (find_session row.id t' ≡ some s)
      × Fits t t' (λ r. true) limits.global_limit
      × Fits t t' (of_user row.user_id) limits.user_limit
      × ((row.organization_id ≡ none)
          ⊎ ((org : ℕ) × (row.organization_id ≡ some org)
              × Fits t t' (of_organization org) limits.org_limit))
  unfolding has_capacity
  claim_start_slot_within =
      let (row, here, k) = claim_start_slot-inversion in
      let at : find_session row.id t ≡ some row =
        ap (λ i. find_session i t) (find_by-key session_key id t row here) ∙ here in
      let room = k.room in
      (
        row,
        here,
        k.was_queued,
        k.started,
        k.stored,
        fits (λ r. true) limits.global_limit row at k refl (ground arith),
        fits (of_user row.user_id) limits.user_limit row at k (ground arith) (ground arith),
        elim (Option-cases row.organization_id) [
          | inl none_here ↦ inl none_here
          | inr (org, own) ↦ inr (
            org,
            own,
            fits (of_organization org) limits.org_limit row at k (ground arith) (ground arith),
          )
        ],
      )

module _ (now : ℕ) (limits : SlotLimits) (t : List SessionRow) where
  claim_slot_row_shape :
      (row : SessionRow)
      → ((claim_slot_row now limits row t).0 ≡ t)
        ⊎ ((claim_slot_row now limits row t).0
            ≡ update_by session_key row.id (λ r. is_queued r.status) (starting_row now) t)
  claim_slot_row_shape row = ground arith

  -- A claim of a start slot writes nothing, or moves one queued session.
  pub claim_start_slot_shape :
      (id : ℕ)
      → ((claim_start_slot now id limits t).0 ≡ t)
        ⊎ ((row : SessionRow) × ((claim_start_slot now id limits t).0
              ≡ update_by session_key row.id (λ r. is_queued r.status) (starting_row now) t))
  unfolding claim_start_slot
  claim_start_slot_shape id = elim (Option-cases (find_session id t)) [
    | inl e ↦ rw (e, claim_start_slot) (inl refl)
    | inr (row, e) ↦
        rw (e, claim_start_slot)
          (elim (claim_slot_row_shape row) [
            | inl same ↦ inl same
            | inr written ↦ inr (row, written)
          ])
  ]
