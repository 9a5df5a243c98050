-- ===== src/Idempotency/Stability.antt =====
-- A stored response stays the answer to its key (lib/idempotency/service.ts).
use extension_lab.Common.{
  All, Bool, Bool-cases, List, Option, Option-cases, [], ap, arith, false, if◌then◌else◌, inl, inr,
  is_some, ltb, none, refl, same_text, some, true, ℕ, ◌+◌, ◌<◌, ◌==◌, ◌||◌, ◌∙◌, ◌∷◌, ◌≡◌, ◌≢◌, ◌≤◌,
}
use extension_lab.Idempotency.Model.{
  IdempotencyOwner, RecordRow, StoredResponse, complete_record, completed_record,
  delete_expired_idempotency_records, drop_record, get_record, in_flight_timeout_ms, in_progress,
  is_keyed, key_conflict, look_up, open_record, opened_record, replay, retention_ms,
}
use extension_lab.Sql.Defs.{delete_where, find_where, insert_row, update_where}
use extension_lab.Sql.Single.{find_where-insert_new, find_where-update_hit}

-- The statements of requests, of whatever processes, and of the retention sweep.
pub data IdemOp : Type 0 where
  ask : IdempotencyOwner → List ℕ → ℕ → IdemOp
  drop : ℕ → IdemOp
  start : ℕ → IdempotencyOwner → List ℕ → List ℕ → ℕ → IdemOp
  finish : ℕ → StoredResponse → IdemOp
  sweep : IdemOp

abbrev started_or : List RecordRow → Option (List RecordRow) → List RecordRow
started_or t none = t
started_or t (some t') = t'

unfoldable pub apply_idem : ℕ → IdemOp → List RecordRow → List RecordRow
apply_idem now (ask owner key hash) t = t
apply_idem now (drop id) t = drop_record id t
apply_idem now (start id owner key endpoint hash) t =
    started_or t (open_record now id owner key endpoint hash t)
apply_idem now (finish id response) t = complete_record now id response t
apply_idem now sweep t = (delete_expired_idempotency_records now t).0

unfoldable pub run_idem : List (ℕ × IdemOp) → List RecordRow → List RecordRow
run_idem [] t = t
run_idem ((now, o) ∷ os) t = run_idem os (apply_idem now o t)

-- A statement leaves a record alone when it neither drops nor finishes it, and the sweep comes in time. The
-- code drops only what a lookup told it to replace, and finishes only what it opened itself.
abbrev pub LeavesAlone : RecordRow → ℕ × IdemOp → Type 0
LeavesAlone r (now, drop id) = r.id ≢ id
LeavesAlone r (now, finish id response) = r.id ≢ id
LeavesAlone r (now, sweep) = now ≤ r.expires_at
LeavesAlone r _ = Unit {0}

kept_by_delete :
    (p q : RecordRow → Bool) (t : List RecordRow) (r : RecordRow)
    → find_where p t ≡ some r
    → q r ≡ false
    → find_where p (delete_where q t) ≡ some r
unfolding find_where delete_where
kept_by_delete p q [] r h e = absurd (ground arith)
kept_by_delete p q (x ∷ t) r h e = ground (arith, kept_by_delete p q t r)

kept_by_update :
    (p q : RecordRow → Bool) (f : RecordRow → RecordRow)
    → ((x : RecordRow) → p (f x) ≡ p x)
    → (t : List RecordRow) (r : RecordRow) → find_where p t ≡ some r
    → q r ≡ false
    → find_where p (update_where q f t) ≡ some r
unfolding find_where update_where
kept_by_update p q f same [] r h e = absurd (ground arith)
kept_by_update p q f same (x ∷ t) r h e = ground (arith, same x, kept_by_update p q f same t r)

kept_by_insert :
    (p : RecordRow → Bool) (t : List RecordRow) (r x : RecordRow)
    → find_where p t ≡ some r
    → find_where p (insert_row x t) ≡ some r
unfolding find_where insert_row
kept_by_insert p [] r x h = absurd (ground arith)
kept_by_insert p (y ∷ t) r x h = ground (arith, kept_by_insert p t r x)

apply_idem-keeps :
    (now : ℕ) (o : IdemOp) (owner : IdempotencyOwner) (key : List ℕ) (t : List RecordRow)
    (r : RecordRow)
    → LeavesAlone r (now, o)
    → get_record owner key t ≡ some r
    → get_record owner key (apply_idem now o t) ≡ some r
unfolding apply_idem get_record drop_record open_record complete_record
    delete_expired_idempotency_records is_keyed
apply_idem-keeps now (ask other k hash) owner key t r a h = h
apply_idem-keeps now (drop id) owner key t r a h =
    kept_by_delete (is_keyed owner key) (λ x. x.id == id) t r h (ground arith)
apply_idem-keeps now (start id other k endpoint hash) owner key t r a h =
    elim (Bool-cases (is_some (get_record other k t) || is_some (find_where (λ x. x.id == id) t))) [
      | inl e ↦ rw (e, open_record) h
      | inr e ↦
          rw (e, open_record)
            (kept_by_insert (is_keyed owner key) t r (opened_record now id other k endpoint hash) h)
    ]
apply_idem-keeps now (finish id response) owner key t r a h =
    kept_by_update (is_keyed owner key) (λ x. x.id == id) (completed_record now response)
      (λ x. refl) t r h (ground arith)
apply_idem-keeps now sweep owner key t r a h =
    kept_by_delete (is_keyed owner key) (λ x. ltb x.expires_at now) t r h (ground arith)

run_idem-keeps :
    (os : List (ℕ × IdemOp)) (owner : IdempotencyOwner) (key : List ℕ) (t : List RecordRow)
    (r : RecordRow)
    → All (LeavesAlone r) os
    → get_record owner key t ≡ some r
    → get_record owner key (run_idem os t) ≡ some r
unfolding run_idem
run_idem-keeps [] owner key t r a h = h
run_idem-keeps ((now, o) ∷ os) owner key t r a h =
    run_idem-keeps os owner key (apply_idem now o t) r a.1
      (apply_idem-keeps now o owner key t r a.0 h)

module _ (now later id hash : ℕ) (owner : IdempotencyOwner) (key endpoint : List ℕ)
    (t t' : List RecordRow) (opened : open_record now id owner key endpoint hash t ≡ some t') where
  same_text_refl : (xs : List ℕ) → same_text xs xs ≡ true
  unfolding same_text
  same_text_refl [] = refl
  same_text_refl (x ∷ xs) = ground (arith, same_text_refl xs)

  here_keyed : is_keyed owner key (opened_record now id owner key endpoint hash) ≡ true
  unfolding is_keyed
  here_keyed = ground (arith, same_text_refl key)

  opened_found : get_record owner key t' ≡ some (opened_record now id owner key endpoint hash)
  unfolding open_record get_record
  opened_found = elim (Option-cases (find_where (is_keyed owner key) t)) [
    | inl e ↦
        let written : t' ≡ insert_row (opened_record now id owner key endpoint hash) t =
          ground arith in
        ap (find_where (is_keyed owner key)) written
        ∙ find_where-insert_new (is_keyed owner key) (opened_record now id owner key endpoint hash)
            t e here_keyed
    | inr (r, e) ↦ absurd (ground arith)
  ]

  -- While a request executes, no other with its key does: from the statement that opened its record on,
  -- through any statements of others that leave the record alone, a lookup of the key in the next five
  -- minutes neither proceeds nor replaces; it says that the request is in progress, or is a conflict when the
  -- request is another one.
  pub look_up_excluded :
      (os : List (ℕ × IdemOp)) (other : ℕ)
      → All (LeavesAlone (opened_record now id owner key endpoint hash)) os
      → later < now + in_flight_timeout_ms
      → look_up later owner key other (run_idem os t')
        ≡ (if hash == other then in_progress else key_conflict)
  unfolding look_up
  look_up_excluded os other a soon =
      let kept =
        run_idem-keeps os owner key t' (opened_record now id owner key endpoint hash) a
          opened_found in
      ground arith

  -- A response is replayed for as long as it is kept: once a request has opened its record and stored its
  -- response, with any statements of others before and after that leave the record alone, a lookup of the key
  -- before the record expires answers with that very response when it is the same request, and with a
  -- conflict when it is another one.
  pub look_up_replays :
      (before rest : List (ℕ × IdemOp)) (at other : ℕ) (response : StoredResponse)
      → All (LeavesAlone (opened_record now id owner key endpoint hash)) before
      → All
          (LeavesAlone
            (completed_record at response (opened_record now id owner key endpoint hash)))
          rest
      → later ≤ now + retention_ms
      → look_up later owner key other
          (run_idem rest (complete_record at id response (run_idem before t')))
        ≡ (if hash == other then replay response else key_conflict)
  unfolding look_up complete_record get_record is_keyed
  look_up_replays before rest at other response a b soon =
      let r = opened_record now id owner key endpoint hash in
      let there = run_idem-keeps before owner key t' r a opened_found in
      let stored =
        find_where-update_hit (is_keyed owner key) (λ x. x.id == id) (completed_record at response)
          (λ x. refl) (run_idem before t') r there (ground arith) in
      let kept =
        run_idem-keeps rest owner key (complete_record at id response (run_idem before t'))
          (completed_record at response r) b stored in
      ground arith
