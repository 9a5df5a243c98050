-- ===== src/Idempotency/Tests.antt =====
-- The theorems on idempotent requests at concrete inputs.
use extension_lab.Common.{List, [], arith, if◌then◌else◌, refl, some, true, ℕ, ◌==◌, ◌∷◌, ◌≡◌}
use extension_lab.Idempotency.Model.{
  IdempotencyOwner, RecordRow, StoredResponse, complete_record, get_record, in_progress,
  key_conflict, look_up, open_record, opened_record, replay,
}
use extension_lab.Idempotency.Stability.{
  IdemOp, ask, look_up_excluded, look_up_replays, run_idem, start, sweep,
}
use extension_lab.Sql.Defs.{find_where, insert_row}

abbrev owner : IdempotencyOwner
owner = record { is_organization = true; id = 3 }

abbrev key : List ℕ
key = 107 ∷ 49 ∷ []

abbrev opened : RecordRow
opened = opened_record 1000 40 owner key (47 ∷ []) 77

opens : open_record 1000 40 owner key (47 ∷ []) 77 [] ≡ some (opened ∷ [])
unfolding open_record get_record find_where insert_row
opens = refl

-- Another request of the same key asks and tries to open, and the sweep comes.
abbrev others : List (ℕ × IdemOp)
others = (1500, ask owner key 77) ∷ (1600, start 41 owner key (47 ∷ []) 77) ∷ (1700, sweep) ∷ []

look_up_excluded_example :
    look_up 2000 owner key 77 (run_idem others (opened ∷ []))
    ≡ (if 77 == 77 then in_progress else key_conflict)
look_up_excluded_example =
    look_up_excluded 1000 2000 40 77 owner key (47 ∷ []) [] (opened ∷ []) opens others 77
      (tt, (tt, (omega arith, tt))) (omega arith)

abbrev answer : StoredResponse
answer = record { status = 201; body = 9 }

look_up_replays_example :
    look_up 90000 owner key 77
      (run_idem others (complete_record 3000 40 answer (run_idem others (opened ∷ []))))
    ≡ (if 77 == 77 then replay answer else key_conflict)
look_up_replays_example =
    look_up_replays 1000 90000 40 77 owner key (47 ∷ []) [] (opened ∷ []) opens others others 3000
      77 answer (tt, (tt, (omega arith, tt))) (tt, (tt, (omega arith, tt))) (omega arith)
