-- ===== src/Idempotency/Model.antt =====
-- withIdempotency of lib/idempotency/service.ts, as the statements that it makes: it looks the key up, may
-- drop a record, opens one of its own, and closes it by a response or by a failure. Requests of other
-- processes come in between. A hash and the text of a body are compared for equality alone.
use extension_lab.Common.{
  Bool, List, Option, [], coalesce, false, if◌then◌else◌, is_some, ltb, none, not, same_text, some,
  take, trim, true, ℕ, ◌&&◌, ◌*◌, ◌+◌, ◌==◌, ◌||◌, ◌∷◌,
}
use extension_lab.Sql.Defs.{count_where, delete_where, find_where, insert_row, update_where}

pub record IdempotencyOwner : Type 0 where
  pub is_organization : Bool
  pub id : ℕ

pub data RecordStatus : Type 0 where
  in_flight settled : RecordStatus

pub record RecordRow : Type 0 where
  pub id : ℕ
  pub owner : IdempotencyOwner
  pub idempotency_key : List ℕ
  pub endpoint : List ℕ
  pub request_hash : ℕ
  pub status : RecordStatus
  pub response_status : Option ℕ
  pub response_json : Option ℕ
  pub created_at : ℕ
  pub completed_at : Option ℕ
  pub expires_at : ℕ

pub record StoredResponse : Type 0 where
  pub status : ℕ
  pub body : ℕ

abbrev pub in_flight_timeout_ms : ℕ
in_flight_timeout_ms = 5 * 60 * 1000

abbrev pub retention_ms : ℕ
retention_ms = 24 * 60 * 60 * 1000

abbrev pub is_in_flight : RecordStatus → Bool
is_in_flight in_flight = true
is_in_flight settled = false

abbrev same_flag : Bool → Bool → Bool
same_flag true b = b
same_flag false b = not b

abbrev same_owner : IdempotencyOwner → IdempotencyOwner → Bool
same_owner a b = same_flag a.is_organization b.is_organization && a.id == b.id

unfoldable pub is_keyed : IdempotencyOwner → List ℕ → RecordRow → Bool
is_keyed owner key r = same_owner r.owner owner && same_text r.idempotency_key key

unfoldable pub get_record : IdempotencyOwner → List ℕ → List RecordRow → Option RecordRow
get_record owner key t = find_where (is_keyed owner key) t

-- key.trim().slice(0, 180); `none` for no key or an empty one.
abbrev cut_key : List ℕ → Option (List ℕ)
cut_key [] = none
cut_key (c ∷ cs) = some (take 180 (c ∷ cs))

unfoldable pub normalized : Option (List ℕ) → Option (List ℕ)
normalized none = none
normalized (some key) = cut_key (trim key)

-- What the lookup decides: go on at once, go on after dropping a record, answer with the stored response,
-- or refuse.
pub data Decision : Type 0 where
  proceed : Decision
  replace : ℕ → Decision
  replay : StoredResponse → Decision
  key_conflict in_progress : Decision

abbrev completed_response : RecordRow → Option StoredResponse
completed_response r = elim r.response_json [
  | none ↦ none
  | some body ↦
      if is_in_flight r.status
      then none
      else some (record { status = coalesce r.response_status 200; body = body })
]

-- The branches for a record that was found. `created_at > now - IN_FLIGHT_TIMEOUT_MS` is written with
-- the subtraction carried over.
abbrev pub decide_on : ℕ → ℕ → RecordRow → Decision
decide_on now hash r =
    if ltb r.expires_at now
    then replace r.id
    else if not (r.request_hash == hash)
    then key_conflict
    else elim (completed_response r) [
      | some response ↦ replay response
      | none ↦
          if is_in_flight r.status && ltb now (r.created_at + in_flight_timeout_ms)
          then in_progress
          else replace r.id
    ]

unfoldable pub look_up : ℕ → IdempotencyOwner → List ℕ → ℕ → List RecordRow → Decision
look_up now owner key hash t = elim (get_record owner key t) [
  | none ↦ proceed
  | some r ↦ decide_on now hash r
]

unfoldable pub drop_record : ℕ → List RecordRow → List RecordRow
drop_record id t = delete_where (λ r. r.id == id) t

abbrev pub opened_record : ℕ → ℕ → IdempotencyOwner → List ℕ → List ℕ → ℕ → RecordRow
opened_record now id owner key endpoint hash = record {
  id = id;
  owner = owner;
  idempotency_key = key;
  endpoint = take 120 endpoint;
  request_hash = hash;
  status = in_flight;
  response_status = none;
  response_json = none;
  created_at = now;
  completed_at = none;
  expires_at = now + retention_ms;
}

-- `none` is the exception of UNIQUE (owner_type, owner_id, idempotency_key) or of the PRIMARY KEY.
unfoldable pub open_record :
    ℕ → ℕ → IdempotencyOwner → List ℕ → List ℕ → ℕ → List RecordRow → Option (List RecordRow)
open_record now id owner key endpoint hash t =
    if is_some (get_record owner key t) || is_some (find_where (λ r. r.id == id) t)
    then none
    else some (insert_row (opened_record now id owner key endpoint hash) t)

abbrev pub completed_record : ℕ → StoredResponse → RecordRow → RecordRow
completed_record now response r = record r {
  status = settled;
  response_status = some response.status;
  response_json = some response.body;
  completed_at = some now;
}

unfoldable pub complete_record : ℕ → ℕ → StoredResponse → List RecordRow → List RecordRow
complete_record now id response t = update_where (λ r. r.id == id) (completed_record now response) t

unfoldable pub delete_expired_idempotency_records : ℕ → List RecordRow → List RecordRow × ℕ
delete_expired_idempotency_records now t =
    (delete_where (λ r. ltb r.expires_at now) t, count_where (λ r. ltb r.expires_at now) t)
