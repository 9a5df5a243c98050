-- ===== src/Orgs/Invitations.antt =====
-- The invitations of lib/organizations/service.ts. `address` stands for the trimmed address in lower
-- case, `valid` for its match of EMAIL_PATTERN and its length, and `max_members` for
-- maxMembersFor(organizationId). A timestamp counts as set when it is present: `Date.now()` is not 0.
use extension_lab.Common.{
  Bool, Option, holds, if◌then◌else◌, is_none, is_some, leb, ltb, min, none, not, some, ℕ, ◌&&◌,
  ◌+◌, ◌==◌, ◌||◌,
}
use extension_lab.Orgs.Authorization.{
  Result, conflict, constraint_failed, invalid_input, invitation_expired, invitation_invalid,
  invitation_revoked, not_found, ok, organization_not_found, role_required, seat_limit_reached,
  thrown,
}
use extension_lab.Orgs.Members.{is_manager}
use extension_lab.Orgs.Roles.{OrganizationRole, is_admin, is_assignable_role}
use extension_lab.Orgs.Row.{
  InvitationRow, OrgDb, count_members, get_membership, get_organization_by_id, insert_member,
  invitation_key,
}
use extension_lab.Sql.Defs.{count_where, find_by, find_where, insert_row, update_where}

unfoldable pub get_invitation_by_id : ℕ → OrgDb → Option InvitationRow
get_invitation_by_id id db = find_by invitation_key id db.invitations

unfoldable pub get_invitation_by_token_hash : ℕ → OrgDb → Option InvitationRow
get_invitation_by_token_hash hash db = find_where (λ i. i.token_hash == hash) db.invitations

abbrev pub is_open : InvitationRow → Bool
is_open i = is_none i.accepted_at && is_none i.revoked_at

unfoldable pub open_invitation_for_email : ℕ → ℕ → OrgDb → Bool
open_invitation_for_email org address db =
    ltb 0 (
      count_where (λ i. i.organization_id == org && i.email == address && is_open i) db.invitations)

abbrev pub update_invitation : ℕ → (InvitationRow → InvitationRow) → OrgDb → OrgDb
update_invitation id f db = record db {
  invitations = update_where (λ i. i.id == id) f db.invitations;
}

abbrev pub new_invitation : ℕ → ℕ → ℕ → ℕ → OrganizationRole → ℕ → ℕ → ℕ → InvitationRow
new_invitation now id org address role token_hash invited_by ttl_ms = record {
  id = id;
  organization_id = org;
  email = address;
  role = role;
  token_hash = token_hash;
  invited_by = invited_by;
  expires_at = now + ttl_ms;
  accepted_at = none;
  accepted_by = none;
  revoked_at = none;
  resend_count = 0;
  created_at = now;
  updated_at = now;
}

-- Members are as many as the plan and the seats of the organization allow, or more.
abbrev pub is_full : ℕ → ℕ → ℕ → OrgDb → Bool
is_full org max_members seats db = leb (min max_members seats) (count_members org db)

-- The INSERT, which fails on a broken PRIMARY KEY or UNIQUE (token_hash).
abbrev pub created_invitation : InvitationRow → OrgDb → Result OrgDb
created_invitation i db =
    if is_some (get_invitation_by_id i.id db)
      || is_some (get_invitation_by_token_hash i.token_hash db)
    then thrown constraint_failed
    else ok (record db { invitations = insert_row i db.invitations })

-- `none` for the organization is an exception, and not reached: a member's organization exists.
unfoldable pub invite_member :
    ℕ → ℕ → ℕ → ℕ → ℕ → ℕ → ℕ → Bool → Option OrganizationRole → Option ℕ → ℕ → OrgDb → Result OrgDb
invite_member now ttl_ms id token_hash user org address valid role invited max_members db =
    elim (get_membership org user db) [
      | none ↦ thrown organization_not_found
      | some actor ↦
          if not (is_manager actor.role)
          then thrown role_required
          else if not valid
          then thrown invalid_input
          else elim role [
            | none ↦ thrown invalid_input
            | some r ↦
                if not (is_assignable_role r)
                then thrown invalid_input
                else if is_admin actor.role && is_admin r
                then thrown role_required
                else if holds (λ u. is_some (get_membership org u db)) invited
                then thrown conflict
                else if open_invitation_for_email org address db
                then thrown conflict
                else elim (get_organization_by_id org db) [
                  | none ↦ thrown constraint_failed
                  | some o ↦
                      if is_full org max_members o.seats db
                      then thrown seat_limit_reached
                      else created_invitation
                          (new_invitation now id org address r token_hash user ttl_ms) db
                ]
          ]
    ]

abbrev pub resent : ℕ → ℕ → ℕ → InvitationRow → InvitationRow
resent now token_hash ttl_ms i = record i {
  token_hash = token_hash;
  expires_at = now + ttl_ms;
  resend_count = i.resend_count + 1;
  updated_at = now;
}

unfoldable pub resend_invitation : ℕ → ℕ → ℕ → ℕ → ℕ → ℕ → OrgDb → Result OrgDb
resend_invitation now ttl_ms token_hash user org id db = elim (get_membership org user db) [
  | none ↦ thrown organization_not_found
  | some actor ↦
      if not (is_manager actor.role)
      then thrown role_required
      else elim (get_invitation_by_id id db) [
        | none ↦ thrown not_found
        | some i ↦
            if not (i.organization_id == org)
            then thrown not_found
            else if not (is_open i)
            then thrown conflict
            else if leb 10 i.resend_count
            then thrown conflict
            else ok (update_invitation id (resent now token_hash ttl_ms) db)
      ]
]

abbrev pub revoked : ℕ → InvitationRow → InvitationRow
revoked now i = record i { revoked_at = some now; updated_at = now }

unfoldable pub revoke_invitation : ℕ → ℕ → ℕ → ℕ → OrgDb → Result OrgDb
revoke_invitation now user org id db = elim (get_membership org user db) [
  | none ↦ thrown organization_not_found
  | some actor ↦
      if not (is_manager actor.role)
      then thrown role_required
      else elim (get_invitation_by_id id db) [
        | none ↦ thrown not_found
        | some i ↦
            if not (i.organization_id == org)
            then thrown not_found
            else if is_open i
            then ok (update_invitation id (revoked now) db)
            else ok db
      ]
]

abbrev pub accepted : ℕ → ℕ → InvitationRow → InvitationRow
accepted now user i = record i { accepted_at = some now; accepted_by = some user; updated_at = now }

abbrev pub joined : Option OrgDb → Result OrgDb
joined none = thrown constraint_failed
joined (some db) = ok db

unfoldable pub accept_invitation : ℕ → ℕ → ℕ → ℕ → ℕ → ℕ → OrgDb → Result OrgDb
accept_invitation now member_id user address hash max_members db =
    elim (get_invitation_by_token_hash hash db) [
      | none ↦ thrown invitation_invalid
      | some i ↦
          if is_some i.revoked_at
          then thrown invitation_revoked
          else if is_some i.accepted_at
          then thrown invitation_invalid
          else if ltb i.expires_at now
          then thrown invitation_expired
          else if not (i.email == address)
          then thrown invitation_invalid
          else elim (get_organization_by_id i.organization_id db) [
            | none ↦ thrown invitation_invalid
            | some o ↦
                if is_some (get_membership i.organization_id user db)
                then thrown conflict
                else if is_full i.organization_id max_members o.seats db
                then thrown seat_limit_reached
                else joined (
                    insert_member now member_id i.organization_id user i.role
                      (update_invitation i.id (accepted now user) db))
          ]
    ]
