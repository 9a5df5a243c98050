-- ===== src/Orgs/Offers.antt =====
-- One owner for every organization, through invitations and over whole histories
-- (lib/organizations/service.ts).
use extension_lab.Common.{
  Bool, Bool-cases, List, Option, Option-cases, [], arith, false, holds, if◌then◌else◌, inl, inr,
  is_some, none, refl, some, true, ℕ, ◌&&◌, ◌==◌, ◌||◌, ◌∙◌, ◌∷◌, ◌≡◌, ◌≤◌, ◌⊎◌,
}
use extension_lab.Orgs.Authorization.{
  AppError, Result, conflict, constraint_failed, ok, role_required, seat_limit_reached, thrown,
}
use extension_lab.Orgs.Founding.{offered-IsOwned}
use extension_lab.Orgs.Governance.{
  change-IsOwned, remove-IsOwned, resend-IsOwned, revoke-IsOwned, transfer-IsOwned,
}
use extension_lab.Orgs.Invitations.{
  accept_invitation, accepted, created_invitation, get_invitation_by_id,
  get_invitation_by_token_hash, invite_member, is_full, new_invitation, open_invitation_for_email,
}
use extension_lab.Orgs.Members.{is_manager}
use extension_lab.Orgs.OrgHistories.{
  OrgOp, accept, after, apply_org, change_role, create-IsOwned, dissolve, dissolve-IsOwned, found,
  invite, leave, leave-IsOwned, no_orgs, remove, rename, rename-IsOwned, resend, revoke, run_orgs,
  transfer,
}
use extension_lab.Orgs.Ownership.{IsOwned, has_id, insert_member-IsOwned, makes_owner, owner_of}
use extension_lab.Orgs.Roles.{OrganizationRole, is_admin, is_assignable_role, is_owner}
use extension_lab.Orgs.Row.{
  InvitationRow, MemberRow, OrgDb, get_membership, get_organization_by_id, member_of, new_member,
}
use extension_lab.Orgs.Seats.{accept_invitation-inversion}
use extension_lab.Sql.Defs.{count_where, find_by, find_where, insert_row, update_where}
use extension_lab.Sql.Laws.{count_where-insert, count_where-zero, find_where-holds, one_if}
use extension_lab.Sql.Single.{count_where-some, count_where-update_same}

Result-cases :
    {A : Type 0} (r : Result A) → ((x : A) × (r ≡ ok x)) ⊎ ((e : AppError) × (r ≡ thrown e))
Result-cases (ok x) = inl (x, refl)
Result-cases (thrown e) = inr (e, refl)

module _ (now : ℕ) (db : OrgDb) (k : IsOwned db) where
  created_invitation-IsOwned :
      (i : InvitationRow) → is_owner i.role ≡ false → IsOwned (after db (created_invitation i db))
  created_invitation-IsOwned i low =
      elim (Bool-cases (
        is_some (get_invitation_by_id i.id db)
        || is_some (get_invitation_by_token_hash i.token_hash db))) [
          | inl h ↦ rw h k
          | inr h ↦ rw h (
              offered-IsOwned db k (insert_row i db.invitations)
                (ground (arith, count_where-insert makes_owner i db.invitations, k.offers)))
        ]

  invite-IsOwned :
      (ttl_ms id hash user org to : ℕ) (valid : Bool) (role : Option OrganizationRole)
      (invited : Option ℕ) (max_members : ℕ)
      → IsOwned (
          after db (invite_member now ttl_ms id hash user org to valid role invited max_members db))
  unfolding invite_member
  invite-IsOwned ttl_ms id hash user org to valid role invited max_members =
      elim (Option-cases (get_membership org user db)) [
        | inl e ↦ rw (e, invite_member) k
        | inr (m, e) ↦ elim (Bool-cases (is_manager m.role)) [
          | inr h ↦ rw (e, invite_member, h) k
          | inl h ↦ elim (Bool-cases valid) [
            | inr v ↦ rw (e, invite_member, h, v) k
            | inl v ↦ elim (Option-cases role) [
              | inl n ↦ rw (e, invite_member, h, v, n) k
              | inr (r, n) ↦ elim (Bool-cases (is_assignable_role r)) [
                | inr b ↦ rw (e, invite_member, h, v, n, b) k
                | inl b ↦ rw (e, invite_member, h, v, n, b) (invited_here m r b)
              ]
            ]
          ]
        ]
      ]
    where
      invited_here :
          (m : MemberRow) (r : OrganizationRole)
          → is_assignable_role r ≡ true
          → IsOwned (
              after db (
                if is_admin m.role && is_admin r
                then thrown role_required
                else if holds (λ u. is_some (get_membership org u db)) invited
                then thrown conflict
                else if open_invitation_for_email org to db
                then thrown conflict
                else elim (get_organization_by_id org db) [
                  | none ↦ thrown constraint_failed
                  | some o ↦
                      if is_full org max_members o.seats db
                      then thrown seat_limit_reached
                      else created_invitation (new_invitation now id org to r hash user ttl_ms) db
                ]))
      invited_here m r low = elim (Bool-cases (is_admin m.role && is_admin r)) [
        | inl a ↦ rw a k
        | inr a ↦ elim (Bool-cases (holds (λ u. is_some (get_membership org u db)) invited)) [
          | inl b ↦ rw (a, b) k
          | inr b ↦ elim (Bool-cases (open_invitation_for_email org to db)) [
            | inl c ↦ rw (a, b, c) k
            | inr c ↦ elim (Option-cases (get_organization_by_id org db)) [
              | inl d ↦ rw (a, b, c, d) k
              | inr (o, d) ↦ elim (Bool-cases (is_full org max_members o.seats db)) [
                | inl f ↦ rw (a, b, c, d, f) k
                | inr f ↦
                    rw (a, b, c, d, f)
                      (created_invitation-IsOwned (new_invitation now id org to r hash user ttl_ms)
                        (ground arith))
              ]
            ]
          ]
        ]
      ]

  accept-IsOwned :
      (member_id user to hash max_members : ℕ)
      → IsOwned (after db (accept_invitation now member_id user to hash max_members db))
  unfolding get_invitation_by_token_hash
  accept-IsOwned member_id user to hash max_members =
      elim (Result-cases (accept_invitation now member_id user to hash max_members db)) [
        | inr (e, h) ↦ rw h k
        | inl (db', h) ↦
            let (i, o, a) =
              accept_invitation-inversion now member_id user to hash max_members db db' h in
            rw (h, a.written)
              (insert_member-IsOwned db k (new_member now member_id i.organization_id user i.role)
                (update_where (λ x. x.id == i.id) (accepted now user) db.invitations) a.outsider
                (no_owner i hash a.offered)
                (count_where-update_same makes_owner (λ x. x.id == i.id) (accepted now user)
                    (λ x. refl) db.invitations
                  ∙ k.offers))
      ]
    where
      no_owner :
          (i : InvitationRow) (hash : ℕ)
          → get_invitation_by_token_hash hash db ≡ some i
          → is_owner i.role ≡ false
      no_owner i hash here = elim (Bool-cases (is_owner i.role)) [
        | inl top ↦ absurd (
            omega (
              arith,
              count_where-some makes_owner (λ x. x.token_hash == hash) db.invitations i here top,
              k.offers,
            ))
        | inr low ↦ low
      ]

  apply_org-IsOwned : (o : OrgOp) → IsOwned (apply_org now o db)
  unfolding apply_org
  apply_org-IsOwned (found same config id member_id user name hint slug) =
      create-IsOwned now db k same config id member_id user name hint slug
  apply_org-IsOwned (rename user org name) = rename-IsOwned now db k user org name
  apply_org-IsOwned (dissolve user org) = dissolve-IsOwned now db k user org
  apply_org-IsOwned (leave user org) = leave-IsOwned now db k user org
  apply_org-IsOwned (change_role user org target role) =
      change-IsOwned now db k user org target role
  apply_org-IsOwned (remove user org target) = remove-IsOwned now db k user org target
  apply_org-IsOwned (transfer user org target) = transfer-IsOwned now db k user org target
  apply_org-IsOwned (invite ttl_ms id hash user org to valid role invited max_members) =
      invite-IsOwned ttl_ms id hash user org to valid role invited max_members
  apply_org-IsOwned (resend ttl_ms hash user org id) =
      resend-IsOwned now db k ttl_ms hash user org id
  apply_org-IsOwned (revoke user org id) = revoke-IsOwned now db k user org id
  apply_org-IsOwned (accept member_id user to hash max_members) =
      accept-IsOwned member_id user to hash max_members

run_orgs-keeps : (os : List (ℕ × OrgOp)) (db : OrgDb) → IsOwned db → IsOwned (run_orgs os db)
unfolding run_orgs
run_orgs-keeps [] db k = k
run_orgs-keeps ((now, o) ∷ os) db k =
    run_orgs-keeps os (apply_org now o db) (apply_org-IsOwned now db k o)

no_orgs-IsOwned : IsOwned no_orgs
unfolding count_where
no_orgs-IsOwned = record {
  memberships = λ a b. omega arith;
  identifiers = λ a. omega arith;
  one_owner = λ a. refl;
  offers = refl;
}

-- After any history of the operations on organizations, members and invitations from an empty
-- database, whoever called them: an organization that exists has exactly one owner among its
-- members, and one that does not exist has none; nobody is twice a member of an organization.
pub run_orgs_owned :
    (os : List (ℕ × OrgOp)) (org user : ℕ)
    → (count_where (owner_of org) (run_orgs os no_orgs).members
        ≡ one_if (is_some (get_organization_by_id org (run_orgs os no_orgs))))
      × (count_where (member_of org user) (run_orgs os no_orgs).members ≤ 1)
unfolding get_organization_by_id find_by
run_orgs_owned os org user =
    let db = run_orgs os no_orgs in
    let k = run_orgs-keeps os no_orgs no_orgs-IsOwned in
    elim (Option-cases (find_where (has_id org) db.organizations)) [
      | inl e ↦ (
        ground (arith, k.one_owner org, count_where-zero (has_id org) db.organizations e),
        k.memberships org user,
      )
      | inr (o, e) ↦ (
        ground (
          arith,
          k.one_owner org,
          k.identifiers org,
          count_where-some (has_id org) (has_id org) db.organizations o e
              (find_where-holds (has_id org) db.organizations o e),
        ),
        k.memberships org user,
      )
    ]
