-- ===== src/Orgs/OrgHistories.antt =====
-- Every operation of lib/organizations/service.ts on members and invitations, and histories of them.
use extension_lab.Common.{
  Bool, Bool-cases, List, Option, Option-cases, String, [], holds, inl, inr, leb, ltb, not, refl,
  trim, ℕ, ◌∷◌,
}
use extension_lab.Orgs.Authorization.{Result, ok, thrown}
use extension_lab.Orgs.Founding.{founded-IsOwned, renamed-IsOwned}
use extension_lab.Orgs.Invitations.{
  accept_invitation, invite_member, resend_invitation, revoke_invitation,
}
use extension_lab.Orgs.Members.{
  OrgConfig, change_member_role, create_organization, delete_organization, is_manager, is_name,
  is_slug, leave_organization, made, remove_organization_member, transfer_ownership,
  update_organization_profile,
}
use extension_lab.Orgs.Ownership.{IsOwned, delete_organization_row-IsOwned, remove_member-IsOwned}
use extension_lab.Orgs.Roles.{OrganizationRole, is_owner, owner}
use extension_lab.Orgs.Row.{
  OrgDb, count_organizations_for_user, create_organization_row, get_membership,
  get_organization_by_id, insert_member, member_of, new_member, new_organization,
}
use extension_lab.Sql.Defs.{count_where, find_where}

-- What a call leaves in the database: a call that throws has written nothing.
abbrev pub after : OrgDb → Result OrgDb → OrgDb
after db (ok db') = db'
after db (thrown e) = db

pub data OrgOp : Type 0 where
  found :
      (List ℕ → List ℕ → Bool) → OrgConfig → ℕ → ℕ → ℕ → List ℕ → Option (List ℕ) → List ℕ → OrgOp
  rename : ℕ → ℕ → Option (List ℕ) → OrgOp
  dissolve : ℕ → ℕ → OrgOp
  leave : ℕ → ℕ → OrgOp
  change_role : ℕ → ℕ → ℕ → Option OrganizationRole → OrgOp
  remove : ℕ → ℕ → ℕ → OrgOp
  transfer : ℕ → ℕ → ℕ → OrgOp
  invite : ℕ → ℕ → ℕ → ℕ → ℕ → ℕ → Bool → Option OrganizationRole → Option ℕ → ℕ → OrgOp
  resend : ℕ → ℕ → ℕ → ℕ → ℕ → OrgOp
  revoke : ℕ → ℕ → ℕ → OrgOp
  accept : ℕ → ℕ → ℕ → ℕ → ℕ → OrgOp

unfoldable pub apply_org : ℕ → OrgOp → OrgDb → OrgDb
apply_org now (found same config id member_id user name hint slug) db =
    after db (create_organization same config now id member_id user name hint slug db)
apply_org now (rename user org name) db =
    after db (update_organization_profile now user org name db)
apply_org now (dissolve user org) db = after db (delete_organization user org db)
apply_org now (leave user org) db = after db (leave_organization user org db)
apply_org now (change_role user org target role) db =
    after db (change_member_role user org target role db)
apply_org now (remove user org target) db = after db (remove_organization_member user org target db)
apply_org now (transfer user org target) db = after db (transfer_ownership now user org target db)
apply_org now (invite ttl_ms id hash user org to valid role invited max_members) db =
    after db (invite_member now ttl_ms id hash user org to valid role invited max_members db)
apply_org now (resend ttl_ms hash user org id) db =
    after db (resend_invitation now ttl_ms hash user org id db)
apply_org now (revoke user org id) db = after db (revoke_invitation now user org id db)
apply_org now (accept member_id user to hash max_members) db =
    after db (accept_invitation now member_id user to hash max_members db)

unfoldable pub run_orgs : List (ℕ × OrgOp) → OrgDb → OrgDb
run_orgs [] db = db
run_orgs ((now, o) ∷ os) db = run_orgs os (apply_org now o db)

abbrev pub no_orgs : OrgDb
no_orgs = record { organizations = []; members = []; invitations = [] }

module _ (now : ℕ) (db : OrgDb) (k : IsOwned db) where
  found-IsOwned :
      (same : List ℕ → List ℕ → Bool) (id member_id : ℕ) (name slug : List ℕ) (user : ℕ)
      (plan : String)
      → IsOwned
          (after db (made (create_organization_row same now id member_id name slug user plan db)))
  unfolding create_organization_row insert_member get_membership
  found-IsOwned same id member_id name slug user plan =
      elim (Option-cases (get_organization_by_id id db)) [
        | inr (o, e) ↦ rw (e, create_organization_row) k
        | inl e ↦ elim (Bool-cases (ltb 0 (count_where (λ o. same o.slug slug) db.organizations))) [
          | inl taken ↦ rw (e, create_organization_row, taken) k
          | inr free ↦ elim (Option-cases (find_where (member_of id user) db.members)) [
            | inr (m, f) ↦ rw (e, create_organization_row, free, f) k
            | inl f ↦
                rw (e, create_organization_row, free, f)
                  (founded-IsOwned db k (new_organization now id name slug user plan)
                    (new_member now member_id id user owner) e f refl refl)
          ]
        ]
      ]

  pub create-IsOwned :
      (same : List ℕ → List ℕ → Bool) (config : OrgConfig) (id member_id user : ℕ) (name : List ℕ)
      (hint : Option (List ℕ)) (slug : List ℕ)
      → IsOwned (after db (create_organization same config now id member_id user name hint slug db))
  unfolding create_organization
  create-IsOwned same config id member_id user name hint slug =
      elim (Bool-cases (is_name (trim name))) [
        | inr h ↦ rw (h, create_organization) k
        | inl h ↦ elim (Bool-cases (holds (λ x. not (is_slug x)) hint)) [
          | inl b ↦ rw (h, create_organization, b) k
          | inr b ↦
              elim (Bool-cases (leb config.max_per_user (count_organizations_for_user user db))) [
                | inl c ↦ rw (h, create_organization, b, c) k
                | inr c ↦
                    rw (h, create_organization, b, c)
                      (found-IsOwned same id member_id (trim name) slug user config.default_plan)
              ]
        ]
      ]

  pub rename-IsOwned :
      (user org : ℕ) (name : Option (List ℕ))
      → IsOwned (after db (update_organization_profile now user org name db))
  unfolding update_organization_profile
  rename-IsOwned user org name = elim (Option-cases (get_membership org user db)) [
    | inl e ↦ rw (e, update_organization_profile) k
    | inr (m, e) ↦ elim (Bool-cases (is_manager m.role)) [
      | inr h ↦ rw (e, update_organization_profile, h) k
      | inl h ↦ elim (Option-cases name) [
        | inl n ↦ rw (e, update_organization_profile, h, n) k
        | inr (x, n) ↦ elim (Bool-cases (is_name (trim x))) [
          | inr b ↦ rw (e, update_organization_profile, h, n, b) k
          | inl b ↦
              rw (e, update_organization_profile, h, n, b) (renamed-IsOwned db k now org (trim x))
        ]
      ]
    ]
  ]

  pub dissolve-IsOwned : (user org : ℕ) → IsOwned (after db (delete_organization user org db))
  unfolding delete_organization
  dissolve-IsOwned user org = elim (Option-cases (get_membership org user db)) [
    | inl e ↦ rw (e, delete_organization) k
    | inr (m, e) ↦ elim (Bool-cases (is_owner m.role)) [
      | inr h ↦ rw (e, delete_organization, h) k
      | inl h ↦ rw (e, delete_organization, h) (delete_organization_row-IsOwned db k org)
    ]
  ]

  pub leave-IsOwned : (user org : ℕ) → IsOwned (after db (leave_organization user org db))
  unfolding leave_organization
  leave-IsOwned user org = elim (Option-cases (get_membership org user db)) [
    | inl e ↦ rw (e, leave_organization) k
    | inr (m, e) ↦ elim (Bool-cases (is_owner m.role)) [
      | inl h ↦ rw (e, leave_organization, h) k
      | inr h ↦ rw (e, leave_organization, h) (remove_member-IsOwned db k org user m e h)
    ]
  ]
