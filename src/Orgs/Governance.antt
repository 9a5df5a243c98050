-- ===== src/Orgs/Governance.antt =====
-- One owner for every organization, over histories of lib/organizations/service.ts.
use extension_lab.Common.{
  Bool-cases, Option, Option-cases, arith, inl, inr, leb, refl, some, true, ℕ, ◌&&◌, ◌==◌, ◌||◌,
  ◌∙◌, ◌≡◌,
}
use extension_lab.Orgs.Founding.{offered-IsOwned, transferred-IsOwned}
use extension_lab.Orgs.Invitations.{
  get_invitation_by_id, is_open, resend_invitation, resent, revoke_invitation, revoked,
  update_invitation,
}
use extension_lab.Orgs.Members.{
  change_member_role, is_manager, remove_organization_member, role_change, transfer_ownership,
}
use extension_lab.Orgs.OrgHistories.{after}
use extension_lab.Orgs.Ownership.{
  IsOwned, makes_owner, remove_member-IsOwned, update_member_role-IsOwned,
}
use extension_lab.Orgs.Roles.{OrganizationRole, is_admin, is_assignable_role, is_owner}
use extension_lab.Orgs.Row.{InvitationRow, MemberRow, OrgDb, get_membership}
use extension_lab.Sql.Defs.{update_where}
use extension_lab.Sql.Single.{count_where-update_same}

module _ (now : ℕ) (db : OrgDb) (k : IsOwned db) where
  changed-IsOwned :
      (org target : ℕ) (actor_role r : OrganizationRole) (t : MemberRow)
      → is_assignable_role r ≡ true
      → get_membership org target db ≡ some t
      → IsOwned (after db (role_change org target actor_role r t db))
  changed-IsOwned org target actor_role r t low here = elim (Bool-cases (is_owner t.role)) [
    | inl h ↦ rw h k
    | inr h ↦ elim (Bool-cases (is_admin actor_role && (is_admin r || is_admin t.role))) [
      | inl b ↦ rw (h, b) k
      | inr b ↦ rw (h, b) (update_member_role-IsOwned db k org target r t here h (ground arith))
    ]
  ]

  pub change-IsOwned :
      (user org target : ℕ) (role : Option OrganizationRole)
      → IsOwned (after db (change_member_role user org target role db))
  unfolding change_member_role
  change-IsOwned user org target role = elim (Option-cases (get_membership org user db)) [
    | inl e ↦ rw (e, change_member_role) k
    | inr (m, e) ↦ elim (Bool-cases (is_manager m.role)) [
      | inr h ↦ rw (e, change_member_role, h) k
      | inl h ↦ elim (Option-cases role) [
        | inl n ↦ rw (e, change_member_role, h, n) k
        | inr (r, n) ↦ elim (Bool-cases (is_assignable_role r)) [
          | inr b ↦ rw (e, change_member_role, h, n, b) k
          | inl b ↦ elim (Option-cases (get_membership org target db)) [
            | inl f ↦ rw (e, change_member_role, h, n, b, f) k
            | inr (t, f) ↦
                rw (e, change_member_role, h, n, b, f) (changed-IsOwned org target m.role r t b f)
          ]
        ]
      ]
    ]
  ]

  pub remove-IsOwned :
      (user org target : ℕ) → IsOwned (after db (remove_organization_member user org target db))
  unfolding remove_organization_member
  remove-IsOwned user org target = elim (Option-cases (get_membership org user db)) [
    | inl e ↦ rw (e, remove_organization_member) k
    | inr (m, e) ↦ elim (Bool-cases (is_manager m.role)) [
      | inr h ↦ rw (e, remove_organization_member, h) k
      | inl h ↦ elim (Option-cases (get_membership org target db)) [
        | inl f ↦ rw (e, remove_organization_member, h, f) k
        | inr (t, f) ↦ elim (Bool-cases (is_owner t.role)) [
          | inl b ↦ rw (e, remove_organization_member, h, f, b) k
          | inr b ↦ elim (Bool-cases (is_admin m.role && is_admin t.role)) [
            | inl c ↦ rw (e, remove_organization_member, h, f, b, c) k
            | inr c ↦
                rw (e, remove_organization_member, h, f, b, c)
                  (remove_member-IsOwned db k org target t f b)
          ]
        ]
      ]
    ]
  ]

  pub transfer-IsOwned :
      (user org target : ℕ) → IsOwned (after db (transfer_ownership now user org target db))
  unfolding transfer_ownership
  transfer-IsOwned user org target = elim (Option-cases (get_membership org user db)) [
    | inl e ↦ rw (e, transfer_ownership) k
    | inr (m, e) ↦ elim (Bool-cases (is_owner m.role)) [
      | inr h ↦ rw (e, transfer_ownership, h) k
      | inl h ↦ elim (Option-cases (get_membership org target db)) [
        | inl f ↦ rw (e, transfer_ownership, h, f) k
        | inr (t, f) ↦ elim (Bool-cases (target == user)) [
          | inl b ↦ rw (e, transfer_ownership, h, f, b) k
          | inr b ↦
              rw (e, transfer_ownership, h, f, b)
                (transferred-IsOwned db k org user target m t e h f (λ p. ground arith) now)
        ]
      ]
    ]
  ]

  -- An update of an invitation that leaves its role alone.
  reworded-IsOwned :
      (id : ℕ) (f : InvitationRow → InvitationRow)
      → ((i : InvitationRow) → makes_owner (f i) ≡ makes_owner i)
      → IsOwned (update_invitation id f db)
  reworded-IsOwned id f same =
      offered-IsOwned db k (update_where (λ i. i.id == id) f db.invitations)
        (count_where-update_same makes_owner (λ i. i.id == id) f same db.invitations ∙ k.offers)

  pub resend-IsOwned :
      (ttl_ms hash user org id : ℕ)
      → IsOwned (after db (resend_invitation now ttl_ms hash user org id db))
  unfolding resend_invitation
  resend-IsOwned ttl_ms hash user org id = elim (Option-cases (get_membership org user db)) [
    | inl e ↦ rw (e, resend_invitation) k
    | inr (m, e) ↦ elim (Bool-cases (is_manager m.role)) [
      | inr h ↦ rw (e, resend_invitation, h) k
      | inl h ↦ elim (Option-cases (get_invitation_by_id id db)) [
        | inl f ↦ rw (e, resend_invitation, h, f) k
        | inr (i, f) ↦ elim (Bool-cases (i.organization_id == org)) [
          | inr b ↦ rw (e, resend_invitation, h, f, b) k
          | inl b ↦ elim (Bool-cases (is_open i)) [
            | inr c ↦ rw (e, resend_invitation, h, f, b, c) k
            | inl c ↦ elim (Bool-cases (leb 10 i.resend_count)) [
              | inl d ↦ rw (e, resend_invitation, h, f, b, c, d) k
              | inr d ↦
                  rw (e, resend_invitation, h, f, b, c, d)
                    (reworded-IsOwned id (resent now hash ttl_ms) (λ x. refl))
            ]
          ]
        ]
      ]
    ]
  ]

  pub revoke-IsOwned : (user org id : ℕ) → IsOwned (after db (revoke_invitation now user org id db))
  unfolding revoke_invitation
  revoke-IsOwned user org id = elim (Option-cases (get_membership org user db)) [
    | inl e ↦ rw (e, revoke_invitation) k
    | inr (m, e) ↦ elim (Bool-cases (is_manager m.role)) [
      | inr h ↦ rw (e, revoke_invitation, h) k
      | inl h ↦ elim (Option-cases (get_invitation_by_id id db)) [
        | inl f ↦ rw (e, revoke_invitation, h, f) k
        | inr (i, f) ↦ elim (Bool-cases (i.organization_id == org)) [
          | inr b ↦ rw (e, revoke_invitation, h, f, b) k
          | inl b ↦ elim (Bool-cases (is_open i)) [
            | inr c ↦ rw (e, revoke_invitation, h, f, b, c) k
            | inl c ↦
                rw (e, revoke_invitation, h, f, b, c)
                  (reworded-IsOwned id (revoked now) (λ x. refl))
          ]
        ]
      ]
    ]
  ]
