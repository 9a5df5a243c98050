-- ===== src/Orgs/Members.antt =====
-- The service of lib/organizations/service.ts that makes organizations and manages their members.
-- The audit log, metrics and the log are left out, as is the view that is returned.
use extension_lab.Common.{
  Bool, List, Option, String, [], false, holds, if◌then◌else◌, leb, length, none, not, some, trim,
  ℕ, ◌&&◌, ◌==◌, ◌||◌, ◌∷◌,
}
use extension_lab.Orgs.Authorization.{
  Result, conflict, constraint_failed, invalid_input, not_found, ok, organization_not_found,
  role_required, thrown,
}
use extension_lab.Orgs.Roles.{
  OrganizationRole, admin, is_admin, is_assignable_role, is_owner, owner,
}
use extension_lab.Orgs.Row.{
  MemberRow, OrgDb, count_organizations_for_user, create_organization_row, delete_organization_row,
  get_membership, remove_member, rename_organization, set_owner, update_member_role,
}

-- Between 2 and MAX_NAME_LENGTH units.
unfoldable pub is_name : List ℕ → Bool
is_name name = leb 2 (length name) && leb (length name) 80

unfoldable pub is_slug_char : ℕ → Bool
is_slug_char c = (leb 97 c && leb c 122) || (leb 48 c && leb c 57)

-- [a-z0-9-]* and one more [a-z0-9]
unfoldable pub is_slug_tail : List ℕ → Bool
is_slug_tail [] = false
is_slug_tail (c ∷ []) = is_slug_char c
is_slug_tail (c ∷ d ∷ cs) = (is_slug_char c || c == 45) && is_slug_tail (d ∷ cs)

-- /^[a-z0-9][a-z0-9-]{1,38}[a-z0-9]$/
unfoldable pub is_slug : List ℕ → Bool
is_slug [] = false
is_slug (c ∷ cs) = is_slug_char c && is_slug_tail cs && leb 2 (length cs) && leb (length cs) 39

pub record OrgConfig : Type 0 where
  pub max_per_user : ℕ
  pub default_plan : String

abbrev pub made : Option OrgDb → Result OrgDb
made none = thrown constraint_failed
made (some db) = ok db

-- `slug` is what createOrganizationRow's loop settles on, from the hint or the name.
unfoldable pub create_organization :
    (List ℕ → List ℕ → Bool)
    → OrgConfig
    → ℕ
    → ℕ
    → ℕ
    → ℕ
    → List ℕ
    → Option (List ℕ)
    → List ℕ
    → OrgDb
    → Result OrgDb
create_organization same config now id member_id user name hint slug db =
    if not (is_name (trim name))
    then thrown invalid_input
    else if holds (λ h. not (is_slug h)) hint
    then thrown invalid_input
    else if leb config.max_per_user (count_organizations_for_user user db)
    then thrown conflict
    else made
        (create_organization_row same now id member_id (trim name) slug user config.default_plan db)

abbrev pub is_manager : OrganizationRole → Bool
is_manager r = is_owner r || is_admin r

abbrev renamed_checked : ℕ → ℕ → Option (List ℕ) → OrgDb → Result OrgDb
renamed_checked now org none db = ok db
renamed_checked now org (some name) db =
    if is_name (trim name)
    then ok (rename_organization now org (trim name) db)
    else thrown invalid_input

unfoldable pub update_organization_profile : ℕ → ℕ → ℕ → Option (List ℕ) → OrgDb → Result OrgDb
update_organization_profile now user org name db = elim (get_membership org user db) [
  | none ↦ thrown organization_not_found
  | some m ↦ if is_manager m.role then renamed_checked now org name db else thrown role_required
]

unfoldable pub delete_organization : ℕ → ℕ → OrgDb → Result OrgDb
delete_organization user org db = elim (get_membership org user db) [
  | none ↦ thrown organization_not_found
  | some m ↦ if is_owner m.role then ok (delete_organization_row org db) else thrown role_required
]

unfoldable pub leave_organization : ℕ → ℕ → OrgDb → Result OrgDb
leave_organization user org db = elim (get_membership org user db) [
  | none ↦ thrown organization_not_found
  | some m ↦ if is_owner m.role then thrown conflict else ok (remove_member org user db)
]

-- The checks on the target after those on the actor.
abbrev pub role_change :
    ℕ → ℕ → OrganizationRole → OrganizationRole → MemberRow → OrgDb → Result OrgDb
role_change org target actor_role role t db =
    if is_owner t.role
    then thrown conflict
    else if is_admin actor_role && (is_admin role || is_admin t.role)
    then thrown role_required
    else ok (update_member_role org target role db)

-- `role` is `none` for a string that names no role.
unfoldable pub change_member_role : ℕ → ℕ → ℕ → Option OrganizationRole → OrgDb → Result OrgDb
change_member_role user org target role db = elim (get_membership org user db) [
  | none ↦ thrown organization_not_found
  | some actor ↦ if not (is_manager actor.role) then thrown role_required else elim role [
    | none ↦ thrown invalid_input
    | some r ↦
        if not (is_assignable_role r)
        then thrown invalid_input
        else elim (get_membership org target db) [
          | none ↦ thrown not_found
          | some t ↦ role_change org target actor.role r t db
        ]
  ]
]

unfoldable pub remove_organization_member : ℕ → ℕ → ℕ → OrgDb → Result OrgDb
remove_organization_member user org target db = elim (get_membership org user db) [
  | none ↦ thrown organization_not_found
  | some actor ↦
      if not (is_manager actor.role)
      then thrown role_required
      else elim (get_membership org target db) [
        | none ↦ thrown not_found
        | some t ↦
            if is_owner t.role
            then thrown conflict
            else if is_admin actor.role && is_admin t.role
            then thrown role_required
            else ok (remove_member org target db)
      ]
]

unfoldable pub transfer_ownership : ℕ → ℕ → ℕ → ℕ → OrgDb → Result OrgDb
transfer_ownership now user org target db = elim (get_membership org user db) [
  | none ↦ thrown organization_not_found
  | some actor ↦
      if not (is_owner actor.role)
      then thrown role_required
      else elim (get_membership org target db) [
        | none ↦ thrown not_found
        | some t ↦
            if target == user
            then thrown invalid_input
            else ok (
                set_owner now org target
                  (update_member_role org target owner (update_member_role org user admin db)))
      ]
]
