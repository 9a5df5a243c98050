-- ===== src/Orgs/Row.antt =====
-- The rows of organizations, members and invitations (lib/db/schema/types.ts and
-- lib/organizations/repository.ts). Identifiers, token hashes and addresses are compared for equality
-- alone, and are numbers.
use extension_lab.Common.{
  Bool, List, Option, String, if◌then◌else◌, is_some, ltb, none, some, ℕ, ◌&&◌, ◌==◌,
}
use extension_lab.Orgs.Roles.{OrganizationRole, owner}
use extension_lab.Sql.Defs.{
  count_where, delete_where, find_by, find_where, insert_row, update_where,
}

pub record OrganizationRow : Type 0 where
  pub id : ℕ
  pub name : List ℕ
  pub slug : List ℕ
  pub owner_user_id : ℕ
  pub plan_id : String
  pub plan_status : String
  pub provider : Option String
  pub provider_subscription_id : Option String
  pub seats : ℕ
  pub settings_json : String
  pub created_at : ℕ
  pub updated_at : ℕ

pub record MemberRow : Type 0 where
  pub id : ℕ
  pub organization_id : ℕ
  pub user_id : ℕ
  pub role : OrganizationRole
  pub created_at : ℕ

pub record InvitationRow : Type 0 where
  pub id : ℕ
  pub organization_id : ℕ
  pub email : ℕ
  pub role : OrganizationRole
  pub token_hash : ℕ
  pub invited_by : ℕ
  pub expires_at : ℕ
  pub accepted_at : Option ℕ
  pub accepted_by : Option ℕ
  pub revoked_at : Option ℕ
  pub resend_count : ℕ
  pub created_at : ℕ
  pub updated_at : ℕ

pub record OrgDb : Type 0 where
  pub organizations : List OrganizationRow
  pub members : List MemberRow
  pub invitations : List InvitationRow

abbrev pub org_key : OrganizationRow → ℕ
org_key o = o.id

abbrev pub invitation_key : InvitationRow → ℕ
invitation_key i = i.id

abbrev pub member_of : ℕ → ℕ → MemberRow → Bool
member_of org user m = m.organization_id == org && m.user_id == user

unfoldable pub get_organization_by_id : ℕ → OrgDb → Option OrganizationRow
get_organization_by_id id db = find_by org_key id db.organizations

unfoldable pub get_membership : ℕ → ℕ → OrgDb → Option MemberRow
get_membership org user db = find_where (member_of org user) db.members

unfoldable pub count_members : ℕ → OrgDb → ℕ
count_members org db = count_where (λ m. m.organization_id == org) db.members

unfoldable pub count_organizations_for_user : ℕ → OrgDb → ℕ
count_organizations_for_user user db = count_where (λ m. m.user_id == user) db.members

abbrev pub with_members : List MemberRow → OrgDb → OrgDb
with_members ms db = record db { members = ms }

abbrev pub with_role : OrganizationRole → MemberRow → MemberRow
with_role role m = record m { role = role }

unfoldable pub update_member_role : ℕ → ℕ → OrganizationRole → OrgDb → OrgDb
update_member_role org user role db =
    with_members (update_where (member_of org user) (with_role role) db.members) db

unfoldable pub remove_member : ℕ → ℕ → OrgDb → OrgDb
remove_member org user db = with_members (delete_where (member_of org user) db.members) db

abbrev pub new_member : ℕ → ℕ → ℕ → ℕ → OrganizationRole → MemberRow
new_member now id org user role = record {
  id = id;
  organization_id = org;
  user_id = user;
  role = role;
  created_at = now;
}

-- `none` is the exception of UNIQUE (organization_id, user_id); `id` is fresh from generateDbId.
unfoldable pub insert_member : ℕ → ℕ → ℕ → ℕ → OrganizationRole → OrgDb → Option OrgDb
insert_member now id org user role db =
    if is_some (get_membership org user db)
    then none
    else some (with_members (insert_row (new_member now id org user role) db.members) db)

-- ON DELETE CASCADE takes the members and the invitations along.
unfoldable pub delete_organization_row : ℕ → OrgDb → OrgDb
delete_organization_row id db = record {
  organizations = delete_where (λ o. o.id == id) db.organizations;
  members = delete_where (λ m. m.organization_id == id) db.members;
  invitations = delete_where (λ i. i.organization_id == id) db.invitations;
}

abbrev pub new_organization : ℕ → ℕ → List ℕ → List ℕ → ℕ → String → OrganizationRow
new_organization now id name slug owner_user_id plan_id = record {
  id = id;
  name = name;
  slug = slug;
  owner_user_id = owner_user_id;
  plan_id = plan_id;
  plan_status = "none";
  provider = none;
  provider_subscription_id = none;
  seats = 1;
  settings_json = "{}";
  created_at = now;
  updated_at = now;
}

-- The transaction of createOrganizationRow with the slug that its loop settled on; `none` is an
-- exception of a PRIMARY KEY or of UNIQUE (slug), after which nothing is written.
unfoldable pub create_organization_row :
    (List ℕ → List ℕ → Bool) → ℕ → ℕ → ℕ → List ℕ → List ℕ → ℕ → String → OrgDb → Option OrgDb
create_organization_row same now id member_id name slug owner_user_id plan_id db =
    if is_some (get_organization_by_id id db)
    then none
    else if ltb 0 (count_where (λ o. same o.slug slug) db.organizations)
    then none
    else insert_member now member_id id owner_user_id owner (record db {
      organizations =
          insert_row (new_organization now id name slug owner_user_id plan_id) db.organizations;
    })

abbrev pub owned_by : ℕ → ℕ → OrganizationRow → OrganizationRow
owned_by now user o = record o { owner_user_id = user; updated_at = now }

-- UPDATE organizations SET owner_user_id = ?, updated_at = ? WHERE id = ?
unfoldable pub set_owner : ℕ → ℕ → ℕ → OrgDb → OrgDb
set_owner now org user db = record db {
  organizations = update_where (λ o. o.id == org) (owned_by now user) db.organizations;
}

abbrev pub renamed : ℕ → List ℕ → OrganizationRow → OrganizationRow
renamed now name o = record o { name = name; updated_at = now }

-- updateOrganizationRow with a name alone.
unfoldable pub rename_organization : ℕ → ℕ → List ℕ → OrgDb → OrgDb
rename_organization now org name db = record db {
  organizations = update_where (λ o. o.id == org) (renamed now name) db.organizations;
}
