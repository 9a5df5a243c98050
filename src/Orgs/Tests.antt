-- ===== src/Orgs/Tests.antt =====
-- The theorems on organizations at concrete inputs.
use extension_lab.Common.{
  Bool, List, [], false, is_some, min, none, refl, some, true, ℕ, ◌+◌, ◌∷◌, ◌≡◌, ◌≤◌,
}
use extension_lab.Orgs.Authorization.{is_ok, ok}
use extension_lab.Orgs.Invitations.{
  accept_invitation, accepted, get_invitation_by_token_hash, is_open,
}
use extension_lab.Orgs.Members.{OrgConfig}
use extension_lab.Orgs.Offers.{run_orgs_owned}
use extension_lab.Orgs.OrgHistories.{
  OrgOp, accept, found, invite, leave, no_orgs, run_orgs, transfer,
}
use extension_lab.Orgs.Ownership.{owner_of}
use extension_lab.Orgs.Privileges.{role_has_permission_mono}
use extension_lab.Orgs.Roles.{
  action_index, admin, developer, includes_action, org_audit_read, owner, role_at_least,
  role_has_permission, role_permissions, role_rank,
}
use extension_lab.Orgs.Row.{
  InvitationRow, OrgDb, OrganizationRow, count_members, get_membership, get_organization_by_id,
  insert_member, member_of, new_member,
}
use extension_lab.Orgs.Seats.{accept_invitation_lem, accept_invitation_once}
use extension_lab.Sql.Defs.{count_where, find_by, find_where, insert_row, update_where}
use extension_lab.Sql.Laws.{one_if}

abbrev org : OrganizationRow
org = record {
  id = 1;
  name = 65 ∷ 66 ∷ [];
  slug = 97 ∷ 98 ∷ 99 ∷ [];
  owner_user_id = 10;
  plan_id = "business";
  plan_status = "active";
  provider = none;
  provider_subscription_id = none;
  seats = 3;
  settings_json = "{}";
  created_at = 5;
  updated_at = 5;
}

abbrev offer : InvitationRow
offer = record {
  id = 70;
  organization_id = 1;
  email = 900;
  role = developer;
  token_hash = 80;
  invited_by = 10;
  expires_at = 100;
  accepted_at = none;
  accepted_by = none;
  revoked_at = none;
  resend_count = 0;
  created_at = 6;
  updated_at = 6;
}

abbrev db : OrgDb
db = record {
  organizations = org ∷ [];
  members = new_member 5 50 1 10 owner ∷ new_member 5 51 1 11 admin ∷ [];
  invitations = offer ∷ [];
}

abbrev joined_db : OrgDb
joined_db = record {
  organizations = org ∷ [];
  members =
      new_member 5 50 1 10 owner
      ∷ new_member 5 51 1 11 admin
      ∷ new_member 20 52 1 12 developer
      ∷ [];
  invitations = accepted 20 12 offer ∷ [];
}

joins : accept_invitation 20 52 12 900 80 5 db ≡ ok joined_db
unfolding accept_invitation get_invitation_by_token_hash find_where get_organization_by_id find_by
    get_membership count_members count_where insert_member update_where insert_row
joins = refl

accept_invitation_lem_example :
    (i : InvitationRow) × (o : OrganizationRow) × (get_invitation_by_token_hash 80 db ≡ some i)
    × (is_open i ≡ true)
    × (20 ≤ i.expires_at)
    × (i.email ≡ 900)
    × (get_organization_by_id i.organization_id db ≡ some o)
    × (get_membership i.organization_id 12 db ≡ none)
    × (get_membership i.organization_id 12 joined_db
        ≡ some (new_member 20 52 i.organization_id 12 i.role))
    × (count_members i.organization_id joined_db ≡ count_members i.organization_id db + 1)
    × (count_members i.organization_id joined_db ≤ min 5 o.seats)
accept_invitation_lem_example = accept_invitation_lem 20 52 12 900 80 5 db joined_db joins

accept_invitation_once_example : is_ok (accept_invitation 30 53 13 900 80 5 joined_db) ≡ false
accept_invitation_once_example =
    accept_invitation_once 20 52 12 900 80 5 30 53 13 900 5 db joined_db joins

abbrev names_differ : List ℕ → List ℕ → Bool
names_differ a b = false

abbrev config : OrgConfig
config = record { max_per_user = 5; default_plan = "free" }

-- An organization is founded, a member invited and accepted, and the organization handed over.
abbrev history : List (ℕ × OrgOp)
history =
    (5, found names_differ config 1 50 10 (65 ∷ 66 ∷ []) none (97 ∷ 98 ∷ 99 ∷ []))
    ∷ (6, invite 1000 70 80 10 1 900 true (some developer) none 5)
    ∷ (7, accept 51 12 900 80 5)
    ∷ (8, transfer 10 1 12)
    ∷ (9, leave 10 1)
    ∷ []

run_orgs_owned_example :
    (count_where (owner_of 1) (run_orgs history no_orgs).members
      ≡ one_if (is_some (get_organization_by_id 1 (run_orgs history no_orgs))))
    × (count_where (member_of 1 12) (run_orgs history no_orgs).members ≤ 1)
run_orgs_owned_example = run_orgs_owned history 1 12

audits : role_has_permission admin org_audit_read ≡ true
unfolding role_has_permission role_permissions includes_action action_index
audits = refl

ranks : role_at_least owner admin ≡ true
unfolding role_at_least role_rank
ranks = refl

role_has_permission_mono_example : role_has_permission owner org_audit_read ≡ true
role_has_permission_mono_example = role_has_permission_mono owner admin org_audit_read ranks audits

outsider : get_membership 1 99 db ≡ none
unfolding get_membership find_where
outsider = refl

nowhere : get_membership 2 99 db ≡ none
unfolding get_membership find_where
nowhere = refl
