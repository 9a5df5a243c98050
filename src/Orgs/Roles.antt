-- ===== src/Orgs/Roles.antt =====
-- Roles and permissions (lib/organizations/types.ts).
use extension_lab.Common.{Bool, List, [], false, leb, not, true, ℕ, ◌++◌, ◌==◌, ◌||◌, ◌∷◌}

pub data OrganizationRole : Type 0 where
  owner admin developer viewer : OrganizationRole

pub data OrgAction : Type 0 where
  org_read org_update org_delete org_billing_manage : OrgAction
  org_members_read org_members_manage org_role_change org_ownership_transfer : OrgAction
  org_invitations_manage org_api_keys_manage org_webhooks_manage : OrgAction
  org_audit_read org_audit_export org_exports_manage org_settings_manage : OrgAction
  org_sso_manage org_domains_manage org_policy_manage org_publications_manage : OrgAction
  org_projects_create org_projects_delete org_packages_upload org_packages_delete : OrgAction
  org_analysis_run org_tests_run org_matrices_run org_regressions_run : OrgAction
  org_reports_create org_reports_share org_resources_read : OrgAction

unfoldable pub action_index : OrgAction → ℕ
action_index org_read = 0
action_index org_update = 1
action_index org_delete = 2
action_index org_billing_manage = 3
action_index org_members_read = 4
action_index org_members_manage = 5
action_index org_role_change = 6
action_index org_ownership_transfer = 7
action_index org_invitations_manage = 8
action_index org_api_keys_manage = 9
action_index org_webhooks_manage = 10
action_index org_audit_read = 11
action_index org_audit_export = 12
action_index org_exports_manage = 13
action_index org_settings_manage = 14
action_index org_sso_manage = 15
action_index org_domains_manage = 16
action_index org_policy_manage = 17
action_index org_publications_manage = 18
action_index org_projects_create = 19
action_index org_projects_delete = 20
action_index org_packages_upload = 21
action_index org_packages_delete = 22
action_index org_analysis_run = 23
action_index org_tests_run = 24
action_index org_matrices_run = 25
action_index org_regressions_run = 26
action_index org_reports_create = 27
action_index org_reports_share = 28
action_index org_resources_read = 29

-- VIEWER
abbrev pub viewer_actions : List OrgAction
viewer_actions = org_read ∷ org_members_read ∷ org_resources_read ∷ []

-- DEVELOPER
abbrev pub developer_actions : List OrgAction
developer_actions =
    viewer_actions
    ++ org_projects_create ∷ org_packages_upload ∷ org_analysis_run ∷ org_tests_run
      ∷ org_matrices_run ∷ org_regressions_run ∷ org_reports_create ∷ []

-- ADMIN
abbrev pub admin_actions : List OrgAction
admin_actions =
    developer_actions
    ++ org_members_manage ∷ org_invitations_manage ∷ org_update ∷ org_projects_delete
      ∷ org_packages_delete ∷ org_api_keys_manage ∷ org_webhooks_manage ∷ org_audit_read
      ∷ org_audit_export ∷ org_exports_manage ∷ org_settings_manage ∷ org_domains_manage
      ∷ org_policy_manage ∷ org_publications_manage ∷ org_reports_share ∷ org_role_change ∷ []

-- OWNER
abbrev pub owner_actions : List OrgAction
owner_actions =
    admin_actions ++ org_delete ∷ org_billing_manage ∷ org_ownership_transfer ∷ org_sso_manage ∷ []

unfoldable pub role_permissions : OrganizationRole → List OrgAction
role_permissions owner = owner_actions
role_permissions admin = admin_actions
role_permissions developer = developer_actions
role_permissions viewer = viewer_actions

unfoldable pub includes_action : List OrgAction → OrgAction → Bool
includes_action [] a = false
includes_action (b ∷ bs) a = action_index b == action_index a || includes_action bs a

unfoldable pub role_has_permission : OrganizationRole → OrgAction → Bool
role_has_permission role action = includes_action (role_permissions role) action

-- ROLE_RANK
unfoldable pub role_rank : OrganizationRole → ℕ
role_rank viewer = 0
role_rank developer = 1
role_rank admin = 2
role_rank owner = 3

unfoldable pub role_at_least : OrganizationRole → OrganizationRole → Bool
role_at_least role minimum = leb (role_rank minimum) (role_rank role)

abbrev pub is_owner : OrganizationRole → Bool
is_owner owner = true
is_owner _ = false

abbrev pub is_admin : OrganizationRole → Bool
is_admin admin = true
is_admin _ = false

-- ASSIGNABLE_ROLES, on a role of the four; any other string is no role.
abbrev pub is_assignable_role : OrganizationRole → Bool
is_assignable_role r = not (is_owner r)

unfoldable pub can_view_audit : OrganizationRole → Bool
can_view_audit role = role_has_permission role org_audit_read
