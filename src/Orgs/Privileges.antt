-- ===== src/Orgs/Privileges.antt =====
-- The order of the roles and their permissions (lib/organizations/types.ts).
use extension_lab.Common.{List, [], arith, true, ◌++◌, ◌∷◌, ◌≡◌}
use extension_lab.Orgs.Roles.{
  OrgAction, OrganizationRole, admin, admin_actions, developer, developer_actions, includes_action,
  org_analysis_run, org_api_keys_manage, org_audit_export, org_audit_read, org_billing_manage,
  org_delete, org_domains_manage, org_exports_manage, org_invitations_manage, org_matrices_run,
  org_members_manage, org_ownership_transfer, org_packages_delete, org_packages_upload,
  org_policy_manage, org_projects_create, org_projects_delete, org_publications_manage,
  org_regressions_run, org_reports_create, org_reports_share, org_role_change, org_settings_manage,
  org_sso_manage, org_tests_run, org_update, org_webhooks_manage, owner, role_at_least,
  role_has_permission, role_permissions, role_rank, viewer, viewer_actions,
}

includes_action-more :
    (xs ys : List OrgAction) (a : OrgAction)
    → includes_action xs a ≡ true
    → includes_action (xs ++ ys) a ≡ true
unfolding includes_action
includes_action-more [] ys a h = ground arith
includes_action-more (x ∷ xs) ys a h = ground (arith, includes_action-more xs ys a)

developer-viewer :
    (a : OrgAction) → role_has_permission viewer a ≡ true → role_has_permission developer a ≡ true
unfolding role_has_permission role_permissions
developer-viewer a h =
    includes_action-more viewer_actions
      (org_projects_create ∷ org_packages_upload ∷ org_analysis_run ∷ org_tests_run
        ∷ org_matrices_run ∷ org_regressions_run ∷ org_reports_create ∷ [])
      a h

admin-developer :
    (a : OrgAction) → role_has_permission developer a ≡ true → role_has_permission admin a ≡ true
unfolding role_has_permission role_permissions
admin-developer a h =
    includes_action-more developer_actions
      (org_members_manage ∷ org_invitations_manage ∷ org_update ∷ org_projects_delete
        ∷ org_packages_delete ∷ org_api_keys_manage ∷ org_webhooks_manage ∷ org_audit_read
        ∷ org_audit_export ∷ org_exports_manage ∷ org_settings_manage ∷ org_domains_manage
        ∷ org_policy_manage ∷ org_publications_manage ∷ org_reports_share ∷ org_role_change ∷ [])
      a h

owner-admin :
    (a : OrgAction) → role_has_permission admin a ≡ true → role_has_permission owner a ≡ true
unfolding role_has_permission role_permissions
owner-admin a h =
    includes_action-more admin_actions
      (org_delete ∷ org_billing_manage ∷ org_ownership_transfer ∷ org_sso_manage ∷ []) a h

-- A role of a higher rank has every permission of a role of a lower one.
pub role_has_permission_mono :
    (role lower : OrganizationRole) (a : OrgAction)
    → role_at_least role lower ≡ true
    → role_has_permission lower a ≡ true
    → role_has_permission role a ≡ true
unfolding role_at_least role_rank
role_has_permission_mono owner owner a h p = p
role_has_permission_mono owner admin a h p = owner-admin a p
role_has_permission_mono owner developer a h p = owner-admin a (admin-developer a p)
role_has_permission_mono owner viewer a h p =
    owner-admin a (admin-developer a (developer-viewer a p))
role_has_permission_mono admin owner a h p = absurd (ground arith)
role_has_permission_mono admin admin a h p = p
role_has_permission_mono admin developer a h p = admin-developer a p
role_has_permission_mono admin viewer a h p = admin-developer a (developer-viewer a p)
role_has_permission_mono developer owner a h p = absurd (ground arith)
role_has_permission_mono developer admin a h p = absurd (ground arith)
role_has_permission_mono developer developer a h p = p
role_has_permission_mono developer viewer a h p = developer-viewer a p
role_has_permission_mono viewer owner a h p = absurd (ground arith)
role_has_permission_mono viewer admin a h p = absurd (ground arith)
role_has_permission_mono viewer developer a h p = absurd (ground arith)
role_has_permission_mono viewer viewer a h p = p
