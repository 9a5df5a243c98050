-- ===== src/Orgs/Authorization.antt =====
-- lib/organizations/authorization.ts. The codes are those of AppError that the module throws.
use mathlib.Core.Option
use extension_lab.Common.{
  Bool, Option, arith, false, holds, if◌then◌else◌, none, some, true, ℕ, ◌≡◌,
}
use extension_lab.Orgs.Roles.{OrgAction, OrganizationRole, role_has_permission}
use extension_lab.Orgs.Row.{
  MemberRow, OrgDb, OrganizationRow, get_membership, get_organization_by_id,
}

pub data AppError : Type 0 where
  organization_not_found role_required api_scope_denied : AppError
  invalid_input not_found conflict seat_limit_reached : AppError
  invitation_invalid invitation_expired invitation_revoked : AppError
  -- The exception of a constraint of the database.
  constraint_failed : AppError

-- A call that returns or throws.
pub data Result (A : Type 0) : Type 0 where
  ok : A → Result A
  thrown : AppError → Result A

pub record OrgMembershipContext : Type 0 where
  pub organization_id : ℕ
  pub user_id : ℕ
  pub role : OrganizationRole

unfoldable pub get_membership_context : ℕ → ℕ → OrgDb → Option OrgMembershipContext
get_membership_context org user db = elim (get_membership org user db) [
  | none ↦ none
  | some m ↦ some (record { organization_id = org; user_id = user; role = m.role })
]

unfoldable pub require_membership : ℕ → ℕ → OrgDb → Result OrgMembershipContext
require_membership org user db = elim (get_membership_context org user db) [
  | none ↦ thrown organization_not_found
  | some context ↦ ok context
]

abbrev role_checked : OrgAction → Result OrgMembershipContext → Result OrgMembershipContext
role_checked action (thrown e) = thrown e
role_checked action (ok context) =
    if role_has_permission context.role action then ok context else thrown role_required

unfoldable pub authorize_org_action : ℕ → ℕ → OrgAction → OrgDb → Result OrgMembershipContext
authorize_org_action org user action db = role_checked action (require_membership org user db)

unfoldable pub may_act_on_organization : ℕ → ℕ → OrgAction → OrgDb → Bool
may_act_on_organization user org action db =
    holds (λ (m : MemberRow). role_has_permission m.role action) (get_membership org user db)

unfoldable pub resolve_authorized_organization : ℕ → ℕ → OrgDb → Option (ℕ × OrganizationRole)
resolve_authorized_organization user org db = elim (get_membership org user db) [
  | none ↦ none
  | some m ↦ Option.map (λ (o : OrganizationRow). (o.id, m.role)) (get_organization_by_id org db)
]

abbrev pub is_ok : {A : Type 0} → Result A → Bool
is_ok (ok x) = true
is_ok (thrown e) = false

-- The throwing check and the Boolean one agree, and what the check returns is the caller's own
-- membership: a caller passes exactly when it is a member with a role that has the permission.
pub authorize_org_action_lem :
    (org user : ℕ) (action : OrgAction) (db : OrgDb)
    → is_ok (authorize_org_action org user action db) ≡ may_act_on_organization user org action db
unfolding authorize_org_action require_membership get_membership_context may_act_on_organization
authorize_org_action_lem org user action db = ground arith

-- Whoever is no member is answered the same, whether the organization exists or not.
pub authorize_org_action_hides :
    (org other user : ℕ) (action another : OrgAction) (db db' : OrgDb)
    → get_membership org user db ≡ none
    → get_membership other user db' ≡ none
    → authorize_org_action org user action db ≡ authorize_org_action other user another db'
unfolding authorize_org_action require_membership get_membership_context
authorize_org_action_hides org other user action another db db' h h' = ground arith
