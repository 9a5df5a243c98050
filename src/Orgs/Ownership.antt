-- ===== src/Orgs/Ownership.antt =====
-- Who owns an organization, through the writes of lib/organizations/service.ts.
use mathlib.Core.Path.{subst}
use extension_lab.Common.{
  Bool, Bool-cases, List, arith, false, inl, inr, none, refl, some, sym, ℕ, ◌&&◌, ◌==◌, ◌≡◌, ◌≤◌,
}
use extension_lab.Orgs.Roles.{OrganizationRole, is_owner}
use extension_lab.Orgs.Row.{
  InvitationRow, MemberRow, OrgDb, OrganizationRow, delete_organization_row, get_membership,
  member_of, remove_member, update_member_role, with_role,
}
use extension_lab.Sql.Defs.{count_where, insert_row}
use extension_lab.Sql.Laws.{count_where-insert, count_where-zero}
use extension_lab.Sql.Single.{
  count_where-delete_all, count_where-delete_apart, count_where-delete_le, count_where-delete_one,
  count_where-update_one, count_where-update_same,
}

abbrev pub owner_of : ℕ → MemberRow → Bool
owner_of org m = m.organization_id == org && is_owner m.role

abbrev pub has_id : ℕ → OrganizationRow → Bool
has_id org o = o.id == org

abbrev pub makes_owner : InvitationRow → Bool
makes_owner i = is_owner i.role

-- The tables are in order: nobody is twice a member, no identifier stands twice, every organization
-- has one member who is its owner and nothing else has an owner, and no invitation makes an owner.
pub record IsOwned (db : OrgDb) : Type 0 where
  pub memberships : (org user : ℕ) → count_where (member_of org user) db.members ≤ 1
  pub identifiers : (org : ℕ) → count_where (has_id org) db.organizations ≤ 1
  pub one_owner :
      (org : ℕ) → count_where (owner_of org) db.members ≡ count_where (has_id org) db.organizations
  pub offers : count_where makes_owner db.invitations ≡ 0

module _ (db : OrgDb) (k : IsOwned db) where
  pub update_member_role-IsOwned :
      (org user : ℕ) (role : OrganizationRole) (t : MemberRow)
      → get_membership org user db ≡ some t
      → is_owner t.role ≡ false
      → is_owner role ≡ false
      → IsOwned (update_member_role org user role db)
  unfolding update_member_role get_membership
  update_member_role-IsOwned org user role t here low low' = record {
    memberships = λ a b.
        subst (λ n. n ≤ 1)
          (sym (
            count_where-update_same (member_of a b) (member_of org user) (with_role role)
              (λ r. refl) db.members))
          (k.memberships a b);
    identifiers = k.identifiers;
    one_owner = λ a. ground (
      arith,
      count_where-update_one (owner_of a) (member_of org user) (with_role role) db.members t here
          (k.memberships org user),
      k.one_owner a,
    );
    offers = k.offers;
  }

  pub remove_member-IsOwned :
      (org user : ℕ) (t : MemberRow)
      → get_membership org user db ≡ some t
      → is_owner t.role ≡ false
      → IsOwned (remove_member org user db)
  unfolding remove_member get_membership
  remove_member-IsOwned org user t here low = record {
    memberships = λ a b. omega (
      arith,
      count_where-delete_le (member_of a b) (member_of org user) db.members,
      k.memberships a b,
    );
    identifiers = k.identifiers;
    one_owner = λ a. ground (
      arith,
      count_where-delete_one (owner_of a) (member_of org user) db.members t here
          (k.memberships org user),
      k.one_owner a,
    );
    offers = k.offers;
  }

  -- A row of a new member keeps everybody a member once.
  pub inserted_memberships :
      (m : MemberRow)
      → get_membership m.organization_id m.user_id db ≡ none
      → (a b : ℕ) → count_where (member_of a b) (insert_row m db.members) ≤ 1
  unfolding get_membership
  inserted_memberships m free a b =
      let more = count_where-insert (member_of a b) m db.members in
      elim (Bool-cases (m.organization_id == a && m.user_id == b)) [
        | inl h ↦
            let x : m.organization_id ≡ a = ground arith in
            let y : m.user_id ≡ b = ground arith in
            let none_here : count_where (member_of a b) db.members ≡ 0 =
              subst (λ i. count_where (member_of i b) db.members ≡ 0) x
                (subst (λ j. count_where (member_of m.organization_id j) db.members ≡ 0) y
                  (count_where-zero (member_of m.organization_id m.user_id) db.members free)) in
            ground arith
        | inr h ↦ ground (arith, k.memberships a b)
      ]

  pub insert_member-IsOwned :
      (m : MemberRow) (invitations : List InvitationRow)
      → get_membership m.organization_id m.user_id db ≡ none
      → is_owner m.role ≡ false
      → count_where makes_owner invitations ≡ 0
      → IsOwned (record db { members = insert_row m db.members; invitations = invitations })
  insert_member-IsOwned m invitations free low o = record {
    memberships = inserted_memberships m free;
    identifiers = k.identifiers;
    one_owner = λ a. ground (arith, count_where-insert (owner_of a) m db.members, k.one_owner a);
    offers = o;
  }

  pub delete_organization_row-IsOwned : (org : ℕ) → IsOwned (delete_organization_row org db)
  unfolding delete_organization_row
  delete_organization_row-IsOwned org = record {
    memberships = λ a b. omega (
      arith,
      count_where-delete_le (member_of a b) (λ m. m.organization_id == org) db.members,
      k.memberships a b,
    );
    identifiers = λ a. omega (
      arith,
      count_where-delete_le (has_id a) (λ o. o.id == org) db.organizations,
      k.identifiers a,
    );
    one_owner = λ a. elim (Bool-cases (a == org)) [
      | inl h ↦ ground (
        arith,
        count_where-delete_all (owner_of a) (λ m. m.organization_id == org) (λ m p. ground arith)
            db.members,
        count_where-delete_all (has_id a) (λ o. o.id == org) (λ o p. ground arith) db.organizations,
      )
      | inr h ↦ ground (
        arith,
        count_where-delete_apart (owner_of a) (λ m. m.organization_id == org) (λ m p. ground arith)
            db.members,
        count_where-delete_apart (has_id a) (λ o. o.id == org) (λ o p. ground arith)
            db.organizations,
        k.one_owner a,
      )
    ];
    offers = omega (
      arith,
      count_where-delete_le makes_owner (λ i. i.organization_id == org) db.invitations,
      k.offers,
    );
  }
