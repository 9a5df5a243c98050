-- ===== src/Orgs/Founding.antt =====
-- The writes that make an organization, hand it over or leave its owner alone
-- (lib/organizations/service.ts).
use mathlib.Core.Path.{subst}
use extension_lab.Common.{
  Bool-cases, List, arith, false, inl, inr, none, refl, some, sym, true, ℕ, ◌+◌, ◌==◌, ◌∙◌, ◌≡◌,
  ◌≢◌, ◌≤◌,
}
use extension_lab.Orgs.Ownership.{IsOwned, has_id, inserted_memberships, makes_owner, owner_of}
use extension_lab.Orgs.Roles.{admin, is_owner, owner}
use extension_lab.Orgs.Row.{
  InvitationRow, MemberRow, OrgDb, OrganizationRow, get_membership, get_organization_by_id,
  member_of, owned_by, rename_organization, renamed, set_owner, update_member_role, with_role,
}
use extension_lab.Sql.Defs.{count_where, find_by, insert_row, update_where}
use extension_lab.Sql.Laws.{count_where-insert, count_where-zero, find_where-holds, one_if}
use extension_lab.Sql.Single.{
  count_where-some, count_where-update_one, count_where-update_same, find_where-update_apart,
}

module _ (db : OrgDb) (k : IsOwned db) where
  -- The member that is handed the organization stays the row it was until it becomes the owner.
  handed_over :
      (org user target : ℕ) (t : MemberRow)
      → get_membership org target db ≡ some t
      → target ≢ user
      → get_membership org target (update_member_role org user admin db) ≡ some t
  unfolding get_membership update_member_role
  handed_over org user target t here apart =
      find_where-update_apart (member_of org target) (member_of org user) (with_role admin)
        (λ r h. ground arith) (λ r. refl) db.members
      ∙ here

  module _ (org user target : ℕ) (actor t : MemberRow)
      (own : get_membership org user db ≡ some actor) (holder : is_owner actor.role ≡ true)
      (here : get_membership org target db ≡ some t) (apart : target ≢ user) where
    one_demoted :
        (a : ℕ)
        → count_where (owner_of a) (update_member_role org user admin db).members
            + one_if (owner_of a actor)
          ≡ count_where (owner_of a) db.members
    unfolding update_member_role get_membership
    one_demoted a = ground (
      arith,
      count_where-update_one (owner_of a) (member_of org user) (with_role admin) db.members actor
          own (k.memberships org user),
    )

    actor_here : actor.organization_id ≡ org
    unfolding get_membership
    actor_here = let q = find_where-holds (member_of org user) db.members actor own in ground arith

    target_here : t.organization_id ≡ org
    unfolding get_membership
    target_here = let q = find_where-holds (member_of org target) db.members t here in ground arith

    target_low : is_owner t.role ≡ false
    unfolding get_membership
    target_low = elim (Bool-cases (is_owner t.role)) [
      | inl h ↦
          let left =
            count_where-some (owner_of org) (member_of org target)
              (update_member_role org user admin db).members t
              (handed_over org user target t here apart) (ground (arith, target_here)) in
          absurd
            (ground (arith, one_demoted org, k.one_owner org, k.identifiers org, actor_here, left))
      | inr h ↦ h
    ]

    one_promoted :
        (a : ℕ)
        → count_where
            (owner_of a)
            (update_member_role org target owner (update_member_role org user admin db)).members
          ≡ count_where (owner_of a) db.members
    unfolding update_member_role get_membership
    one_promoted a =
        let same =
          count_where-update_same (member_of org target) (member_of org user) (with_role admin)
            (λ r. refl) db.members in
        ground (
          arith,
          one_demoted a,
          count_where-update_one (owner_of a) (member_of org target) (with_role owner)
              (update_where (member_of org user) (with_role admin) db.members) t
              (handed_over org user target t here apart)
              (subst (λ n. n ≤ 1) (sym same) (k.memberships org target)),
          actor_here,
          target_here,
          target_low,
        )

    pub transferred-IsOwned :
        (now : ℕ)
        → IsOwned (
            set_owner now org target
              (update_member_role org target owner (update_member_role org user admin db)))
    unfolding set_owner update_member_role
    transferred-IsOwned now = record {
      memberships = λ a b.
          let first =
            count_where-update_same (member_of a b) (member_of org user) (with_role admin)
              (λ r. refl) db.members in
          let second =
            count_where-update_same (member_of a b) (member_of org target) (with_role owner)
              (λ r. refl) (update_where (member_of org user) (with_role admin) db.members) in
          omega (arith, first, second, k.memberships a b);
      identifiers = λ a. omega (
        arith,
        count_where-update_same (has_id a) (λ o. o.id == org) (owned_by now target) (λ o. refl)
            db.organizations,
        k.identifiers a,
      );
      one_owner = λ a.
          one_promoted a
          ∙ k.one_owner a
          ∙ sym (
              count_where-update_same (has_id a) (λ o. o.id == org) (owned_by now target)
                (λ o. refl) db.organizations);
      offers = k.offers;
    }

  -- Writes to the invitations alone.
  pub offered-IsOwned :
      (invitations : List InvitationRow)
      → count_where makes_owner invitations ≡ 0
      → IsOwned (record db { invitations = invitations })
  offered-IsOwned invitations o = record {
    memberships = k.memberships;
    identifiers = k.identifiers;
    one_owner = k.one_owner;
    offers = o;
  }

  pub renamed-IsOwned :
      (now org : ℕ) (name : List ℕ) → IsOwned (rename_organization now org name db)
  unfolding rename_organization
  renamed-IsOwned now org name =
      let same = λ (a : ℕ).
        count_where-update_same (has_id a) (λ o. o.id == org) (renamed now name) (λ o. refl)
          db.organizations in
      record {
        memberships = k.memberships;
        identifiers = λ a. subst (λ n. n ≤ 1) (sym (same a)) (k.identifiers a);
        one_owner = λ a. k.one_owner a ∙ sym (same a);
        offers = k.offers;
      }

  pub founded-IsOwned :
      (o : OrganizationRow) (m : MemberRow)
      → get_organization_by_id o.id db ≡ none
      → get_membership o.id m.user_id db ≡ none
      → m.organization_id ≡ o.id
      → is_owner m.role ≡ true
      → IsOwned (record db {
        organizations = insert_row o db.organizations;
        members = insert_row m db.members;
      })
  unfolding get_organization_by_id find_by
  founded-IsOwned o m new free at top = record {
    memberships =
        inserted_memberships db k m
          (subst (λ i. get_membership i m.user_id db ≡ none) (sym at) free);
    identifiers = λ a.
        let zero_here = count_where-zero (has_id o.id) db.organizations new in
        let more = count_where-insert (has_id a) o db.organizations in
        elim (Bool-cases (o.id == a)) [
          | inl h ↦
              let x : o.id ≡ a = ground arith in
              let z = subst (λ i. count_where (has_id i) db.organizations ≡ 0) x zero_here in
              ground arith
          | inr h ↦ ground (arith, k.identifiers a)
        ];
    one_owner = λ a. ground (
      arith,
      count_where-insert (has_id a) o db.organizations,
      count_where-insert (owner_of a) m db.members,
      k.one_owner a,
    );
    offers = k.offers;
  }
