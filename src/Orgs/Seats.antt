-- ===== src/Orgs/Seats.antt =====
-- What an accepted invitation does, and the seats (lib/organizations/service.ts).
use extension_lab.Common.{
  Option-cases, ap, arith, false, inl, inr, min, none, refl, some, true, ℕ, ◌+◌, ◌<◌, ◌==◌, ◌∙◌,
  ◌≡◌, ◌≤◌,
}
use extension_lab.Orgs.Authorization.{is_ok, ok}
use extension_lab.Orgs.Invitations.{
  accept_invitation, accepted, get_invitation_by_token_hash, is_open,
}
use extension_lab.Orgs.Row.{
  InvitationRow, MemberRow, OrgDb, OrganizationRow, count_members, get_membership,
  get_organization_by_id, insert_member, member_of, new_member,
}
use extension_lab.Sql.Defs.{count_where, find_where, insert_row, update_where}
use extension_lab.Sql.Laws.{count_where-insert}
use extension_lab.Sql.Single.{find_where-insert_new, find_where-update_hit}

-- What acceptInvitation has found and written when it returns.
pub record Accepted (now member_id user address hash max_members : ℕ) (db db' : OrgDb)
    (i : InvitationRow) (o : OrganizationRow) : Type 0 where
  pub offered : get_invitation_by_token_hash hash db ≡ some i
  pub still_open : is_open i ≡ true
  pub in_time : now ≤ i.expires_at
  pub addressed : i.email ≡ address
  pub exists : get_organization_by_id i.organization_id db ≡ some o
  pub outsider : get_membership i.organization_id user db ≡ none
  pub room : count_members i.organization_id db < min max_members o.seats
  pub written : db' ≡ record db {
    members = insert_row (new_member now member_id i.organization_id user i.role) db.members;
    invitations = update_where (λ x. x.id == i.id) (accepted now user) db.invitations;
  }

module _ (now member_id user address hash max_members : ℕ) (db db' : OrgDb)
    (done : accept_invitation now member_id user address hash max_members db ≡ ok db') where
  inversion_at :
      (i : InvitationRow) (o : OrganizationRow)
      → get_invitation_by_token_hash hash db ≡ some i
      → get_organization_by_id i.organization_id db ≡ some o
      → get_membership i.organization_id user db ≡ none
      → Accepted now member_id user address hash max_members db db' i o
  unfolding accept_invitation insert_member get_membership count_members
  inversion_at i o e f g = record {
    offered = e;
    still_open = ground arith;
    in_time = ground arith;
    addressed = ground arith;
    exists = f;
    outsider = g;
    room = ground arith;
    written = ground arith;
  }

  pub accept_invitation-inversion :
      (i : InvitationRow) × (o : OrganizationRow) × Accepted now member_id user address hash
        max_members db db' i o
  unfolding accept_invitation
  accept_invitation-inversion = elim (Option-cases (get_invitation_by_token_hash hash db)) [
    | inl e ↦ absurd (ground arith)
    | inr (i, e) ↦ elim (Option-cases (get_organization_by_id i.organization_id db)) [
      | inl f ↦ absurd (ground arith)
      | inr (o, f) ↦ elim (Option-cases (get_membership i.organization_id user db)) [
        | inl g ↦ (i, o, inversion_at i o e f g)
        | inr (m, g) ↦ absurd (ground arith)
      ]
    ]
  ]

  -- An invitation is accepted only by the account of the invited address, while it is open and in
  -- time, and for an organization that exists and that the account has not joined; the account is
  -- then a member with the role of the invitation, and the members are one more, within the seats
  -- and the plan.
  pub accept_invitation_lem :
      (i : InvitationRow) × (o : OrganizationRow) × (get_invitation_by_token_hash hash db ≡ some i)
      × (is_open i ≡ true)
      × (now ≤ i.expires_at)
      × (i.email ≡ address)
      × (get_organization_by_id i.organization_id db ≡ some o)
      × (get_membership i.organization_id user db ≡ none)
      × (get_membership i.organization_id user db'
          ≡ some (new_member now member_id i.organization_id user i.role))
      × (count_members i.organization_id db' ≡ count_members i.organization_id db + 1)
      × (count_members i.organization_id db' ≤ min max_members o.seats)
  unfolding get_membership count_members
  accept_invitation_lem =
      let (i, o, k) = accept_invitation-inversion in
      let m = new_member now member_id i.organization_id user i.role in
      let same = ap (λ (d : OrgDb). d.members) k.written in
      let more =
        count_where-insert (λ (x : MemberRow). x.organization_id == i.organization_id) m
          db.members in
      let grown : count_members i.organization_id db' ≡ count_members i.organization_id db + 1 =
        ap (count_where (λ x. x.organization_id == i.organization_id)) same ∙ ground arith in
      (
        i,
        o,
        k.offered,
        k.still_open,
        k.in_time,
        k.addressed,
        k.exists,
        k.outsider,
        ap (find_where (member_of i.organization_id user)) same
            ∙ find_where-insert_new (member_of i.organization_id user) m db.members k.outsider
                (ground arith),
        grown,
        omega (arith, grown, k.room),
      )

-- An invitation works once: after it was accepted, a second call with the same token, by any account
-- at any later time, is refused.
pub accept_invitation_once :
    (now member_id user address hash max_members later other_id other whom more : ℕ)
    (db db' : OrgDb)
    → accept_invitation now member_id user address hash max_members db ≡ ok db'
    → is_ok (accept_invitation later other_id other whom hash more db') ≡ false
unfolding accept_invitation get_invitation_by_token_hash
accept_invitation_once now member_id user address hash max_members later other_id other whom more db
      db' done =
    let (i, o, k) =
      accept_invitation-inversion now member_id user address hash max_members db db' done in
    let used : get_invitation_by_token_hash hash db' ≡ some (accepted now user i) =
      ap (λ (d : OrgDb). find_where (λ x. x.token_hash == hash) d.invitations) k.written
      ∙ find_where-update_hit (λ x. x.token_hash == hash) (λ x. x.id == i.id) (accepted now user)
          (λ r. refl) db.invitations i k.offered (ground arith) in
    elim (Option-cases i.revoked_at) [ inl r ↦ ground arith | inr (at, r) ↦ ground arith ]
