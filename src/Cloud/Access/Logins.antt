-- ===== src/Cloud/Access/Logins.antt =====
-- service.ts, `authenticateDashboard`: the first login of a member and the next.
use quorvel.Common.{
  ℕ, String, ◌≡◌, ◌∙◌, refl, ap, sym, inl, inr, Bool, true, false, Option, none, some, [], ◌∷◌,
  str_eq, eq_iff, opt_eq, Option-cases, arith, find,
}
use quorvel.Common.Dict.{Dict, insert, values, lookup-insert}
use quorvel.Cloud.Errors.{ok}
use quorvel.Cloud.Access.{
  Org, Membership, Directory, get_org_by_clerk_id, get_membership, member_key,
}
use quorvel.Cloud.Access.Keys.{Fresh}
use quorvel.Cloud.Access.Calls.{Login, provision_org, authenticate_dashboard, as_member, new_org}

find-insert :
    {V : Type 0} (p : V → Bool) (k : String) (v : V) (m : Dict V)
    → find p (values m) ≡ none
    → p v ≡ true
    → find p (values (insert k v m)) ≡ some v
unfolding values insert
find-insert p k v [] f h = rw h refl
find-insert p k v ((j, w) ∷ m) f h = ground (arith, f, h, find-insert p k v m)

module _ (sha256 : String → String) (clerk_org user : String) where
  -- the login of one who is a member
  known_member :
      (now : ℕ) (fresh : Fresh) (name : Option String) (org : Org) (m : Membership) (d : Directory)
      → (str_eq clerk_org "" ≡ false) × (str_eq user "" ≡ false)
      → get_org_by_clerk_id clerk_org d ≡ some org
      → get_membership user org.id d ≡ some m
      → authenticate_dashboard sha256 now fresh clerk_org user name d
        ≡ (ok (record { org_id = org.id; role = m.role }), d)
  unfolding authenticate_dashboard
  known_member now fresh name org m d (a, b) f g =
      rw (authenticate_dashboard, a, b, f, as_member, g) refl

  -- what a login leaves behind: the organisation and the membership that it answers with
  pub record IsMember (l : Login) (d : Directory) : Type 0 where
    pub org : Org
    pub member : Membership
    pub has_org : get_org_by_clerk_id clerk_org d ≡ some org
    pub has_member : get_membership user org.id d ≡ some member
    pub login : l ≡ record { org_id = org.id; role = member.role }

  -- the first login of an organisation
  provisioned :
      (now : ℕ) (fresh : Fresh) (name : Option String) (d : Directory)
      → (str_eq clerk_org "" ≡ false) × (str_eq user "" ≡ false)
      → get_org_by_clerk_id clerk_org d ≡ none
      → let (answer, d') = authenticate_dashboard sha256 now fresh clerk_org user name d in
        (l : Login) × (answer ≡ ok l) × IsMember l d'
  unfolding authenticate_dashboard provision_org get_org_by_clerk_id
  provisioned now fresh name d (a, b) f =
      let org = new_org sha256 now fresh name "free" (some clerk_org) in
      let row : Membership = record {
        clerk_user_id = user;
        org_id = org.id;
        role = "owner";
        created_at = now;
      } in
      rw (authenticate_dashboard, a, b, f, provision_org, a, b, f)
        (
          record { org_id = org.id; role = "owner" },
          refl,
          record {
            org = org;
            member = row;
            has_org =
                find-insert (λ o. opt_eq o.clerk_org_id (some clerk_org)) org.id org d.orgs f
                  (ground (arith, eq_iff clerk_org clerk_org));
            has_member =
                lookup-insert (member_key user org.id) (member_key user org.id) row d.memberships
                ∙ ground (arith, eq_iff (member_key user org.id) (member_key user org.id));
            login = refl;
          },
        )

  -- the first login of a user to an organisation that is there
  joined :
      (now : ℕ) (fresh : Fresh) (name : Option String) (org : Org) (d : Directory)
      → (str_eq clerk_org "" ≡ false) × (str_eq user "" ≡ false)
      → get_org_by_clerk_id clerk_org d ≡ some org
      → get_membership user org.id d ≡ none
      → let (answer, d') = authenticate_dashboard sha256 now fresh clerk_org user name d in
        (l : Login) × (answer ≡ ok l) × IsMember l d'
  unfolding authenticate_dashboard get_org_by_clerk_id
  joined now fresh name org d (a, b) f g =
      let row : Membership = record {
        clerk_user_id = user;
        org_id = org.id;
        role = "member";
        created_at = now;
      } in
      rw (authenticate_dashboard, a, b, f, as_member, g)
        (
          record { org_id = org.id; role = "member" },
          refl,
          record {
            org = org;
            member = row;
            has_org = f;
            has_member =
                lookup-insert (member_key user org.id) (member_key user org.id) row d.memberships
                ∙ ground (arith, eq_iff (member_key user org.id) (member_key user org.id));
            login = refl;
          },
        )

  first_login :
      (now : ℕ) (fresh : Fresh) (name : Option String) (d : Directory)
      → (str_eq clerk_org "" ≡ false) × (str_eq user "" ≡ false)
      → let (answer, d') = authenticate_dashboard sha256 now fresh clerk_org user name d in
        (l : Login) × (answer ≡ ok l) × IsMember l d'
  first_login now fresh name d given = elim (Option-cases (get_org_by_clerk_id clerk_org d)) [
    | inl f ↦ provisioned now fresh name d given f
    | inr (org, f) ↦ elim (Option-cases (get_membership user org.id d)) [
      | inl g ↦ joined now fresh name org d given f g
      | inr (m, g) ↦ rw (known_member now fresh name org m d given f g) (
        record { org_id = org.id; role = m.role },
        refl,
        record { org = org; member = m; has_org = f; has_member = g; login = refl },
      )
    ]
  ]

  -- A login with both identifiers is let in, and the next one of the same user to the same
  -- organisation answers with the same organisation and role and writes nothing, whatever it draws at
  -- random, whenever it comes and whatever name it gives.
  pub authenticate_dashboard-again :
      (now later : ℕ) (fresh other : Fresh) (name alias : Option String) (d : Directory)
      → (str_eq clerk_org "" ≡ false) × (str_eq user "" ≡ false)
      → let (answer, d') = authenticate_dashboard sha256 now fresh clerk_org user name d in
        ((l : Login) × (answer ≡ ok l))
        × (authenticate_dashboard sha256 later other clerk_org user alias d' ≡ (answer, d'))
  authenticate_dashboard-again now later fresh other name alias d given =
      let (l, e, m) = first_login now fresh name d given in
      let d' = (authenticate_dashboard sha256 now fresh clerk_org user name d).1 in
      (
        (l, e),
        known_member later other alias m.org m.member d' given m.has_org m.has_member
            ∙ ap (λ x. (x, d')) (ap ok (sym m.login) ∙ sym e),
      )
