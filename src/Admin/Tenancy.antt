-- ===== src/Admin/Tenancy.antt =====
-- An administrator's calls leave the templates of other organizations alone.
use ai_interviewer.Prelude.{
  ℕ, ◌≤◌, ◌≡◌, refl, sym, ap, ◌∙◌, ◌≢◌, inl, inr, Bool, false, Option, none, some, List, arith,
  ◌==◌, Bool-cases,
}
use ai_interviewer.Prelude.Result.{Result, ok, err, Result-cases}
use ai_interviewer.Auth.Model.{IdentityContext}
use ai_interviewer.Auth.Permissions.{is_superadmin, enforce_organization_scope}
use ai_interviewer.Auth.Isolation.{within}
use ai_interviewer.Admin.Templates.{
  Template, Change, Db, Outcome, put, organization_of, authorize_mutation,
  authorize_admin_operation, authorize_base_content_mutation, create_template, update_template,
  update_in, set_template_active, active_in, deactivate_template, exists_with_name, super_org_id,
  AdminError, is_read_only, create_in, create_for, update_for, update_row, active_for, active_row,
  marked, both_or_neither,
}

-- The calls that change templates.
pub data Call : Type 0 where
  create : Template → Call
  update : ℕ → List Change → Call
  set_active : ℕ → Bool → Call
  deactivate : ℕ → Call

abbrev pub perform : Call → IdentityContext → Db → Outcome
perform (create t) i db = create_template t i db
perform (update id changes) i db = update_template id changes i db
perform (set_active id active) i db = set_template_active id active i db
perform (deactivate id) i db = deactivate_template id i db

-- Whom a mutation is allowed to, but for superadmins.
mutates_own :
    (i : IdentityContext) (org : ℕ)
    → is_superadmin i ≡ false
    → authorize_mutation i org ≡ ok tt
    → i.organization_id ≡ some org
unfolding authorize_mutation authorize_admin_operation authorize_base_content_mutation
mutates_own i org below allowed = elim (Bool-cases (org == super_org_id)) [
  | inl base ↦ absurd (cc (rw (base, below, authorize_mutation) at allowed))
  | inr other ↦ elim (Bool-cases (is_read_only i.admin_role)) [
    | inl reader ↦ absurd (cc (rw (other, reader, authorize_mutation) at allowed))
    | inr writer ↦ elim (Result-cases (enforce_organization_scope i org)) [
      | inr (e, bad) ↦ absurd (cc (rw (other, writer, bad, authorize_mutation) at allowed))
      | inl (_, good) ↦ within i org good below
    ]
  ]
]

module _ (i : IdentityContext) (mine : ℕ) (db : Db) (j o : ℕ) (t : Template)
    (below : is_superadmin i ≡ false) (home : i.organization_id ≡ some mine)
    (fresh : (k : ℕ) → db.next_id ≤ k → db.templates k ≡ none) (row : db.templates j ≡ some t)
    (theirs : t.organization_id ≡ some o) (real : o ≢ 0) (foreign : o ≢ mine) where
  abbrev Kept : Outcome → Type 0
  Kept (x, after) = after.templates j ≡ some t

  not_next : (j == db.next_id) ≡ false
  not_next = elim (Bool-cases (j == db.next_id)) [
    | inr apart ↦ apart
    | inl same ↦ absurd (cc (sym (fresh j (ground (arith, same))) ∙ row))
  ]

  -- A row that the call may change is another one.
  another :
      (id org : ℕ) (existing : Template)
      → db.templates id ≡ some existing
      → organization_of existing.organization_id i ≡ ok org
      → authorize_mutation i org ≡ ok tt
      → (j == id) ≡ false
  unfolding organization_of
  another id org existing had of_org allowed = elim (Bool-cases (j == id)) [
    | inr apart ↦ apart
    | inl same ↦
        let one : j ≡ id = ground (arith, same) in
        let this : existing ≡ t = cc (sym had, ap db.templates one, row) in
        let counted : organization_of (some o) i ≡ ok o =
          let nonzero : (o == 0) ≡ false = ground arith in rw nonzero refl in
        let org_is : org ≡ o = cc (
          sym of_org
          ∙ ap (λ (x : Template). organization_of x.organization_id i) this
          ∙ ap (λ x. organization_of x i) theirs
          ∙ counted) in
        absurd (foreign (cc (sym (mutates_own i org below allowed) ∙ home, org_is)))
  ]

  keeps_put : (id : ℕ) (x : Template) → (j == id) ≡ false → put id x db.templates j ≡ some t
  keeps_put id x apart = rw apart row

  create_in-Kept :
      (x : Template) (org : ℕ) (a : Result AdminError Unit) → Kept (create_in x i db org a)
  unfolding create_in
  create_in-Kept x org (err e) = row
  create_in-Kept x org (ok _) =
      elim (Bool-cases (exists_with_name x.name (some org) db.templates db.next_id)) [
        | inl taken ↦ rw taken row
        | inr free ↦ rw (free, not_next) row
      ]

  create-Kept : (x : Template) (r : Result AdminError ℕ) → Kept (create_for x i db r)
  unfolding create_for
  create-Kept x (err e) = row
  create-Kept x (ok org) = create_in-Kept x org (authorize_mutation i org)

  update_in-Kept :
      (id : ℕ) (existing : Template) (changes : List Change) (org : ℕ) (a : Result AdminError Unit)
      → (a ≡ ok tt → (j == id) ≡ false)
      → Kept (update_in id existing changes i db org a)
  unfolding update_in
  update_in-Kept id existing changes org (err e) apart = row
  update_in-Kept id existing changes org (ok _) apart = elim (Bool-cases (db.used id)) [
    | inl used ↦ rw (used, not_next) row
    | inr unused ↦ rw (unused, apart refl) row
  ]

  active_in-Kept :
      (id : ℕ) (existing : Template) (active : Bool) (org : ℕ) (a : Result AdminError Unit)
      → (a ≡ ok tt → (j == id) ≡ false)
      → Kept (active_in id existing active i db org a)
  unfolding active_in
  active_in-Kept id existing active org (err e) apart = row
  active_in-Kept id existing active org (ok _) apart =
      elim (Bool-cases (both_or_neither existing.is_active active)) [
        | inl idle ↦ rw idle row
        | inr moves ↦ rw (moves, apart refl) row
      ]

  update_for-Kept :
      (id : ℕ) (existing : Template) (changes : List Change) (r : Result AdminError ℕ)
      → db.templates id ≡ some existing
      → organization_of existing.organization_id i ≡ r
      → Kept (update_for id existing changes i db r)
  unfolding update_for
  update_for-Kept id existing changes (err e) had of_org = row
  update_for-Kept id existing changes (ok org) had of_org =
      update_in-Kept id existing changes org (authorize_mutation i org)
        (another id org existing had of_org)

  active_for-Kept :
      (id : ℕ) (existing : Template) (active : Bool) (r : Result AdminError ℕ)
      → db.templates id ≡ some existing
      → organization_of existing.organization_id i ≡ r
      → Kept (active_for id existing active i db r)
  unfolding active_for
  active_for-Kept id existing active (err e) had of_org = row
  active_for-Kept id existing active (ok org) had of_org =
      active_in-Kept id existing active org (authorize_mutation i org)
        (another id org existing had of_org)

  update_row-Kept :
      (id : ℕ) (changes : List Change) (r : Option Template)
      → db.templates id ≡ r
      → Kept (update_row id changes i db r)
  unfolding update_row
  update_row-Kept id changes none had = row
  update_row-Kept id changes (some x) had =
      update_for-Kept id x changes (organization_of x.organization_id i) had refl

  active_row-Kept :
      (id : ℕ) (active : Bool) (r : Option Template)
      → db.templates id ≡ r
      → Kept (active_row id active i db r)
  unfolding active_row
  active_row-Kept id active none had = row
  active_row-Kept id active (some x) had =
      active_for-Kept id x active (organization_of x.organization_id i) had refl

  marked-Kept : (id : ℕ) (x : Outcome) → Kept x → Kept (marked id x)
  marked-Kept id (err e, after) h = h
  marked-Kept id (ok x, after) h = h

  -- Whoever is no superadmin, whichever call is made and whether or not it succeeds, leaves each
  -- template of another organization, with an id that is not 0, as it was.
  pub perform_confined : (call : Call) → (perform call i db).1.templates j ≡ some t
  unfolding create_template update_template set_template_active deactivate_template
  perform_confined (create x) = create-Kept x (organization_of x.organization_id i)
  perform_confined (update id changes) = update_row-Kept id changes (db.templates id) refl
  perform_confined (set_active id active) = active_row-Kept id active (db.templates id) refl
  perform_confined (deactivate id) =
      marked-Kept id (set_template_active id false i db)
        (active_row-Kept id false (db.templates id) refl)
