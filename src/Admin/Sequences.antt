-- ===== src/Admin/Sequences.antt =====
-- Any number of calls, one after the other.
use ai_interviewer.Prelude.{
  ℕ, ◌+◌, ◌≤◌, ◌≡◌, refl, sym, ap, ◌∙◌, ◌≢◌, inl, inr, Bool, false, Option, none, some, List, [],
  ◌∷◌, arith, ◌==◌, Bool-cases,
}
use ai_interviewer.Prelude.Result.{Result, ok, err}
use ai_interviewer.Auth.Model.{IdentityContext}
use ai_interviewer.Auth.Permissions.{is_superadmin}
use ai_interviewer.Admin.Templates.{
  Template, Change, Db, Outcome, put, organization_of, authorize_mutation, create_template,
  update_template, update_in, set_template_active, active_in, deactivate_template, exists_with_name,
  AdminError, create_in, create_for, update_for, update_row, active_for, active_row, marked,
  both_or_neither,
}
use ai_interviewer.Admin.Tenancy.{
  Call, create, update, set_active, deactivate, perform, perform_confined,
}

-- No row has the next id, or one above it.
abbrev pub IsFresh : Db → Type 0
IsFresh db = (k : ℕ) → db.next_id ≤ k → db.templates k ≡ none

module _ (i : IdentityContext) (db : Db) (fresh : IsFresh db) where
  abbrev Stays : Outcome → Type 0
  Stays (x, after) = IsFresh after

  put_next : (t : Template) (k : ℕ) → db.next_id + 1 ≤ k → put db.next_id t db.templates k ≡ none
  put_next t k above =
      let apart : (k == db.next_id) ≡ false = ground arith in rw apart (fresh k (omega arith))

  put_old :
      (id : ℕ) (x t : Template)
      → db.templates id ≡ some x
      → (k : ℕ) → db.next_id ≤ k
      → put id t db.templates k ≡ none
  put_old id x t had k above = elim (Bool-cases (k == id)) [
    | inr apart ↦ rw apart (fresh k above)
    | inl same ↦
        let one : k ≡ id = ground (arith, same) in
        absurd (cc (sym (fresh k above) ∙ ap db.templates one ∙ had))
  ]

  create_in-IsFresh :
      (t : Template) (org : ℕ) (a : Result AdminError Unit) → Stays (create_in t i db org a)
  unfolding create_in
  create_in-IsFresh t org (err e) = fresh
  create_in-IsFresh t org (ok _) =
      elim (Bool-cases (exists_with_name t.name (some org) db.templates db.next_id)) [
        | inl taken ↦ rw taken fresh
        | inr free ↦ rw free (put_next (record t { organization_id = some org }))
      ]

  create-IsFresh : (t : Template) (r : Result AdminError ℕ) → Stays (create_for t i db r)
  unfolding create_for
  create-IsFresh t (err e) = fresh
  create-IsFresh t (ok org) = create_in-IsFresh t org (authorize_mutation i org)

  update_in-IsFresh :
      (id : ℕ) (x : Template) (changes : List Change) (org : ℕ) (a : Result AdminError Unit)
      → db.templates id ≡ some x
      → Stays (update_in id x changes i db org a)
  unfolding update_in
  update_in-IsFresh id x changes org (err e) had = fresh
  update_in-IsFresh id x changes org (ok _) had = elim (Bool-cases (db.used id)) [
    | inl used ↦ rw used (put_next _)
    | inr unused ↦ rw unused (put_old id x _ had)
  ]

  update_for-IsFresh :
      (id : ℕ) (x : Template) (changes : List Change) (r : Result AdminError ℕ)
      → db.templates id ≡ some x
      → Stays (update_for id x changes i db r)
  unfolding update_for
  update_for-IsFresh id x changes (err e) had = fresh
  update_for-IsFresh id x changes (ok org) had =
      update_in-IsFresh id x changes org (authorize_mutation i org) had

  update_row-IsFresh :
      (id : ℕ) (changes : List Change) (r : Option Template)
      → db.templates id ≡ r
      → Stays (update_row id changes i db r)
  unfolding update_row
  update_row-IsFresh id changes none had = fresh
  update_row-IsFresh id changes (some x) had =
      update_for-IsFresh id x changes (organization_of x.organization_id i) had

  active_in-IsFresh :
      (id : ℕ) (x : Template) (active : Bool) (org : ℕ) (a : Result AdminError Unit)
      → db.templates id ≡ some x
      → Stays (active_in id x active i db org a)
  unfolding active_in
  active_in-IsFresh id x active org (err e) had = fresh
  active_in-IsFresh id x active org (ok _) had =
      elim (Bool-cases (both_or_neither x.is_active active)) [
        | inl idle ↦ rw idle fresh
        | inr moves ↦ rw moves (put_old id x _ had)
      ]

  active_for-IsFresh :
      (id : ℕ) (x : Template) (active : Bool) (r : Result AdminError ℕ)
      → db.templates id ≡ some x
      → Stays (active_for id x active i db r)
  unfolding active_for
  active_for-IsFresh id x active (err e) had = fresh
  active_for-IsFresh id x active (ok org) had =
      active_in-IsFresh id x active org (authorize_mutation i org) had

  active_row-IsFresh :
      (id : ℕ) (active : Bool) (r : Option Template)
      → db.templates id ≡ r
      → Stays (active_row id active i db r)
  unfolding active_row
  active_row-IsFresh id active none had = fresh
  active_row-IsFresh id active (some x) had =
      active_for-IsFresh id x active (organization_of x.organization_id i) had

  marked-IsFresh : (id : ℕ) (x : Outcome) → Stays x → Stays (marked id x)
  marked-IsFresh id (err e, after) h = h
  marked-IsFresh id (ok x, after) h = h

  perform-IsFresh : (call : Call) → Stays (perform call i db)
  unfolding create_template update_template set_template_active deactivate_template
  perform-IsFresh (create t) = create-IsFresh t (organization_of t.organization_id i)
  perform-IsFresh (update id changes) = update_row-IsFresh id changes (db.templates id) refl
  perform-IsFresh (set_active id active) = active_row-IsFresh id active (db.templates id) refl
  perform-IsFresh (deactivate id) =
      marked-IsFresh id (set_template_active id false i db)
        (active_row-IsFresh id false (db.templates id) refl)

abbrev pub performs : List Call → IdentityContext → Db → Db
performs [] i db = db
performs (call ∷ calls) i db = performs calls i (perform call i db).1

-- Where no row has the next id or one above it: whoever is no superadmin, whatever calls are made
-- one after the other and whether or not they succeed, leaves each template of another
-- organization, with an id that is not 0, as it was.
pub performs_confined :
    (i : IdentityContext) (mine : ℕ) (db : Db) (j o : ℕ) (t : Template) (calls : List Call)
    → is_superadmin i ≡ false
    → i.organization_id ≡ some mine
    → IsFresh db
    → db.templates j ≡ some t
    → t.organization_id ≡ some o
    → o ≢ 0
    → o ≢ mine
    → (performs calls i db).templates j ≡ some t
performs_confined i mine db j o t [] below home fresh row theirs real foreign = row
performs_confined i mine db j o t (call ∷ calls) below home fresh row theirs real foreign =
    performs_confined i mine (perform call i db).1 j o t calls below home
      (perform-IsFresh i db fresh call)
      (perform_confined i mine db j o t below home fresh row theirs real foreign call) theirs real
      foreign
