-- ===== src/Admin/Versions.antt =====
-- A template that interviews refer to is not edited, but gets a new version.
use ai_interviewer.Prelude.{
  ℕ, zero, suc, ◌≤◌, ◌<◌, String, ◌≡◌, refl, sym, ap, ◌∙◌, inl, inr, true, false, Option, none,
  some, List, arith, ltb, ◌==◌, Bool-cases,
}
use ai_interviewer.Prelude.Result.{Result, ok, err}
use mathlib.Core.Path.{subst}
use ai_interviewer.Auth.Model.{IdentityContext}
use ai_interviewer.Admin.Templates.{
  Template, Change, Db, Outcome, AdminError, organization_of, authorize_mutation, update_template,
  update_row, update_for, update_in, new_version, get_latest_version, is_named, version_in,
}

latest_bound :
    (name : String) (org : Option ℕ) (rows : ℕ → Option Template) (n k : ℕ) (s : Template)
    → k < n
    → rows k ≡ some s
    → is_named name org (some s) ≡ true
    → s.version ≤ get_latest_version name org rows n
unfolding get_latest_version
latest_bound name org rows zero k s below had named = absurd (omega arith)
latest_bound name org rows (suc n) k s below had named = elim (Bool-cases (k == n)) [
  | inl same ↦
      let one : n ≡ k = ground (arith, same) in
      let here : version_in name org (rows n) ≡ s.version =
        ap (λ m. version_in name org (rows m)) (one)
        ∙ ap (version_in name org) had
        ∙ rw named refl in
      ground (arith, here)
  | inr other ↦
      let rest = latest_bound name org rows n k s (ground (arith, other, below)) had named in
      ground (arith, rest)
]

-- What an update that succeeds has done to a template in use.
abbrev Versioned : ℕ → Template → Template → Db → Outcome → Type 0
Versioned id existing s db (err e, after) = Unit
Versioned id existing s db (ok (n, t), after) =
    (n ≡ db.next_id)
    × (after.templates id ≡ some existing)
    × (after.templates n ≡ some t)
    × (s.version < t.version)

module _ (i : IdentityContext) (db : Db) (id k : ℕ) (existing s : Template) (changes : List Change)
    (had : db.templates id ≡ some existing) (used : db.used id ≡ true)
    (fresh : (k : ℕ) → db.next_id ≤ k → db.templates k ≡ none) (row : db.templates k ≡ some s)
    (named : is_named existing.name existing.organization_id (some s) ≡ true) where
  below_next : (m : ℕ) (t : Template) → db.templates m ≡ some t → m < db.next_id
  below_next m t there = elim (Bool-cases (ltb m db.next_id)) [
    | inl below ↦ ground (arith, below)
    | inr above ↦ absurd (cc (sym (fresh m (ground (arith, above))) ∙ there))
  ]

  newer : s.version < (new_version existing changes db).version
  unfolding new_version
  newer =
      let bound =
        latest_bound existing.name existing.organization_id db.templates db.next_id k s
          (below_next k s row) row named in
      ground (arith, bound)

  update_in-Versioned :
      (org : ℕ) (a : Result AdminError Unit)
      → Versioned id existing s db (update_in id existing changes i db org a)
  unfolding update_in
  update_in-Versioned org (err e) = tt
  update_in-Versioned org (ok _) =
      let apart : (id == db.next_id) ≡ false = ground (arith, below_next id existing had) in
      let self : (db.next_id == db.next_id) ≡ true = ground arith in
      rw used (refl, rw apart had, rw self refl, newer)

  update_for-Versioned :
      (r : Result AdminError ℕ) → Versioned id existing s db (update_for id existing changes i db r)
  unfolding update_for
  update_for-Versioned (err e) = tt
  update_for-Versioned (ok org) = update_in-Versioned org (authorize_mutation i org)

  update-Versioned : Versioned id existing s db (update_template id changes i db)
  unfolding update_template update_row
  update-Versioned =
      subst (λ r. Versioned id existing s db (update_row id changes i db r)) (sym had)
        (update_for-Versioned (organization_of existing.organization_id i))

  -- A change of a template that interviews refer to leaves its row as it is, and adds a row whose
  -- version is above that of every row with the name and the organization.
  pub used_template_versioned :
      (n : ℕ) (t : Template) (after : Db)
      → update_template id changes i db ≡ (ok (n, t), after)
      → (n ≡ db.next_id)
        × (after.templates id ≡ some existing)
        × (after.templates n ≡ some t)
        × (s.version < t.version)
  used_template_versioned n t after done = subst (Versioned id existing s db) done update-Versioned
