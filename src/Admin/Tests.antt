-- ===== src/Admin/Tests.antt =====
-- Two organizations and the base content.
use ai_interviewer.Prelude.{
  ℕ, ◌≤◌, ◌<◌, ◌≡◌, refl, true, false, Option, none, some, List, [], ◌∷◌, arith, ◌==◌,
}
use ai_interviewer.Prelude.Result.{ok}
use ai_interviewer.Auth.Model.{IdentityContext, administrator, admin}
use ai_interviewer.Auth.Permissions.{is_superadmin, is_admin, top_role, enforce_organization_scope}
use ai_interviewer.Admin.Templates.{
  Template, set_name, Db, put, update_template, update_row, update_for, update_in, organization_of,
  authorize_mutation, authorize_admin_operation,
}
use ai_interviewer.Admin.Tenancy.{Call, create, update, deactivate}
use ai_interviewer.Admin.Sequences.{performs, performs_confined}
use ai_interviewer.Admin.Versions.{used_template_versioned}

abbrev template_of : Option ℕ → ℕ → Template
template_of org version = record {
  name = "backend";
  description = none;
  scope = "organization";
  organization_id = org;
  template_structure = "{}";
  rules = none;
  total_estimated_time_minutes = none;
  version = version;
  is_active = true;
}

-- An administrator of organization 3.
abbrev ada : IdentityContext
ada = record {
  user_id = 1;
  user_type = admin;
  token_version = 1;
  issued_at = 5;
  expires_at = 15;
  candidate_id = none;
  organization_id = some 3;
  admin_role = some administrator;
}

-- Templates 7 and 9 are of organization 3, template 8 is of organization 4; 7 is in use.
abbrev db : Db
db = record {
  templates =
      put 7 (template_of (some 3) 1)
        (put 8 (template_of (some 4) 1) (put 9 (template_of (some 3) 6) (λ i. none)));
  next_id = 10;
  used = λ i. i == 7;
  stale = λ i. false;
  audit = [];
}

fresh : (k : ℕ) → 10 ≤ k → db.templates k ≡ none
fresh k above =
    let a : (k == 7) ≡ false = ground arith in
    let b : (k == 8) ≡ false = ground arith in
    let c : (k == 9) ≡ false = ground arith in rw (a, b, c) refl

abbrev calls : List Call
calls =
    update 8 (set_name "theirs" ∷ [])
    ∷ update 7 (set_name "ours" ∷ [])
    ∷ deactivate 8
    ∷ create (template_of (some 4) 1)
    ∷ []

performs_confined_example : (performs calls ada db).templates 8 ≡ some (template_of (some 4) 1)
unfolding is_superadmin is_admin top_role
performs_confined_example =
    performs_confined ada 3 db 8 4 (template_of (some 4) 1) calls refl refl fresh refl refl
      (omega arith) (omega arith)

new_row :
    (t : Template) × (after : Db) × (update_template 7 (set_name "new" ∷ []) ada db
      ≡ (ok (10, t), after))
unfolding update_template update_row update_for update_in organization_of authorize_mutation
    authorize_admin_operation enforce_organization_scope is_superadmin is_admin top_role
new_row = (_, _, refl)

used_template_versioned_example :
    (10 ≡ db.next_id)
    × (new_row.1.templates 7 ≡ some (template_of (some 3) 1))
    × (new_row.1.templates 10 ≡ some new_row.0)
    × (6 < new_row.0.version)
used_template_versioned_example =
    used_template_versioned ada db 7 9 (template_of (some 3) 1) (template_of (some 3) 6)
      (set_name "new" ∷ []) refl refl fresh refl refl 10 new_row.0 new_row.1 new_row.2
