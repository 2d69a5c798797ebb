-- ===== src/Admin/Templates.antt =====
-- app/admin/domain/: authorization.py, the template of entities.py and the template service of
-- services.py, with what its repositories do to the rows. The structure and the rules of a template
-- are texts; dates are left out.
use ai_interviewer.Prelude.{
  ℕ, zero, suc, ◌+◌, String, Bool, true, false, not, ◌&&◌, ◌||◌, Option, none, some, List, [], ◌∷◌,
  ◌++◌, str_eq, ltb, ◌==◌, if◌then◌else◌,
}
use ai_interviewer.Prelude.Result.{Result, ok, err, raise_if}
use ai_interviewer.Auth.Model.{AdminRole, read_only, IdentityContext}
use ai_interviewer.Auth.Permissions.{
  AccessError, enforce_organization_scope, is_superadmin, superadmin_required,
}

abbrev pub super_org_id : ℕ
super_org_id = 1

pub record Template : Type 0 where
  pub name : String
  pub description : Option String
  pub scope : String
  pub organization_id : Option ℕ
  pub template_structure : String
  pub rules : Option String
  pub total_estimated_time_minutes : Option ℕ
  pub version : ℕ
  pub is_active : Bool

-- An item of `changes`: the fields of the entity. The others are passed over.
pub data Change : Type 0 where
  set_name set_scope set_template_structure : String → Change
  set_description set_rules : Option String → Change
  set_total_estimated_time_minutes set_organization_id : Option ℕ → Change
  set_is_active : Bool → Change
  passed_over : String → Change

pub data AdminError : Type 0 where
  template_not_found : ℕ → AdminError
  name_taken : String → ℕ → AdminError
  access : AccessError → AdminError
  read_only_admin : AdminError
  -- the assertion that an administrator has an organization
  no_organization : AdminError

pub data Action : Type 0 where
  created updated activated deactivated : Action
  versioned : ℕ → Action

pub record AuditLog : Type 0 where
  pub organization_id : ℕ
  pub actor_user_id : ℕ
  pub action : Action
  pub entity_id : ℕ

-- The rows by id, below the next id; the template ids that submissions refer to; the overrides of a
-- template that are stale.
pub record Db : Type 0 where
  pub templates : ℕ → Option Template
  pub next_id : ℕ
  pub used : ℕ → Bool
  pub stale : ℕ → Bool
  pub audit : List AuditLog

abbrev pub Outcome : Type 0
Outcome = Result AdminError (ℕ × Template) × Db

abbrev pub lifted : Result AccessError Unit → Result AdminError Unit
lifted (ok _) = ok tt
lifted (err e) = err (access e)

abbrev pub is_read_only : Option AdminRole → Bool
is_read_only (some read_only) = true
is_read_only _ = false

-- For an operation that changes something.
unfoldable pub authorize_admin_operation : IdentityContext → ℕ → Result AdminError Unit
authorize_admin_operation i o =
    if is_read_only i.admin_role
    then err read_only_admin
    else lifted (enforce_organization_scope i o)

unfoldable pub authorize_base_content_mutation : IdentityContext → Result AdminError Unit
authorize_base_content_mutation i = raise_if (not (is_superadmin i)) (access superadmin_required)

unfoldable pub authorize_mutation : IdentityContext → ℕ → Result AdminError Unit
authorize_mutation i o =
    if o == super_org_id then authorize_base_content_mutation i else authorize_admin_operation i o

abbrev own : Option ℕ → Result AdminError ℕ
own none = err no_organization
own (some o) = ok o

-- `template.organization_id or _effective_org_id(identity)`
unfoldable pub organization_of : Option ℕ → IdentityContext → Result AdminError ℕ
organization_of none i = own i.organization_id
organization_of (some o) i = if o == 0 then own i.organization_id else ok o

-- A query for no organization is one for NULL.
abbrev same_org : Option ℕ → Option ℕ → Bool
same_org none none = true
same_org none (some b) = false
same_org (some a) none = false
same_org (some a) (some b) = a == b

abbrev pub is_named : String → Option ℕ → Option Template → Bool
is_named name org none = false
is_named name org (some t) = str_eq t.name name && same_org t.organization_id org

unfoldable pub exists_with_name : String → Option ℕ → (ℕ → Option Template) → ℕ → Bool
exists_with_name name org rows zero = false
exists_with_name name org rows (suc n) =
    is_named name org (rows n) || exists_with_name name org rows n

abbrev pub version_in : String → Option ℕ → Option Template → ℕ
version_in name org none = 0
version_in name org (some t) = if is_named name org (some t) then t.version else 0

abbrev pub max : ℕ → ℕ → ℕ
max a b = if ltb a b then b else a

-- 0 for the NULL of no row, or of the version 0.
unfoldable pub get_latest_version : String → Option ℕ → (ℕ → Option Template) → ℕ → ℕ
get_latest_version name org rows zero = 0
get_latest_version name org rows (suc n) =
    max (version_in name org (rows n)) (get_latest_version name org rows n)

abbrev pub put : ℕ → Template → (ℕ → Option Template) → ℕ → Option Template
put id t rows i = if i == id then some t else rows i

abbrev pub log : ℕ → IdentityContext → Action → ℕ → Db → Db
log org i action id db = record db {
  audit =
      db.audit
      ++ record {
        organization_id = org;
        actor_user_id = i.user_id;
        action = action;
        entity_id = id;
      }
        ∷ [];
}

abbrev pub inserted : Template → Db → Db
inserted t db = record db { templates = put db.next_id t db.templates; next_id = db.next_id + 1 }

abbrev pub stored : ℕ → Template → Db → Db
stored id t db = record db { templates = put id t db.templates }

abbrev pub apply_change : Change → Template → Template
apply_change (set_name s) t = record t { name = s }
apply_change (set_scope s) t = record t { scope = s }
apply_change (set_template_structure s) t = record t { template_structure = s }
apply_change (set_description s) t = record t { description = s }
apply_change (set_rules s) t = record t { rules = s }
apply_change (set_total_estimated_time_minutes n) t = record t { total_estimated_time_minutes = n }
apply_change (set_organization_id o) t = record t { organization_id = o }
apply_change (set_is_active b) t = record t { is_active = b }
apply_change (passed_over k) t = t

unfoldable pub apply_changes : List Change → Template → Template
apply_changes [] t = t
apply_changes (c ∷ cs) t = apply_changes cs (apply_change c t)

abbrev raised : AdminError → Db → Outcome
raised e db = (err e, db)

unfoldable pub create_in : Template → IdentityContext → Db → ℕ → Result AdminError Unit → Outcome
create_in t i db org (err e) = raised e db
create_in t i db org (ok _) =
    if exists_with_name t.name (some org) db.templates db.next_id
    then raised (name_taken t.name org) db
    else (
      ok (db.next_id, record t { organization_id = some org }),
      log org i created db.next_id (inserted (record t { organization_id = some org }) db),
    )

unfoldable pub create_for : Template → IdentityContext → Db → Result AdminError ℕ → Outcome
create_for t i db (err e) = raised e db
create_for t i db (ok org) = create_in t i db org (authorize_mutation i org)

unfoldable pub create_template : Template → IdentityContext → Db → Outcome
create_template t i db = create_for t i db (organization_of t.organization_id i)

abbrev pub or_version : ℕ → ℕ → ℕ
or_version latest version = if latest == 0 then version else latest

-- `create_new_version`, the changes, and the version after the latest.
unfoldable pub new_version : Template → List Change → Db → Template
new_version existing changes db = record (apply_changes changes existing) {
  version =
      or_version (get_latest_version existing.name existing.organization_id db.templates db.next_id)
        existing.version
      + 1;
}

unfoldable pub update_in :
    ℕ → Template → List Change → IdentityContext → Db → ℕ → Result AdminError Unit → Outcome
update_in id existing changes i db org (err e) = raised e db
update_in id existing changes i db org (ok _) =
    if db.used id
    then (
      ok (db.next_id, new_version existing changes db),
      log org i (versioned id) db.next_id (inserted (new_version existing changes db) db),
    )
    else (
      ok (id, apply_changes changes existing),
      log org i updated id (stored id (apply_changes changes existing) db),
    )

unfoldable pub update_for :
    ℕ → Template → List Change → IdentityContext → Db → Result AdminError ℕ → Outcome
update_for id existing changes i db (err e) = raised e db
update_for id existing changes i db (ok org) =
    update_in id existing changes i db org (authorize_mutation i org)

unfoldable pub update_row : ℕ → List Change → IdentityContext → Db → Option Template → Outcome
update_row id changes i db none = raised (template_not_found id) db
update_row id changes i db (some existing) =
    update_for id existing changes i db (organization_of existing.organization_id i)

unfoldable pub update_template : ℕ → List Change → IdentityContext → Db → Outcome
update_template id changes i db = update_row id changes i db (db.templates id)

abbrev pub both_or_neither : Bool → Bool → Bool
both_or_neither true b = b
both_or_neither false b = not b

abbrev action_of : Bool → Action
action_of true = activated
action_of false = deactivated

unfoldable pub active_in :
    ℕ → Template → Bool → IdentityContext → Db → ℕ → Result AdminError Unit → Outcome
active_in id existing active i db org (err e) = raised e db
active_in id existing active i db org (ok _) =
    if both_or_neither existing.is_active active then (ok (id, existing), db) else (
      ok (id, record existing { is_active = active }),
      log org i (action_of active) id (stored id (record existing { is_active = active }) db),
    )

unfoldable pub active_for :
    ℕ → Template → Bool → IdentityContext → Db → Result AdminError ℕ → Outcome
active_for id existing active i db (err e) = raised e db
active_for id existing active i db (ok org) =
    active_in id existing active i db org (authorize_mutation i org)

unfoldable pub active_row : ℕ → Bool → IdentityContext → Db → Option Template → Outcome
active_row id active i db none = raised (template_not_found id) db
active_row id active i db (some existing) =
    active_for id existing active i db (organization_of existing.organization_id i)

-- `_set_template_active`; `activate_template` with `true`.
unfoldable pub set_template_active : ℕ → Bool → IdentityContext → Db → Outcome
set_template_active id active i db = active_row id active i db (db.templates id)

abbrev pub marked : ℕ → Outcome → Outcome
marked id (err e, db) = (err e, db)
marked id (ok x, db) = (ok x, record db { stale = λ j. if j == id then true else db.stale j })

unfoldable pub deactivate_template : ℕ → IdentityContext → Db → Outcome
deactivate_template id i db = marked id (set_template_active id false i db)
