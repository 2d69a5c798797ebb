-- ===== src/Session/Repository.antt =====
-- app/interview/session/persistence/repository.py: the compare-and-set transitions.
-- Other workers may commit between two statements of one call: `others` says what they did
-- before the UPDATE and before the last reload. `requery` is what the object-relational mapper
-- returns for a row that the session has loaded before, from the loaded object and the row.
use ai_interviewer.Prelude.{
  ℕ, String, Bool, true, false, not, ◌&&◌, Option, none, some, List, [], ◌∷◌, str_eq, if◌then◌else◌,
  any,
}
use ai_interviewer.Prelude.Result.{Result, ok, err}
use ai_interviewer.Session.Status.{
  SubmissionStatus, pending, in_progress, completed, expired, cancelled, reviewed, value, same,
  validate_transition, StateTransitionError,
}
use ai_interviewer.Session.Store.{
  Submission, Table, next_version, version_is, version_differs, owned_by, update_where,
  reload_scoped,
}

pub data RepositoryError : Type 0 where
  not_found : ℕ → RepositoryError
  version_missing : RepositoryError
  changed_concurrently : ℕ → Option ℕ → RepositoryError
  bad_transition : StateTransitionError → RepositoryError

-- The connection: the table, and the transaction's `app.actor`.
pub record Connection : Type 0 where
  pub rows : Table
  pub actor : Option String

-- What others commit before the UPDATE, and between it and the reload.
pub record Others : Type 0 where
  pub before_update : Table → Table
  pub before_reload : Table → Table

abbrev pub Requery : Type 0
Requery = Submission → Submission → Submission

-- What a call returns: the submission, and whether this call made the transition.
abbrev pub Reply : Type 0
Reply = Result RepositoryError (Option Submission × Bool)

-- The arguments by which the five transitions differ.
pub record Transition : Type 0 where
  pub expected_status : SubmissionStatus
  pub target_status : SubmissionStatus
  pub idempotent_status : SubmissionStatus
  pub extra_updates : ℕ → Submission → Submission

-- The three single-source transitions.
abbrev pub to_in_progress : Transition
to_in_progress = record {
  expected_status = pending;
  target_status = in_progress;
  idempotent_status = in_progress;
  extra_updates = λ t row. record row { started_at = some t; consent_captured = true };
}

abbrev pub to_completed : Transition
to_completed = record {
  expected_status = in_progress;
  target_status = completed;
  idempotent_status = completed;
  extra_updates = λ t row. record row { submitted_at = some t };
}

abbrev pub to_expired : Transition
to_expired = record {
  expected_status = in_progress;
  target_status = expired;
  idempotent_status = expired;
  extra_updates = λ t row. record row { submitted_at = some t };
}

-- `if actor: self._set_actor(actor)`; an empty text counts as no actor
unfoldable pub set_actor : Option String → Connection → Connection
set_actor none c = c
set_actor (some a) c = if str_eq a "" then c else record c { actor = some a }

-- The last branch of both transitions, on the row as the reload shows it.
unfoldable pub lost_race : SubmissionStatus → SubmissionStatus → ℕ → ℕ → Option Submission → Reply
lost_race target idempotent sid v none = err (not_found sid)
lost_race target idempotent sid v (some sub) =
    if same sub.status idempotent
    then ok (some sub, false)
    else if version_differs sub.version v
    then err (changed_concurrently v sub.version)
    else err (bad_transition (record { current = value sub.status; target = value target }))

-- A query for a row that the session holds already.
abbrev pub requeried : Requery → Submission → Option Submission → Option Submission
requeried requery loaded none = none
requeried requery loaded (some stored) = some (requery loaded stored)

-- `SET status = :target, updated_at = now(), version = version + 1` and the extra columns
abbrev pub moved_row : SubmissionStatus → (Submission → Submission) → ℕ → Submission → Submission
moved_row target extra now row =
    extra (record row { status = target; updated_at = now; version = next_version row.version })

-- The WHERE clause behind `id = :sid`.
abbrev pub cas_test : SubmissionStatus → ℕ → Option ℕ → Submission → Bool
cas_test expected v cid row =
    same row.status expected && version_is row.version v && owned_by cid row

module _ (requery : Requery) (others : Others) (now : ℕ) where
  -- From the UPDATE on: `expected` is the status in the WHERE clause.
  unfoldable pub compare_and_set :
      SubmissionStatus
      → SubmissionStatus
      → SubmissionStatus
      → (Submission → Submission)
      → ℕ
      → Option ℕ
      → Submission
      → ℕ
      → Connection
      → Reply × Connection
  compare_and_set expected target idempotent extra sid cid loaded v c =
      let (rows', updated) =
        update_where sid (cas_test expected v cid) (moved_row target extra now)
          (others.before_update c.rows) in
      let after = others.before_reload rows' in
      if updated then (ok (reload_scoped rows' sid none, true), record c { rows = rows' }) else (
        lost_race target idempotent sid v (requeried requery loaded (reload_scoped after sid cid)),
        record c { rows = after },
      )

  validated :
      Result StateTransitionError Unit → Reply × Connection → Connection → Reply × Connection
  validated (err e) go c = (err (bad_transition e), c)
  validated (ok _) go c = go

  do_transition_on :
      Transition
      → ℕ
      → Option ℕ
      → Option String
      → Option Submission
      → Connection
      → Reply × Connection
  unfolding validated set_actor
  do_transition_on tr sid cid actor none c = (err (not_found sid), c)
  do_transition_on tr sid cid actor (some sub) c = elim sub.version [
    | none ↦ (err version_missing, c)
    | some v ↦
        if same sub.status tr.idempotent_status
        then (ok (some sub, false), c)
        else validated (validate_transition (value sub.status) (value tr.target_status))
            (compare_and_set tr.expected_status tr.target_status tr.idempotent_status
              (tr.extra_updates now) sid cid sub v (set_actor actor c))
            c
  ]

  -- `_do_transition`
  unfoldable pub do_transition :
      Transition → ℕ → Option ℕ → Option String → Connection → Reply × Connection
  unfolding do_transition_on
  do_transition tr sid cid actor c =
      do_transition_on tr sid cid actor (reload_scoped c.rows sid cid) c

  do_multi_on :
      List SubmissionStatus
      → SubmissionStatus
      → SubmissionStatus
      → ℕ
      → Option String
      → Option Submission
      → Connection
      → Reply × Connection
  unfolding validated set_actor
  do_multi_on expected target idempotent sid actor none c = (err (not_found sid), c)
  do_multi_on expected target idempotent sid actor (some sub) c = elim sub.version [
    | none ↦ (err version_missing, c)
    | some v ↦
        if same sub.status idempotent
        then (ok (some sub, false), c)
        else if not (any (same sub.status) expected)
        then (
          err (bad_transition (record { current = value sub.status; target = value target })),
          c,
        )
        else validated (validate_transition (value sub.status) (value target))
            (compare_and_set sub.status target idempotent (λ row. row) sid none sub v
              (set_actor actor c))
            c
  ]

  -- `_do_multi_source_transition`
  unfoldable pub do_multi_source_transition :
      List SubmissionStatus
      → SubmissionStatus
      → SubmissionStatus
      → ℕ
      → Option String
      → Connection
      → Reply × Connection
  unfolding do_multi_on
  do_multi_source_transition expected target idempotent sid actor c =
      do_multi_on expected target idempotent sid actor (reload_scoped c.rows sid none) c

  unfoldable pub transition_to_in_progress : ℕ → ℕ → Option String → Connection → Reply × Connection
  unfolding do_transition
  transition_to_in_progress sid cid actor = do_transition to_in_progress sid (some cid) actor

  unfoldable pub transition_to_completed :
      ℕ → Option ℕ → Option String → Connection → Reply × Connection
  unfolding do_transition
  transition_to_completed sid cid actor = do_transition to_completed sid cid actor

  unfoldable pub transition_to_expired : ℕ → Option String → Connection → Reply × Connection
  unfolding do_transition
  transition_to_expired sid actor = do_transition to_expired sid none actor

  unfoldable pub transition_to_cancelled : ℕ → Option String → Connection → Reply × Connection
  unfolding do_multi_source_transition
  transition_to_cancelled sid actor =
      do_multi_source_transition (in_progress ∷ pending ∷ []) cancelled cancelled sid actor

  unfoldable pub transition_to_reviewed : ℕ → Option String → Connection → Reply × Connection
  unfolding do_multi_source_transition
  transition_to_reviewed sid actor =
      do_multi_source_transition (completed ∷ expired ∷ cancelled ∷ []) reviewed reviewed sid actor
