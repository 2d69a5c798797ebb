-- ===== src/Session/StaleReload.antt =====
-- The reload after a lost race goes through the session's identity map: the mapper documents that
-- a query does not overwrite the attributes of an object that the session holds already, unless
-- it was expired, and only the winning branch calls `expire_all`. `caching` is that mapper.
use ai_interviewer.Prelude.{
  ℕ, String, ◌≡◌, refl, ap, ◌∙◌, ◌≢◌, inl, inr, false, Option, none, some, List, [], ◌∷◌, arith,
  Bool-cases, Option-cases,
}
use ai_interviewer.Prelude.Result.{ok, err}
use ai_interviewer.Session.Status.{
  SubmissionStatus, pending, in_progress, completed, expired, cancelled, reviewed, value,
  validate_transition, of_value,
}
use ai_interviewer.Session.Store.{Submission, version_is}
use ai_interviewer.Session.Repository.{
  changed_concurrently, bad_transition, Connection, Others, Requery, Reply, compare_and_set,
  set_actor, do_transition, do_multi_source_transition, lost_race, to_in_progress, to_completed,
  to_expired, cas_test, Transition, requeried, transition_to_in_progress, transition_to_completed,
  transition_to_expired, transition_to_cancelled, transition_to_reviewed,
}
use ai_interviewer.Session.Service.{
  Command, start, complete, expire, cancel, review, transition, actor_of,
}
use ai_interviewer.Session.Cases.{visible, do_transition_swaps, do_transition_cases, do_multi_cases}
use ai_interviewer.Session.Races.{compare_and_set_hit, compare_and_set_gone, compare_and_set_miss}

abbrev pub caching : Requery
caching loaded stored = loaded

-- A mapper that takes the row's attributes anew.
abbrev pub refreshing : Requery
refreshing loaded stored = stored

-- The reply is not the error of a concurrent change.
abbrev NoConflict : Reply × Connection → Type 0
NoConflict (r, _) = (v : ℕ) (w : Option ℕ) → r ≢ err (changed_concurrently v w)

lost-NoConflict :
    (target idempotent : SubmissionStatus) (sid v : ℕ) (loaded : Submission) (r : Option Submission)
    (c : Connection)
    → loaded.version ≡ some v
    → NoConflict (lost_race target idempotent sid v (requeried caching loaded r), c)
unfolding lost_race
lost-NoConflict target idempotent sid v loaded none c versioned u w q = cc
lost-NoConflict target idempotent sid v loaded (some r) c versioned u w q = ground arith

module _ (others : Others) (now : ℕ) where
  cas-NoConflict :
      (expected target idempotent : SubmissionStatus) (extra : Submission → Submission) (sid : ℕ)
      (cid : Option ℕ) (loaded : Submission) (v : ℕ) (c : Connection)
      → loaded.version ≡ some v
      → NoConflict
          (compare_and_set caching others now expected target idempotent extra sid cid loaded v c)
  cas-NoConflict expected target idempotent extra sid cid loaded v c versioned =
      elim (Option-cases (others.before_update c.rows sid)) [
        | inl gone ↦
            rw
              (compare_and_set_gone caching others now expected target idempotent extra sid cid
                loaded v c gone)
              (lost-NoConflict target idempotent sid v loaded _ c versioned)
        | inr (row, found) ↦ elim (Bool-cases (cas_test expected v cid row)) [
          | inl hit ↦
              rw
                (compare_and_set_hit caching others now expected target idempotent extra sid cid
                  loaded v c row found hit)
                (λ u w q. cc)
          | inr miss ↦
              rw
                (compare_and_set_miss caching others now expected target idempotent extra sid cid
                  loaded v c row found miss)
                (lost-NoConflict target idempotent sid v loaded _ c versioned)
        ]
      ]

  do_transition-NoConflict :
      (tr : Transition) (sid : ℕ) (cid : Option ℕ) (actor : Option String) (c : Connection)
      → NoConflict (do_transition caching others now tr sid cid actor c)
  do_transition-NoConflict tr sid cid actor c =
      do_transition_cases caching others now NoConflict sid actor c (λ u w q. cc) (λ u w q. cc)
        (λ x u w q. cc) tr cid (λ sub there u w q. cc)
        (λ sub v got versioned _.
          cas-NoConflict tr.expected_status tr.target_status tr.idempotent_status
            (tr.extra_updates now) sid cid sub v (set_actor actor c) versioned)

  do_multi-NoConflict :
      (expected : List SubmissionStatus) (target idempotent : SubmissionStatus) (sid : ℕ)
      (actor : Option String) (c : Connection)
      → NoConflict
          (do_multi_source_transition caching others now expected target idempotent sid actor c)
  do_multi-NoConflict expected target idempotent sid actor c =
      do_multi_cases caching others now NoConflict sid actor c (λ u w q. cc) (λ u w q. cc)
        (λ x u w q. cc) expected target idempotent (λ sub there u w q. cc)
        (λ sub v got versioned _.
          cas-NoConflict sub.status target idempotent (λ row. row) sid none sub v
            (set_actor actor c) versioned)

  -- With an identity map that keeps what it has loaded, no command ever raises the error for a
  -- concurrent change, whatever the others commit.
  pub never_changed_concurrently :
      (cmd : Command) (sid : ℕ) (who : String) (c : Connection) (v : ℕ) (w : Option ℕ)
      → (transition caching others now cmd sid who c).0 ≢ err (changed_concurrently v w)
  unfolding transition transition_to_in_progress transition_to_completed transition_to_expired
      transition_to_cancelled transition_to_reviewed
  never_changed_concurrently (start cid) sid who c =
      do_transition-NoConflict to_in_progress sid (some cid) (actor_of (start cid) who) c
  never_changed_concurrently (complete cid) sid who c =
      do_transition-NoConflict to_completed sid cid (actor_of (complete cid) who) c
  never_changed_concurrently expire sid who c =
      do_transition-NoConflict to_expired sid none (actor_of expire who) c
  never_changed_concurrently cancel sid who c =
      do_multi-NoConflict (in_progress ∷ pending ∷ []) cancelled cancelled sid (actor_of cancel who)
        c
  never_changed_concurrently review sid who c =
      do_multi-NoConflict (completed ∷ expired ∷ cancelled ∷ []) reviewed reviewed sid
        (actor_of review who) c

-- What a completion reports after it read version `v` of a row in progress and another worker
-- raised the version before its UPDATE: a refreshed reload shows the change, the identity map
-- makes of it a refused transition from `in_progress` to `completed`, which the table allows.
module _ (o : Others) (now sid v : ℕ) (who : String) (c : Connection) (read row later : Submission)
    (seen : c.rows sid ≡ some read) (running : read.status ≡ in_progress)
    (at : read.version ≡ some v) (met : o.before_update c.rows sid ≡ some row)
    (raised : version_is row.version v ≡ false)
    (stands : o.before_reload (o.before_update c.rows) sid ≡ some later) where
  complete_lost :
      (requery : Requery)
      → (transition requery o now (complete none) sid who c).0
        ≡ lost_race completed completed sid v (some (requery read later))
  unfolding transition transition_to_completed set_actor
  complete_lost requery =
      ap (λ (x : Reply × Connection). x.0)
        (do_transition_swaps requery o now to_completed sid none (some "system:complete") c read
            (visible c.rows sid none read seen refl) at (rw running refl)
            (unfold validate_transition value of_value in rw running refl)
          ∙ compare_and_set_miss requery o now in_progress completed completed
              (to_completed.extra_updates now) sid none read v
              (record c { actor = some "system:complete" }) row met (ground arith))
      ∙ ap
          (λ (r : Option Submission).
            lost_race completed completed sid v (requeried requery read r))
          (visible (o.before_reload (o.before_update c.rows)) sid none later stands refl)

  -- If a completion has read a row in progress, another worker has raised the version before the
  -- UPDATE, and the reload finds the row neither at the version read nor completed: with the
  -- identity map the completion raises a transition error for a pair that the transition table
  -- allows; with a refreshed reload it raises the conflict.
  pub lost_completion :
      later.version ≢ some v
      → later.status ≢ completed
      → ((transition caching o now (complete none) sid who c).0
          ≡ err (bad_transition (record { current = "in_progress"; target = "completed" })))
        × (validate_transition "in_progress" "completed" ≡ ok tt)
        × ((transition refreshing o now (complete none) sid who c).0
            ≡ err (changed_concurrently v later.version))
  unfolding lost_race validate_transition value of_value
  lost_completion ne away = (rw complete_lost (ground arith), refl, rw complete_lost (ground arith))
