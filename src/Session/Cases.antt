-- ===== src/Session/Cases.antt =====
-- The ways through a transition, as rules for any statement about its outcome.
use ai_interviewer.Prelude.{
  ℕ, String, ◌≡◌, refl, inl, inr, true, false, Option, none, some, List, arith, Bool-cases,
  Option-cases, any,
}
use ai_interviewer.Prelude.Result.{ok, err}
use ai_interviewer.Session.Status.{
  SubmissionStatus, value, same, validate_transition, StateTransitionError,
}
use ai_interviewer.Session.Graph.{valid_or_raises}
use ai_interviewer.Session.Store.{Table, owned_by, Submission, reload_scoped}
use ai_interviewer.Session.Repository.{
  not_found, version_missing, bad_transition, Connection, Others, Requery, Reply, Transition,
  compare_and_set, set_actor, do_transition, do_multi_source_transition,
}
use ai_interviewer.Session.Races.{same_eq}

pub visible :
    (t : Table) (sid : ℕ) (cid : Option ℕ) (row : Submission)
    → t sid ≡ some row
    → owned_by cid row ≡ true
    → reload_scoped t sid cid ≡ some row
unfolding reload_scoped
visible t sid cid row got own = rw (got, reload_scoped) (rw own refl)

module _ (requery : Requery) (others : Others) (now : ℕ) (P : Reply × Connection → Type 0) (sid : ℕ)
    (actor : Option String) (c : Connection) (missing : P (err (not_found sid), c))
    (unversioned : P (err version_missing, c))
    (illegal : (e : StateTransitionError) → P (err (bad_transition e), c)) where
  pub do_transition_cases :
      (tr : Transition) (cid : Option ℕ)
      → ((sub : Submission) → sub.status ≡ tr.idempotent_status → P (ok (some sub, false), c))
      → ((sub : Submission) (v : ℕ)
          → reload_scoped c.rows sid cid ≡ some sub
          → sub.version ≡ some v
          → validate_transition (value sub.status) (value tr.target_status) ≡ ok tt
          → P (
              compare_and_set requery others now tr.expected_status tr.target_status
                tr.idempotent_status
                (tr.extra_updates now)
                sid
                cid
                sub
                v
                (set_actor actor c)))
      → P (do_transition requery others now tr sid cid actor c)
  unfolding do_transition
  do_transition_cases tr cid reached swap = elim (Option-cases (reload_scoped c.rows sid cid)) [
    | inl gone ↦ rw (gone, do_transition) missing
    | inr (sub, got) ↦
        rw (got, do_transition)
          (elim (Option-cases sub.version) [
            | inl nothing ↦ rw (nothing, do_transition) unversioned
            | inr (v, versioned) ↦
                rw (versioned, do_transition)
                  (elim (Bool-cases (same sub.status tr.idempotent_status)) [
                    | inl there ↦
                        rw there (reached sub (same_eq sub.status tr.idempotent_status there))
                    | inr away ↦
                        rw away
                          (elim (valid_or_raises (value sub.status) (value tr.target_status)) [
                            | inl passes ↦
                                rw (passes, do_transition) (swap sub v got versioned passes)
                            | inr raises ↦ rw (raises, do_transition) (illegal _)
                          ])
                  ])
          ])
  ]

  pub do_multi_cases :
      (expected : List SubmissionStatus) (target idempotent : SubmissionStatus)
      → ((sub : Submission) → sub.status ≡ idempotent → P (ok (some sub, false), c))
      → ((sub : Submission) (v : ℕ)
          → reload_scoped c.rows sid none ≡ some sub
          → sub.version ≡ some v
          → validate_transition (value sub.status) (value target) ≡ ok tt
          → P (
              compare_and_set requery others now sub.status target idempotent
                (λ row. row)
                sid
                none
                sub
                v
                (set_actor actor c)))
      → P (do_multi_source_transition requery others now expected target idempotent sid actor c)
  unfolding do_multi_source_transition
  do_multi_cases expected target idempotent reached swap =
      elim (Option-cases (reload_scoped c.rows sid none)) [
        | inl gone ↦ rw (gone, do_multi_source_transition) missing
        | inr (sub, got) ↦
            rw (got, do_multi_source_transition)
              (elim (Option-cases sub.version) [
                | inl nothing ↦ rw (nothing, do_multi_source_transition) unversioned
                | inr (v, versioned) ↦
                    rw (versioned, do_multi_source_transition)
                      (elim (Bool-cases (same sub.status idempotent)) [
                        | inl there ↦ rw there (reached sub (same_eq sub.status idempotent there))
                        | inr away ↦ rw away (elim (Bool-cases (any (same sub.status) expected)) [
                          | inr outside ↦ rw outside (illegal _)
                          | inl inside ↦
                              rw inside (elim (valid_or_raises (value sub.status) (value target)) [
                                | inl passes ↦
                                    rw (passes, do_multi_source_transition)
                                      (swap sub v got versioned passes)
                                | inr raises ↦ rw (raises, do_multi_source_transition) (illegal _)
                              ])
                        ])
                      ])
              ])
      ]

module _ (requery : Requery) (others : Others) (now : ℕ) where
  -- A row that is visible, versioned, away from the target and allowed to move there is swapped.
  pub do_transition_swaps :
      (tr : Transition) (sid : ℕ) (cid : Option ℕ) (actor : Option String) (c : Connection)
      (sub : Submission) {v : ℕ}
      → reload_scoped c.rows sid cid ≡ some sub
      → sub.version ≡ some v
      → same sub.status tr.idempotent_status ≡ false
      → validate_transition (value sub.status) (value tr.target_status) ≡ ok tt
      → do_transition requery others now tr sid cid actor c
        ≡ compare_and_set requery others now tr.expected_status tr.target_status
            tr.idempotent_status
            (tr.extra_updates now)
            sid
            cid
            sub
            v
            (set_actor actor c)
  unfolding do_transition
  do_transition_swaps tr sid cid actor c sub got versioned away passes = ground arith
