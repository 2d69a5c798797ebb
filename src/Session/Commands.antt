-- ===== src/Session/Commands.antt =====
-- The five session commands under interference: what a reported transition means, that no two
-- workers win the same version, and that a repeated command changes nothing.
use ai_interviewer.Prelude.{
  ℕ, String, ◌≡◌, refl, ap, ◌∙◌, inl, Option, none, some, List, [], ◌∷◌, arith,
}
use mathlib.Core.Path.{subst}
use ai_interviewer.Session.Status.{
  SubmissionStatus, pending, in_progress, completed, expired, cancelled, reviewed,
}
use ai_interviewer.Session.Graph.{◌⟶◌, finish, time_out, edges, step_of_valid, valid_or_raises}
use ai_interviewer.Session.Graph
use ai_interviewer.Session.Store.{Submission, Table, reload_scoped}
use ai_interviewer.Session.Repository.{
  Connection, Others, Requery, compare_and_set, set_actor, do_transition,
  do_multi_source_transition, to_in_progress, to_completed, to_expired, transition_to_in_progress,
  Transition, transition_to_completed, transition_to_expired, transition_to_cancelled,
  transition_to_reviewed,
}
use ai_interviewer.Session.Service.{
  Command, start, complete, expire, cancel, review, target, transition, actor_of,
}
use ai_interviewer.Session.Cases.{do_transition_cases, do_multi_cases}
use ai_interviewer.Session.Races.{Sound, Extra, compare_and_set-Sound}

-- The candidate that a command's queries are restricted to.
abbrev pub who_sees : Command → Option ℕ
who_sees (start cid) = some cid
who_sees (complete cid) = cid
who_sees _ = none

rows-set_actor : (a : Option String) (c : Connection) → (set_actor a c).rows ≡ c.rows
unfolding set_actor
rows-set_actor none c = refl
rows-set_actor (some a) c = ground arith

found_scoped :
    (t : Table) (sid : ℕ) (cid : Option ℕ) (sub : Submission)
    → reload_scoped t sid cid ≡ some sub
    → t sid ≡ some sub
unfolding reload_scoped
found_scoped t sid cid sub h = ground arith

module _ (requery : Requery) (others : Others) (now : ℕ) where
  -- The compare-and-set, seen from before `set_actor`.
  cas-Sound :
      (expected target idempotent : SubmissionStatus) (extra : Submission → Submission) (sid : ℕ)
      (cid : Option ℕ) (sub : Submission) (v : ℕ) (actor : Option String) (c : Connection)
      → Extra extra
      → idempotent ≡ target
      → expected ⟶ target
      → c.rows sid ≡ some sub
      → sub.version ≡ some v
      → Sound others target sid cid c.rows (
          compare_and_set requery others now expected target idempotent extra sid cid sub v
            (set_actor actor c))
  cas-Sound expected target idempotent extra sid cid sub v actor c ex i e got versioned =
      subst
        (λ t. Sound others target sid cid t (
          compare_and_set requery others now expected target idempotent extra sid cid sub v
            (set_actor actor c)))
        (rows-set_actor actor c)
        (compare_and_set-Sound requery others now expected target idempotent extra sid cid sub v
          (set_actor actor c) ex i e sub (ap (λ (t : Table). t sid) (rows-set_actor actor c) ∙ got)
          versioned)

  do_transition-Sound :
      (tr : Transition) (sid : ℕ) (cid : Option ℕ) (actor : Option String) (c : Connection)
      → Extra (tr.extra_updates now)
      → tr.idempotent_status ≡ tr.target_status
      → tr.expected_status ⟶ tr.target_status
      → Sound others tr.target_status sid cid c.rows
          (do_transition requery others now tr sid cid actor c)
  do_transition-Sound tr sid cid actor c ex i e =
      do_transition_cases requery others now (Sound others tr.target_status sid cid c.rows) sid
        actor c (inl refl) (inl refl) (λ x. inl refl) tr cid
        (λ sub there. ((sub, refl, there ∙ i), inl refl))
        (λ sub v got versioned _.
          cas-Sound tr.expected_status tr.target_status tr.idempotent_status (tr.extra_updates now)
            sid cid sub v actor c ex i e (found_scoped c.rows sid cid sub got) versioned)

  do_multi-Sound :
      (expected : List SubmissionStatus) (target idempotent : SubmissionStatus) (sid : ℕ)
      (actor : Option String) (c : Connection)
      → idempotent ≡ target
      → Sound others target sid none c.rows
          (do_multi_source_transition requery others now expected target idempotent sid actor c)
  do_multi-Sound expected target idempotent sid actor c i =
      do_multi_cases requery others now (Sound others target sid none c.rows) sid actor c (inl refl)
        (inl refl) (λ x. inl refl) expected target idempotent
        (λ sub there. ((sub, refl, there ∙ i), inl refl))
        (λ sub v got versioned passes.
          cas-Sound sub.status target idempotent (λ row. row) sid none sub v actor c
            (λ row. (refl, refl, refl)) i (step_of_valid sub.status target passes)
            (found_scoped c.rows sid none sub got) versioned)

  pub transition-Sound :
      (cmd : Command) (sid : ℕ) (who : String) (c : Connection)
      → Sound others
          (target cmd)
          sid
          (who_sees cmd)
          c.rows
          (transition requery others now cmd sid who c)
  unfolding transition transition_to_in_progress transition_to_completed transition_to_expired
      transition_to_cancelled transition_to_reviewed
  transition-Sound (start cid) sid who c =
      do_transition-Sound to_in_progress sid (some cid) (actor_of (start cid) who) c
        (λ row. (refl, refl, refl)) refl Graph.start
  transition-Sound (complete cid) sid who c =
      do_transition-Sound to_completed sid cid (actor_of (complete cid) who) c
        (λ row. (refl, refl, refl)) refl finish
  transition-Sound expire sid who c =
      do_transition-Sound to_expired sid none (actor_of expire who) c (λ row. (refl, refl, refl))
        refl time_out
  transition-Sound cancel sid who c =
      do_multi-Sound (in_progress ∷ pending ∷ []) cancelled cancelled sid (actor_of cancel who) c
        refl
  transition-Sound review sid who c =
      do_multi-Sound (completed ∷ expired ∷ cancelled ∷ []) reviewed reviewed sid
        (actor_of review who) c refl
