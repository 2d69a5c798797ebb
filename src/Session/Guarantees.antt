-- ===== src/Session/Guarantees.antt =====
-- The session commands as their callers see them: `SessionService` over the repository.
use ai_interviewer.Prelude.{
  ℕ, ◌+◌, String, ◌≡◌, refl, sym, ap, ◌∙◌, ◌≢◌, Bool, true, false, Option, none, some, List, [],
  ◌∷◌, arith,
}
use ai_interviewer.Prelude.Result.{Result, ok, err}
use mathlib.Core.Path.{subst}
use ai_interviewer.Session.Status.{
  SubmissionStatus, pending, in_progress, completed, expired, cancelled, reviewed, same,
}
use ai_interviewer.Session.Graph.{◌⟶◌}
use ai_interviewer.Session.Store.{Submission, Table, put, owned_by, reload_scoped}
use ai_interviewer.Session.Repository.{
  Connection, Others, Requery, do_transition, do_multi_source_transition, Reply,
  transition_to_in_progress, transition_to_completed, transition_to_expired,
  transition_to_cancelled, transition_to_reviewed, Transition, to_in_progress, to_completed,
  to_expired,
}
use ai_interviewer.Session.Service.{
  Command, start, complete, expire, cancel, review, target, transition, ServiceError, World,
  perform, attribute_error, synced, sync_redis, actor_of,
}
use ai_interviewer.Session.Races.{Unwritten, Sound}
use ai_interviewer.Session.Cases.{visible}
use ai_interviewer.Session.Commands.{who_sees, transition-Sound}

-- What a command has done to the rows, by its answer.
module _ (o : Others) (cmd : Command) (sid : ℕ) (rows : Table) where
  abbrev pub Guarantee : Result ServiceError (Submission × Bool) × World → Type 0
  Guarantee (ok (sub, true), w') =
      (old : Submission) × (v : ℕ) × (o.before_update rows sid ≡ some old)
      × (w'.db.rows ≡ put (o.before_update rows) sid sub)
      × (old.status ⟶ target cmd)
      × (sub.status ≡ target cmd)
      × (old.version ≡ some v)
      × (sub.version ≡ some (v + 1))
      × (owned_by (who_sees cmd) sub ≡ true)
      × ((read : Submission) × (rows sid ≡ some read) × (read.version ≡ some v))
  Guarantee (ok (sub, false), w') = Unwritten o rows w'.db.rows
  Guarantee (err e, w') = (e ≢ attribute_error) × Unwritten o rows w'.db.rows

pub synced-Guarantee :
    (redis_up : Bool) (o : Others) (cmd : Command) (sid : ℕ) (rows : Table) (w : World)
    (x : Reply × Connection)
    → Sound o (target cmd) sid (who_sees cmd) rows x
    → (r : Requery) (now : ℕ) → Guarantee o cmd sid rows (synced r o now redis_up sid x w)
unfolding synced
synced-Guarantee up o cmd sid rows w (ok (some sub, true), db) s r now =
    let e : sub ≡ s.1 = cc s.5 in rw e (s.0, s.2, s.3, s.4, s.6, s.7, s.8, s.9, s.10, s.11)
synced-Guarantee up o cmd sid rows w (ok (none, true), db) s r now = cc s.5
synced-Guarantee up o cmd sid rows w (ok (some sub, false), db) s r now = s.1
synced-Guarantee up o cmd sid rows w (ok (none, false), db) s r now = cc s.0.1
synced-Guarantee up o cmd sid rows w (err e, db) s r now = ((λ q. cc), s)

module _ (requery : Requery) (others : Others) (now : ℕ) (redis_up : Bool) where
  -- Whatever other workers write before the UPDATE and before the reload: a command that answers
  -- `(row, true)` has replaced one row, in a status from which the table leads to the command's
  -- target, by the row it answers, in the target status and one version on from the version it had
  -- read, and visible to the candidate it is scoped to; every other answer, an error included,
  -- leaves the rows to the other workers; and the reload after a success never finds the row gone.
  pub perform-Guarantee :
      (cmd : Command) (sid : ℕ) (who : String) (w : World)
      → Guarantee others cmd sid w.db.rows (perform requery others now redis_up cmd sid who w)
  unfolding perform
  perform-Guarantee cmd sid who w =
      synced-Guarantee redis_up others cmd sid w.db.rows w
        (transition requery others now cmd sid who w.db)
        (transition-Sound requery others now cmd sid who w.db) requery now

put_self : (t : Table) (sid : ℕ) (row : Submission) → put t sid row sid ≡ some row
put_self t sid row = ground arith

version_clash :
    (read read' old sub : Submission) {v v' : ℕ}
    → some read ≡ some read'
    → some old ≡ some sub
    → read.version ≡ some v
    → read'.version ≡ some v'
    → old.version ≡ some v'
    → sub.version ≡ some (v + 1)
    → ⊥
version_clash read read' old sub a b c d e f = ground arith

-- A command that finds its target status reached answers `(row, false)` and leaves the database.
module _ (requery : Requery) (others : Others) (now : ℕ) (sid : ℕ) (row : Submission)
    (c : Connection) {v : ℕ} (versioned : row.version ≡ some v) where
  do_transition-reached :
      (tr : Transition) (cid : Option ℕ) (actor : Option String)
      → reload_scoped c.rows sid cid ≡ some row
      → same row.status tr.idempotent_status ≡ true
      → do_transition requery others now tr sid cid actor c ≡ (ok (some row, false), c)
  unfolding do_transition
  do_transition-reached tr cid actor got there = ground arith

  do_multi-reached :
      (expected : List SubmissionStatus) (goal idempotent : SubmissionStatus)
      (actor : Option String)
      → reload_scoped c.rows sid none ≡ some row
      → same row.status idempotent ≡ true
      → do_multi_source_transition requery others now expected goal idempotent sid actor c
        ≡ (ok (some row, false), c)
  unfolding do_multi_source_transition
  do_multi-reached expected goal idempotent actor got there = ground arith

  transition-reached :
      (cmd : Command) (who : String)
      → reload_scoped c.rows sid (who_sees cmd) ≡ some row
      → row.status ≡ target cmd
      → transition requery others now cmd sid who c ≡ (ok (some row, false), c)
  unfolding transition transition_to_in_progress transition_to_completed transition_to_expired
      transition_to_cancelled transition_to_reviewed
  transition-reached (start cid) who got e =
      do_transition-reached to_in_progress (some cid) (actor_of (start cid) who) got (rw e refl)
  transition-reached (complete cid) who got e =
      do_transition-reached to_completed cid (actor_of (complete cid) who) got (rw e refl)
  transition-reached expire who got e =
      do_transition-reached to_expired none (actor_of expire who) got (rw e refl)
  transition-reached cancel who got e =
      do_multi-reached (in_progress ∷ pending ∷ []) cancelled cancelled (actor_of cancel who) got
        (rw e refl)
  transition-reached review who got e =
      do_multi-reached (completed ∷ expired ∷ cancelled ∷ []) reviewed reviewed
        (actor_of review who) got (rw e refl)

module _ (requery : Requery) (up : Bool) (cmd : Command) (sid : ℕ) (who : String) (w : World)
    (o : Others) (now : ℕ) {sub : Submission} {w' : World}
    (won : perform requery o now up cmd sid who w ≡ (ok (sub, true), w')) where
  won-Guarantee : Guarantee o cmd sid w.db.rows (ok (sub, true), w')
  won-Guarantee =
      subst (Guarantee o cmd sid w.db.rows) won (perform-Guarantee requery o now up cmd sid who w)

  -- Of two commands on a submission that read the same rows, if the first reports a transition and
  -- the second one's UPDATE meets what the first one wrote, the second reports none.
  pub one_winner :
      (cmd' : Command) (who' : String) (o' : Others) (now' : ℕ)
      → o'.before_update w.db.rows ≡ w'.db.rows
      → {sub' : Submission} {w'' : World}
      → perform requery o' now' up cmd' sid who' w ≢ (ok (sub', true), w'')
  one_winner cmd' who' o' now' meets {sub'} {w''} won' =
      let (old, v, _, wrote, _, _, _, next, _, (read, at, read_v)) = won-Guarantee in
      let (old', v', found, _, _, _, old_v, _, _, (read', at', read_v')) =
        subst (Guarantee o' cmd' sid w.db.rows) won'
          (perform-Guarantee requery o' now' up cmd' sid who' w) in
      version_clash read read' old' sub (sym at ∙ at')
        (sym found
          ∙ ap (λ (t : Table). t sid) (meets ∙ wrote)
          ∙ put_self (o.before_update w.db.rows) sid sub)
        read_v read_v' old_v next

  -- A command that is sent again after it went through, with nothing in between, answers with the
  -- same row and `false`, and leaves the database as it is.
  pub perform-perform :
      (o' : Others) (now' : ℕ)
      → perform requery o' now' up cmd sid who w'
        ≡ (ok (sub, false), record w' { cache = sync_redis up sid sub w'.cache })
  unfolding perform
  perform-perform o' now' =
      let (old, v, found, wrote, _, reached, _, next, own, _) = won-Guarantee in
      let here = ap (λ (t : Table). t sid) wrote ∙ put_self (o.before_update w.db.rows) sid sub in
      rw (
        transition-reached requery o' now' sid sub w'.db next cmd who
          (visible w'.db.rows sid (who_sees cmd) sub here own) reached)
