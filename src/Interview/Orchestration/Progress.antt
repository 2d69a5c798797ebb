-- ===== src/Interview/Orchestration/Progress.antt =====
-- app/interview/orchestration/progress_tracker.py: progress after an answer, and its Redis copy.
-- A percentage is a float rounded to two places: `percent s t` stands for it, in hundredths.
use ai_interviewer.Prelude.{ℕ, Bool, false, ◌&&◌, Option, none, some, ltb, leb, ◌==◌, if◌then◌else◌}
use ai_interviewer.Prelude.Result.{Result, ok, err}
use ai_interviewer.Session.Status.{SubmissionStatus, completed}
use ai_interviewer.Session.Store.{Submission, Table, RawSnapshot, no_object, ill_typed, object}
use ai_interviewer.Session.Repository.{Connection}
use ai_interviewer.Session.Service.{Cache, CacheEntry}
use ai_interviewer.Interview.Orchestration.Attempts.{
  ProgressError, progress_invalid, update_db_progress, auto_complete_submission,
}

pub record ProgressUpdate : Type 0 where
  pub submission_id : ℕ
  pub current_sequence : ℕ
  pub total_questions : ℕ
  pub progress_percentage : ℕ
  pub is_complete : Bool

-- `ProgressUpdate(…)` with its field constraints.
unfoldable pub progress_update : ℕ → ℕ → ℕ → ℕ → Result ProgressError ProgressUpdate
progress_update sid seq total pct =
    if ltb 0 sid && (ltb 0 total && leb pct 10000)
    then ok (record {
      submission_id = sid;
      current_sequence = seq;
      total_questions = total;
      progress_percentage = pct;
      is_complete = leb total seq;
    })
    else err progress_invalid

-- The entry that the tracker starts from where Redis has none: the id alone.
abbrev pub empty_entry : CacheEntry
empty_entry = record {
  status = none;
  candidate_id = none;
  started_at = none;
  updated_at = none;
  version = none;
  progress = none;
}

entry_or_empty : Option CacheEntry → CacheEntry
entry_or_empty none = empty_entry
entry_or_empty (some e) = e

status_or : Option SubmissionStatus → Option SubmissionStatus → Option SubmissionStatus
status_or none old = old
status_or (some s) old = some s

-- `_update_redis_progress`: the progress fields are merged into the entry; an exception of the
-- client is swallowed.
unfoldable pub update_redis_progress :
    Bool → ProgressUpdate → Option SubmissionStatus → Cache → Cache
unfolding entry_or_empty status_or
update_redis_progress up p override cache j =
    let old = entry_or_empty (cache j) in
    if up && j == p.submission_id
    then some (record old {
      status = status_or override old.status;
      progress = some (p.current_sequence, p.total_questions, p.progress_percentage, p.is_complete);
    })
    else cache j

-- The database, and the Redis entries.
pub record Session : Type 0 where
  pub db : Connection
  pub cache : Cache

module _ (percent : ℕ → ℕ → ℕ) (others : ℕ → Table → Table) (now : ℕ) (redis_up : Bool) where
  -- From the completion test on.
  unfoldable pub report :
      ℕ
      → ℕ
      → ℕ
      → Result ProgressError Bool
      → Session
      → Result ProgressError ProgressUpdate × Session
  report sid seq total (err e) s = (err e, s)
  report sid seq total (ok auto_completed) s =
      elim (progress_update sid seq total (if ltb 0 total then percent seq total else 0)) [
        | err e ↦ (err e, s)
        | ok p ↦ (
          ok p,
          record s {
            cache =
                update_redis_progress redis_up p (if auto_completed then some completed else none)
                  s.cache;
          },
        )
      ]

  unfoldable pub finish :
      ℕ
      → ℕ
      → ℕ
      → Result ProgressError Unit
      → Session
      → Result ProgressError ProgressUpdate × Session
  unfolding report update_redis_progress progress_update
  finish sid seq total (err e) s = (err e, s)
  finish sid seq total (ok _) s =
      if leb total seq
      then (let (r, db) = auto_complete_submission others now sid s.db in
          report sid seq total r (record s { db = db }))
      else report sid seq total (ok false) s

  -- `update_progress`
  unfoldable pub update_progress :
      ℕ → ℕ → ℕ → Session → Result ProgressError ProgressUpdate × Session
  unfolding finish
  update_progress sid seq total s =
      let (r, rows) = update_db_progress others now sid seq s.db.rows in
      finish sid seq total r (record s { db = record s.db { rows = rows } })

  -- `total_questions` of the snapshot column, 0 where there is none.
  snapshot_total : Option RawSnapshot → ℕ
  snapshot_total none = 0
  snapshot_total (some no_object) = 0
  snapshot_total (some (ill_typed n)) = n
  snapshot_total (some (object t)) = t.total_questions

  from_row : ℕ → Option Submission → Result ProgressError (Option ProgressUpdate)
  unfolding snapshot_total
  from_row sid none = ok none
  from_row sid (some row) =
      let total = snapshot_total row.template_structure_snapshot in
      let seq = row.current_exchange_sequence in
      if total == 0 then ok none else elim (progress_update sid seq total (percent seq total)) [
        | ok p ↦ ok (some p)
        | err e ↦ err e
      ]

  from_cache : ℕ → Option CacheEntry → Option ProgressUpdate
  from_cache sid none = none
  from_cache sid (some e) = elim e.progress [
    | none ↦ none
    | some (seq, total, pct, complete) ↦
        if ltb 0 total
        then elim (progress_update sid seq total (percent seq total)) [
          | ok p ↦ some p
          | err e ↦ none
        ]
        else none
  ]

  -- `get_progress`: Redis first; any exception there falls through to the database.
  unfoldable pub get_progress : ℕ → Session → Result ProgressError (Option ProgressUpdate)
  unfolding from_row from_cache progress_update
  get_progress sid s = elim (if redis_up then from_cache sid (s.cache sid) else none) [
    | some p ↦ ok (some p)
    | none ↦ from_row sid (s.db.rows sid)
  ]
