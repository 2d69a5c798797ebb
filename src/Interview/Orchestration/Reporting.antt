-- ===== src/Interview/Orchestration/Reporting.antt =====
-- The progress update after an answer, with no other worker in between.
use mathlib.Core.Option
use ai_interviewer.Prelude.{
  sym, ℕ, ◌+◌, ◌≤◌, ◌<◌, ◌==◌, ◌≡◌, ◌≢◌, ◌⊎◌, ◌∙◌, refl, ap, inl, inr, Bool, true, false, some,
  arith, ltb, leb, if◌then◌else◌, Bool-cases,
}
use ai_interviewer.Prelude.Result.{Result, ok}
use ai_interviewer.Session.Status.{in_progress, completed}
use ai_interviewer.Session.Store.{Submission, Table, update_where, put, next_version}
use ai_interviewer.Session.Repository.{Connection}
use ai_interviewer.Session.Expiry.{Submitted, SameInterview, coalesce-Submitted}
use ai_interviewer.Interview.Orchestration.Attempts.{
  advance_row, complete_row, update_db_progress, auto_complete_submission, ProgressError,
}
use ai_interviewer.Interview.Orchestration.Progress.{
  ProgressUpdate, Session, update_progress, progress_update, report, finish,
}

-- Nobody else writes.
abbrev pub alone : ℕ → Table → Table
alone n t = t

-- The row after the report: advanced, and completed too if that was the last question.
abbrev pub reported_row : ℕ → ℕ → ℕ → Submission → Submission
reported_row now seq total row =
    if leb total seq then complete_row now (advance_row now seq row) else advance_row now seq row

-- The row before and after a report of progress at `seq`, by its fields.
abbrev pub Advanced : ℕ → ℕ → ℕ → Submission → Submission → Type 0
Advanced now seq total row row' =
    (row'.current_exchange_sequence ≡ seq)
    × SameInterview row row'
    × (((total ≤ seq)
          × (row'.status ≡ completed)
          × (row'.version ≡ Option.map (λ v. v + 2) row.version)
          × Submitted now row row')
        ⊎ ((seq < total)
            × (row'.status ≡ in_progress)
            × (row'.version ≡ Option.map (λ v. v + 1) row.version)
            × (row'.submitted_at ≡ row.submitted_at)))

-- The rows before and after it: none but that one has changed.
abbrev pub Progressed : ℕ → ℕ → ℕ → ℕ → Submission → Table → Table → Type 0
Progressed now sid seq total row rows rows' =
    ((row' : Submission) × (rows' sid ≡ some row') × Advanced now seq total row row')
    × ((i : ℕ) → i ≢ sid → rows' i ≡ rows i)

when_true : (b : Bool) {z : Table} (x y : Table) → z ≡ (if b then x else y) → b ≡ true → z ≡ x
when_true b x y e h = e ∙ ap (λ c. if c then x else y) h

when_false : (b : Bool) {z : Table} (x y : Table) → z ≡ (if b then x else y) → b ≡ false → z ≡ y
when_false b x y e h = e ∙ ap (λ c. if c then x else y) h

module _ (now sid seq : ℕ) (row : Submission) {v : ℕ} (versioned : row.version ≡ some v) where
  advanced :
      (rows : Table)
      → rows sid ≡ some row
      → row.current_exchange_sequence < seq
      → update_db_progress alone now sid seq rows ≡ (ok tt, put rows sid (advance_row now seq row))
  unfolding update_db_progress update_where
  advanced rows found behind = ground arith

  auto_completed :
      (c : Connection)
      → c.rows sid ≡ some row
      → row.status ≡ in_progress
      → auto_complete_submission alone now sid c ≡ (
        ok true,
        record {
          rows = put c.rows sid (complete_row now row);
          actor = some "system:auto_complete";
        },
      )
  unfolding auto_complete_submission update_where
  auto_completed c found active = ground arith

module _ (percent : ℕ → ℕ → ℕ) (now : ℕ) (up : Bool) (sid seq total : ℕ) (row : Submission)
    (s : Session) {v : ℕ} (found : s.db.rows sid ≡ some row) (active : row.status ≡ in_progress)
    (versioned : row.version ≡ some v) (behind : row.current_exchange_sequence < seq)
    (real : 0 < sid) (asked : 0 < total) (fits : percent seq total ≤ 10000) where
  abbrev progress_of : ProgressUpdate
  progress_of = record {
    submission_id = sid;
    current_sequence = seq;
    total_questions = total;
    progress_percentage = percent seq total;
    is_complete = leb total seq;
  }

  built :
      progress_update sid seq total (if ltb 0 total then percent seq total else 0) ≡ ok progress_of
  unfolding progress_update
  built = ground arith

  reports :
      (b : Bool) (t : Session)
      → (report percent alone now up sid seq total (ok b) t).0 ≡ ok progress_of
  unfolding report
  reports b t = rw (built, report) refl

  keeps_rows :
      (b : Bool) (t : Session) → (report percent alone now up sid seq total (ok b) t).1.db ≡ t.db
  unfolding report
  keeps_rows b t = rw (built, report) refl

  abbrev Reported : Session → Result ProgressError ProgressUpdate × Session → Type 0
  Reported t x =
      (x.0 ≡ ok progress_of)
      × (x.1.db.rows ≡ (
          if leb total seq
          then put t.db.rows sid (complete_row now (advance_row now seq row))
          else t.db.rows))

  module _ (t : Session) (now_row : t.db.rows sid ≡ some (advance_row now seq row)) where
    abbrev completed_session : Session
    completed_session = record t {
      db = record {
        rows = put t.db.rows sid (complete_row now (advance_row now seq row));
        actor = some "system:auto_complete";
      };
    }

    finish_last :
        leb total seq ≡ true
        → finish percent alone now up sid seq total (ok tt) t
          ≡ report percent alone now up sid seq total (ok true) completed_session
    unfolding finish
    finish_last last =
        rw
          (
            last,
            auto_completed now sid seq (advance_row now seq row) (ap next_version versioned) t.db
                now_row active,
            finish,
          )
          refl

    finish_more :
        leb total seq ≡ false
        → finish percent alone now up sid seq total (ok tt) t
          ≡ report percent alone now up sid seq total (ok false) t
    unfolding finish
    finish_more more = rw (more, finish) refl

    finishes : Reported t (finish percent alone now up sid seq total (ok tt) t)
    finishes = elim (Bool-cases (leb total seq)) [
      | inl last ↦ (
        rw (finish_last last) (reports true completed_session),
        rw (finish_last last, last) (ap (λ c. c.rows) (keeps_rows true completed_session)),
      )
      | inr more ↦ (
        rw (finish_more more) (reports false t),
        rw (finish_more more, more) (ap (λ c. c.rows) (keeps_rows false t)),
      )
    ]

  pub update_progress_rows :
      Reported
        (record s { db = record s.db { rows = put s.db.rows sid (advance_row now seq row) } })
        (update_progress percent alone now up sid seq total s)
  unfolding update_progress
  update_progress_rows =
      rw (advanced now sid seq row versioned s.db.rows found behind, update_progress)
        (finishes _ (ground arith))

  -- With no other worker in between, on a submission in progress, with a positive id and a version,
  -- that is behind `seq`, with a positive total and a percentage of at most 100: the update answers
  -- the progress at `seq`, and brings the row to `seq`. If `seq` is the last question or past it, the
  -- row is then completed, two versions on, with its submission time kept, or set to now if it had
  -- none; otherwise it is in progress, one version on, with its submission time kept. The other
  -- fields of the interview and the other rows are kept.
  pub update_progress_reports :
      let (r, after) = update_progress percent alone now up sid seq total s in
      (r ≡ ok progress_of) × Progressed now sid seq total row s.db.rows after.db.rows
  update_progress_reports =
      let (answer, rows) = update_progress_rows in
      let self : (sid == sid) ≡ true = ground arith in
      let other : (i : ℕ) → i ≢ sid → (i == sid) ≡ false = λ i apart. ground arith in
      elim (Bool-cases (leb total seq)) [
        | inl last ↦
            let now_rows = when_true (leb total seq) _ _ rows last in
            (
              answer,
              (
                (
                  complete_row now (advance_row now seq row),
                  ap (λ t. t sid) now_rows ∙ rw self refl,
                  (
                    refl,
                    (refl, refl, refl, refl, refl),
                    inl (
                      ground (arith, last),
                      refl,
                      ap (λ o. next_version (next_version o)) versioned
                          ∙ ap some (omega arith)
                          ∙ sym (ap (Option.map (λ n. n + 2)) versioned),
                      coalesce-Submitted now row (complete_row now (advance_row now seq row)) refl,
                    ),
                  ),
                ),
                λ i apart. ap (λ t. t i) now_rows ∙ rw (other i apart) refl,
              ),
            )
        | inr more ↦
            let now_rows = when_false (leb total seq) _ _ rows more in
            (
              answer,
              (
                (
                  advance_row now seq row,
                  ap (λ t. t sid) now_rows ∙ rw self refl,
                  (
                    refl,
                    (refl, refl, refl, refl, refl),
                    inr (
                      ground (arith, more),
                      active,
                      ap next_version versioned ∙ sym (ap (Option.map (λ n. n + 1)) versioned),
                      refl,
                    ),
                  ),
                ),
                λ i apart. ap (λ t. t i) now_rows ∙ rw (other i apart) refl,
              ),
            )
      ]
