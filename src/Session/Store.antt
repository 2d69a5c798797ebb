-- ===== src/Session/Store.antt =====
-- The rows of `interview_submissions` (app/interview/session/persistence/models.py) and the SQL
-- statements on them. A table is keyed by its primary key. The columns that no modelled
-- statement reads or writes (window, role, mode, scores) are left out.
use ai_interviewer.Prelude.{
  ℕ, ◌+◌, String, Bool, true, false, not, Option, none, some, List, ◌==◌, if◌then◌else◌,
}
use ai_interviewer.Session.Status.{SubmissionStatus}

-- One section of the template snapshot, with its fields as the JSON document gives them.
pub record TemplateSectionSnapshot : Type 0 where
  pub section_name : String
  pub question_count : ℕ
  pub question_ids : List ℕ

pub record TemplateSnapshot : Type 0 where
  pub template_id : ℕ
  pub template_name : String
  pub sections : List TemplateSectionSnapshot
  pub total_questions : ℕ

-- What the JSONB column `template_structure_snapshot` may hold: a value that is no object, an
-- object whose fields are missing or of another type (with its number `total_questions`, 0 for
-- none), or one with the fields above.
pub data RawSnapshot : Type 0 where
  no_object : RawSnapshot
  ill_typed : ℕ → RawSnapshot
  object : TemplateSnapshot → RawSnapshot

-- Times are seconds since an epoch. `version` is `none` where the column is not there yet.
pub record Submission : Type 0 where
  pub candidate_id : ℕ
  pub status : SubmissionStatus
  pub consent_captured : Bool
  pub scheduled_end : Option ℕ
  pub started_at : Option ℕ
  pub submitted_at : Option ℕ
  pub version : Option ℕ
  pub updated_at : ℕ
  pub current_exchange_sequence : ℕ
  pub template_structure_snapshot : Option RawSnapshot

abbrev pub Table : Type 0
Table = ℕ → Option Submission

-- `version = version + 1`
abbrev pub next_version : Option ℕ → Option ℕ
next_version none = none
next_version (some v) = some (v + 1)

-- `version = :expected_version`; an SQL comparison with NULL does not hold.
abbrev pub version_is : Option ℕ → ℕ → Bool
version_is none v = false
version_is (some w) v = w == v

-- `getattr(sub, "version", None) != current_version`
abbrev pub version_differs : Option ℕ → ℕ → Bool
version_differs v w = not (version_is v w)

-- `AND candidate_id = :cid`, a clause that is there only for a given candidate
abbrev pub owned_by : Option ℕ → Submission → Bool
owned_by none row = true
owned_by (some cid) row = row.candidate_id == cid

abbrev pub put : Table → ℕ → Submission → Table
put t sid row j = if j == sid then some row else t j

write_row :
    Option Submission → (Submission → Bool) → (Submission → Submission) → ℕ → Table → Table × Bool
write_row none test change sid t = (t, false)
write_row (some row) test change sid t =
    if test row then (put t sid (change row), true) else (t, false)

-- `UPDATE interview_submissions SET change WHERE id = :sid AND test RETURNING id`; the flag is
-- whether a row came back.
unfoldable pub update_where :
    ℕ → (Submission → Bool) → (Submission → Submission) → Table → Table × Bool
unfolding write_row
update_where sid test change t = write_row (t sid) test change sid t

scoped : Option Submission → Option ℕ → Option Submission
scoped none cid = none
scoped (some row) cid = if owned_by cid row then some row else none

-- `_reload_scoped(submission_id, candidate_id)`, and `_reload` for no candidate
unfoldable pub reload_scoped : Table → ℕ → Option ℕ → Option Submission
unfolding scoped
reload_scoped t sid cid = scoped (t sid) cid
