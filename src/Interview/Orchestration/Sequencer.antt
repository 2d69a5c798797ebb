-- ===== src/Interview/Orchestration/Sequencer.antt =====
-- app/interview/orchestration/question_sequencer.py and the snapshot types of contracts.py there.
use ai_interviewer.Prelude.{
  ℕ, ◌+◌, ◌-◌, String, Bool, not, ◌&&◌, Option, none, some, List, [], ◌∷◌, ◌++◌, str_eq, ltb, leb,
  ◌==◌, if◌then◌else◌, length, get_elem?, all,
}
use ai_interviewer.Prelude.Result.{Result, ok, err}
use ai_interviewer.Session.Store.{
  TemplateSectionSnapshot, TemplateSnapshot, RawSnapshot, no_object, ill_typed, object,
}

-- The errors of errors.py beside it that these calls raise, and the two exceptions that Python
-- itself would raise on a broken snapshot.
pub data SequencerError : Type 0 where
  template_snapshot_missing template_snapshot_invalid : ℕ → SequencerError
  sequencing_error index_error result_invalid : SequencerError

pub record NextQuestionResult : Type 0 where
  pub question_id : ℕ
  pub sequence_order : ℕ
  pub section_name : String
  pub is_final_question : Bool

-- `sum(s.question_count for s in self.sections)`
unfoldable pub sum_counts : List TemplateSectionSnapshot → ℕ
sum_counts [] = 0
sum_counts (s ∷ rest) = s.question_count + sum_counts rest

-- The field constraints of a section, and the length test of `model_post_init`.
unfoldable pub section_ok : TemplateSectionSnapshot → Bool
section_ok s = not (str_eq s.section_name "") && (length s.question_ids == s.question_count)

-- `TemplateSnapshot.model_validate` on an object whose fields have the right types.
unfoldable pub model_ok : TemplateSnapshot → Bool
unfolding section_ok
model_ok s =
    ltb 0 s.template_id
    && (not (str_eq s.template_name "")
        && (ltb 0 (length s.sections)
            && (ltb 0 s.total_questions
                && ((sum_counts s.sections == s.total_questions) && all section_ok s.sections))))

unfoldable pub validate_template_snapshot :
    Option RawSnapshot → ℕ → Result SequencerError TemplateSnapshot
unfolding model_ok
validate_template_snapshot none sid = err (template_snapshot_missing sid)
validate_template_snapshot (some no_object) sid = err (template_snapshot_invalid sid)
validate_template_snapshot (some (ill_typed n)) sid = err (template_snapshot_invalid sid)
validate_template_snapshot (some (object s)) sid =
    if model_ok s then ok s else err (template_snapshot_invalid sid)

-- `NextQuestionResult(...)`: `question_id` must be positive and the section name not empty.
unfoldable pub next_result :
    Option ℕ → ℕ → ℕ → String → Result SequencerError (Option NextQuestionResult)
next_result none current total name = err index_error
next_result (some q) current total name =
    if ltb 0 q && not (str_eq name "")
    then ok (
        some (record {
          question_id = q;
          sequence_order = current + 1;
          section_name = name;
          is_final_question = current == total - 1;
        }))
    else err result_invalid

-- The loop over the sections, `index` questions in.
unfoldable pub walk :
    ℕ → ℕ → List TemplateSectionSnapshot → ℕ → Result SequencerError (Option NextQuestionResult)
unfolding next_result
walk current total [] index = err sequencing_error
walk current total (s ∷ rest) index =
    if ltb current (index + s.question_count)
    then next_result (get_elem? s.question_ids (current - index)) current total s.section_name
    else walk current total rest (index + s.question_count)

unfoldable pub resolve_next_question :
    TemplateSnapshot → ℕ → Result SequencerError (Option NextQuestionResult)
unfolding walk
resolve_next_question snapshot current =
    if leb snapshot.total_questions current
    then ok none
    else walk current snapshot.total_questions snapshot.sections 0

unfoldable pub section_from : List TemplateSectionSnapshot → ℕ → ℕ → Option String
section_from [] sequence index = none
section_from (s ∷ rest) sequence index =
    if ltb sequence (index + s.question_count)
    then some s.section_name
    else section_from rest sequence (index + s.question_count)

unfoldable pub get_section_for_sequence : TemplateSnapshot → ℕ → Option String
unfolding section_from
get_section_for_sequence snapshot sequence = section_from snapshot.sections sequence 0

-- The reference: the snapshot's questions in one row, each with the name of its section.
unfoldable pub tagged : String → List ℕ → List (ℕ × String)
tagged name [] = []
tagged name (q ∷ qs) = (q, name) ∷ tagged name qs

unfoldable pub questions : List TemplateSectionSnapshot → List (ℕ × String)
questions [] = []
questions (s ∷ rest) = tagged s.section_name s.question_ids ++ questions rest
