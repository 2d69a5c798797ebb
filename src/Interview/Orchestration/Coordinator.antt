-- ===== src/Interview/Orchestration/Coordinator.antt =====
-- app/interview/orchestration/exchange_coordinator.py and race_resolver.py.
use ai_interviewer.Prelude.{
  ℕ, ◌+◌, String, Bool, true, not, ◌&&◌, Option, none, some, List, ltb, leb, ◌==◌, if◌then◌else◌,
}
use ai_interviewer.Prelude.Result.{Result, ok, err, ◌>>=◌}
use Prim.Native.String.{count}
use ai_interviewer.Session.Status.{in_progress, same}
use ai_interviewer.Session.Store.{Submission, Table, TemplateSnapshot}
use ai_interviewer.Session.Repository.{Requery}
use ai_interviewer.Interview.Exchanges.Model.{
  ContentMetadata, ExchangeCreationData, Exchange, creation_data_ok,
}
use ai_interviewer.Interview.Exchanges.Repository.{
  Meanwhile, get_by_submission_and_sequence, create,
}
use ai_interviewer.Interview.Orchestration.Sequencer.{
  SequencerError, NextQuestionResult, validate_template_snapshot, resolve_next_question,
}
use ai_interviewer.Interview.Orchestration.Progress.{ProgressUpdate, update_progress}
use ai_interviewer.Interview.Orchestration.Signals.{
  CoordinatorError, not_found, interview_not_active, sequencer, interview_complete,
  sequence_mismatch, creation_data_invalid, exchange, progress, World, Asked, TextResponseSignal,
  AudioCompletionSignal, CodeCompletionSignal, text_data, audio_data, code_data,
}

active : ℕ → Option Submission → Result CoordinatorError Submission
active sid none = err (not_found sid)
active sid (some sub) =
    if same sub.status in_progress then ok sub else err (interview_not_active sid)

-- `_load_active_submission`
unfoldable pub load_active_submission : ℕ → World → Result CoordinatorError Submission
unfolding active
load_active_submission sid w = active sid (w.db.rows sid)

abbrev pub from_sequencer : {A : Type 0} → Result SequencerError A → Result CoordinatorError A
from_sequencer (ok a) = ok a
from_sequencer (err e) = err (sequencer e)

next_or_complete : ℕ → ℕ → Option NextQuestionResult → Result CoordinatorError NextQuestionResult
next_or_complete sid total none = err (interview_complete sid total)
next_or_complete sid total (some q) = ok q

-- `_validate_sequence`
unfoldable pub validate_sequence :
    TemplateSnapshot → ℕ → Submission → ℕ → Result CoordinatorError NextQuestionResult
unfolding next_or_complete
validate_sequence snapshot sid sub seq =
    let expected = sub.current_exchange_sequence + 1 in
    if ltb snapshot.total_questions expected
    then err (interview_complete sid snapshot.total_questions)
    else if not (seq == expected)
    then err (sequence_mismatch expected seq)
    else do
      q ← from_sequencer (resolve_next_question snapshot sub.current_exchange_sequence)
      next_or_complete sid snapshot.total_questions q

-- `ContentMetadata(…)` bounds its texts, `ExchangeCreationData(…)` has its own constraints.
short : ℕ → Option String → Bool
short bound none = true
short bound (some t) = leb (count t) bound

metadata_ok : Option ContentMetadata → Bool
unfolding short
metadata_ok none = true
metadata_ok (some m) = short 50 m.section_name && short 20 m.response_language

unfoldable pub checked : ExchangeCreationData → Result CoordinatorError ExchangeCreationData
unfolding metadata_ok
checked d =
    if metadata_ok d.content_metadata && creation_data_ok d then ok d else err creation_data_invalid

-- Whether the Redis lock was taken in time; without it the resolver goes on all the same.
pub data Lock : Type 0 where
  acquired timed_out : Lock

-- What surrounds one call: the mapper, the lock, the other sessions, the clock, Redis.
pub record Surroundings : Type 0 where
  pub requery : Requery
  pub lock : Lock
  pub before_check : List Exchange → List Exchange
  pub meanwhile : Meanwhile
  pub others : ℕ → Table → Table
  pub percent : ℕ → ℕ → ℕ
  pub now : ℕ
  pub redis_up : Bool

module _ (env : Surroundings) where
  unfoldable pub found_or_create :
      Option Exchange
      → Submission
      → ExchangeCreationData
      → World
      → Result CoordinatorError Exchange × World
  found_or_create (some e) loaded d w = (ok e, w)
  found_or_create none loaded d w =
      let (r, after) =
        create env.requery env.meanwhile (some loaded) d
          (record { rows = w.db.rows; exchanges = w.exchanges; next_id = w.next_id }) in
      (
        elim r [ ok e ↦ ok e | err e ↦ err (exchange e) ],
        record w { exchanges = after.exchanges; next_id = after.next_id },
      )

  check_then_create :
      Submission → ExchangeCreationData → World → Result CoordinatorError Exchange × World
  unfolding found_or_create get_by_submission_and_sequence
  check_then_create loaded d w =
      let es = env.before_check w.exchanges in
      found_or_create (get_by_submission_and_sequence d.submission_id d.sequence_order es) loaded d
        (record w { exchanges = es })

  -- `RaceResolver.resolve_or_create`, with the coordinator's `create_fn`
  unfoldable pub resolve_or_create :
      Submission → ExchangeCreationData → World → Result CoordinatorError Exchange × World
  unfolding check_then_create
  resolve_or_create loaded d w = elim env.lock [
    | acquired ↦ check_then_create loaded d w
    | timed_out ↦ check_then_create loaded d w
  ]

  unfoldable pub then_progress :
      ℕ
      → ℕ
      → ℕ
      → Result CoordinatorError Exchange × World
      → Result CoordinatorError (Exchange × ProgressUpdate) × World
  then_progress sid seq total (err e, w) = (err e, w)
  then_progress sid seq total (ok e, w) =
      let (r, after) =
        update_progress env.percent env.others env.now env.redis_up sid seq total
          (record { db = w.db; cache = w.cache }) in
      (
        elim r [ ok p ↦ ok (e, p) | err x ↦ err (progress x) ],
        record w { db = after.db; cache = after.cache },
      )

  -- `_create_exchange_with_progress`
  unfoldable pub create_exchange_with_progress :
      Submission
      → ExchangeCreationData
      → ℕ
      → World
      → Result CoordinatorError (Exchange × ProgressUpdate) × World
  unfolding resolve_or_create then_progress
  create_exchange_with_progress loaded d total w =
      then_progress d.submission_id d.sequence_order total (resolve_or_create loaded d w)

  -- What the three calls share: load, validate the snapshot and the sequence, build the data.
  unfoldable pub prepared :
      ℕ
      → ℕ
      → (NextQuestionResult → ExchangeCreationData)
      → World
      → Result CoordinatorError (Submission × TemplateSnapshot × ExchangeCreationData)
  prepared sid seq build w = do
    sub ← load_active_submission sid w
    snapshot ← from_sequencer (validate_template_snapshot sub.template_structure_snapshot sid)
    q ← validate_sequence snapshot sid sub seq
    d ← checked (build q)
    ok (sub, snapshot, d)

  unfoldable pub create_exchange :
      Result CoordinatorError (Submission × TemplateSnapshot × ExchangeCreationData)
      → World
      → Result CoordinatorError (Exchange × ProgressUpdate) × World
  unfolding create_exchange_with_progress
  create_exchange (err e) w = (err e, w)
  create_exchange (ok (sub, snapshot, d)) w =
      create_exchange_with_progress sub d snapshot.total_questions w

  unfoldable pub create_exchange_from_text :
      TextResponseSignal
      → Asked
      → World
      → Result CoordinatorError (Exchange × ProgressUpdate) × World
  unfolding prepared create_exchange
  create_exchange_from_text g a w =
      create_exchange (prepared g.submission_id g.sequence_order (text_data g a) w) w

  unfoldable pub create_exchange_from_audio :
      AudioCompletionSignal
      → Asked
      → World
      → Result CoordinatorError (Exchange × ProgressUpdate) × World
  unfolding prepared create_exchange
  create_exchange_from_audio g a w =
      create_exchange (prepared g.submission_id g.sequence_order (audio_data g a) w) w

  unfoldable pub create_exchange_from_code :
      CodeCompletionSignal
      → Asked
      → ℕ
      → World
      → Result CoordinatorError (Exchange × ProgressUpdate) × World
  unfolding prepared create_exchange
  create_exchange_from_code g a problem w =
      create_exchange (prepared g.submission_id g.sequence_order (code_data g a problem) w) w

-- `get_next_question`
unfoldable pub get_next_question : ℕ → World → Result CoordinatorError (Option NextQuestionResult)
unfolding load_active_submission
get_next_question sid w = do
  sub ← load_active_submission sid w
  snapshot ← from_sequencer (validate_template_snapshot sub.template_structure_snapshot sid)
  from_sequencer (resolve_next_question snapshot sub.current_exchange_sequence)
