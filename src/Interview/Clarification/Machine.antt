-- ===== src/Interview/Clarification/Machine.antt =====
-- app/interview/exchanges/question_state_machine.py: the states of one exchange.
use ai_interviewer.Prelude.{
  ℕ, ◌+◌, Bool, true, false, Option, none, some, List, [], ◌∷◌, ◌++◌, leb, ◌==◌, if◌then◌else◌, any,
}
use ai_interviewer.Prelude.Result.{Result, ok, err}

pub data ExchangeState : Type 0 where
  asked waiting_input clarification_requested answer_submitted post_answer_window evaluated
        next_question :
      ExchangeState

abbrev pub position : ExchangeState → ℕ
position asked = 0
position waiting_input = 1
position clarification_requested = 2
position answer_submitted = 3
position post_answer_window = 4
position evaluated = 5
position next_question = 6

abbrev pub same_state : ExchangeState → ExchangeState → Bool
same_state a b = position a == position b

-- `_ALLOWED_TRANSITIONS`
abbrev pub allowed_transitions : ExchangeState → List ExchangeState
allowed_transitions asked = waiting_input ∷ []
allowed_transitions waiting_input = clarification_requested ∷ answer_submitted ∷ []
allowed_transitions clarification_requested = waiting_input ∷ answer_submitted ∷ []
allowed_transitions answer_submitted = post_answer_window ∷ evaluated ∷ []
allowed_transitions post_answer_window = evaluated ∷ []
allowed_transitions evaluated = next_question ∷ []
allowed_transitions next_question = []

-- `InvalidExchangeStateTransitionError`
pub data TransitionError : Type 0 where
  invalid : ExchangeState → ExchangeState → TransitionError

unfoldable pub validate_exchange_transition :
    ExchangeState → ExchangeState → Result TransitionError Unit
validate_exchange_transition current target =
    if any (same_state target) (allowed_transitions current)
    then ok tt
    else err (invalid current target)

abbrev pub max_clarifications : ℕ
max_clarifications = 3

-- `QuestionStateMachine`; the classifications are stored, never looked into.
pub record Machine (I : Type 0) : Type 0 where
  pub exchange_id : Option ℕ
  pub current_state : ExchangeState
  pub clarification_count : ℕ
  pub clarification_limit_exceeded : Bool
  pub intent_sequence : List I
  pub response_locked : Bool

abbrev pub new : {I : Type 0} → Option ℕ → Machine I
new id = record {
  exchange_id = id;
  current_state = asked;
  clarification_count = 0;
  clarification_limit_exceeded = false;
  intent_sequence = [];
  response_locked = false;
}

-- A method's answer or exception, and the object as it leaves it.
abbrev pub Outcome : Type 0 → Type 0 → Type 0
Outcome I A = Result TransitionError A × Machine I

module _ {I : Type 0} where
  moved : ExchangeState → Result TransitionError Unit → Machine I → Outcome I Unit
  moved target (err e) m = (err e, m)
  moved target (ok _) m = (
    ok tt,
    record m {
      current_state = target;
      response_locked = if same_state target answer_submitted then true else m.response_locked;
    },
  )

  unfoldable pub transition_to : ExchangeState → Machine I → Outcome I Unit
  unfolding moved
  transition_to target m = moved target (validate_exchange_transition m.current_state target) m

  unfoldable pub record_intent : I → Machine I → Outcome I Unit
  record_intent i m = (ok tt, record m { intent_sequence = m.intent_sequence ++ i ∷ [] })

  unfoldable pub answering : Bool → Outcome I Unit → Outcome I Bool
  answering b (ok _, m) = (ok b, m)
  answering b (err e, m) = (err e, m)

  unfoldable pub request_clarification : Machine I → Outcome I Bool
  unfolding answering
  request_clarification m =
      if leb max_clarifications m.clarification_count
      then answering false
          (transition_to answer_submitted (record m { clarification_limit_exceeded = true }))
      else answering true (
          transition_to clarification_requested
            (record m { clarification_count = m.clarification_count + 1 }))

  unfoldable pub provide_clarification_response : Machine I → Outcome I Unit
  provide_clarification_response = transition_to waiting_input

  unfoldable pub submit_answer : Machine I → Outcome I Unit
  submit_answer = transition_to answer_submitted

  last : List I → Option I
  last [] = none
  last (i ∷ []) = some i
  last (i ∷ j ∷ is) = last (j ∷ is)

  unfoldable pub last_intent : Machine I → Option I
  unfolding last
  last_intent m = last m.intent_sequence

-- The calls on a machine, and a caller that goes on after each, an exception included.
pub data Call (I : Type 0) : Type 0 where
  to : ExchangeState → Call I
  intent : I → Call I
  request provide submit : Call I

unfoldable pub call : {I : Type 0} → Call I → Machine I → Machine I
unfolding transition_to record_intent request_clarification provide_clarification_response
    submit_answer
call (to t) m = (transition_to t m).1
call (intent i) m = (record_intent i m).1
call request m = (request_clarification m).1
call provide m = (provide_clarification_response m).1
call submit m = (submit_answer m).1

unfoldable pub calls : {I : Type 0} → List (Call I) → Machine I → Machine I
unfolding call
calls [] m = m
calls (c ∷ cs) m = calls cs (call c m)
