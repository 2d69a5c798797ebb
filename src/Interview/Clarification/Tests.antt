-- ===== src/Interview/Clarification/Tests.antt =====
-- Runs of the question's state machine and of the clarification policy.
use ai_interviewer.Prelude.{
  ℕ, ◌≤◌, ◌≡◌, refl, ◌≢◌, true, false, some, List, [], ◌∷◌, is_some, length, all,
}
use ai_interviewer.Prelude.Result.{ok, err}
use ai_interviewer.Interview.Clarification.Machine.{
  Call, to, request, provide, submit, waiting_input, clarification_requested, asked, invalid,
  Machine, calls, request_clarification, transition_to, validate_exchange_transition,
}
use ai_interviewer.Interview.Clarification.Machine
use ai_interviewer.Interview.Clarification.Policy.{ClarificationResponse, response, validate_all}
use ai_interviewer.Interview.Clarification.Policy
use ai_interviewer.Interview.Clarification.Budget.{
  Sane, calls-Sane, locked_for_good, request_clarification-refused,
}
use ai_interviewer.Interview.Clarification.Audit.{numbered, analogies, clean, policy_audited}

abbrev talk : List (Call ℕ)
talk = to waiting_input ∷ request ∷ provide ∷ submit ∷ []

calls-Sane_example : Sane (calls talk (Machine.new (some 4)))
calls-Sane_example = calls-Sane talk (some 4)

talk_locks : (calls talk (Machine.new (some 4))).response_locked ≡ true
unfolding calls transition_to validate_exchange_transition request_clarification
talk_locks = refl

locked_for_good_example :
    ((calls (request ∷ submit ∷ []) (calls talk (Machine.new (some 4)))).response_locked ≡ true)
    × ((request_clarification (calls (request ∷ submit ∷ []) (calls talk (Machine.new (some 4))))).0
        ≢ ok true)
locked_for_good_example = locked_for_good talk (request ∷ submit ∷ []) (some 4) true talk_locks

abbrev unasked : Machine ℕ
unasked = Machine.new (some 4)

refused_at_first : (request_clarification unasked).0 ≡ err (invalid asked clarification_requested)
unfolding request_clarification transition_to validate_exchange_transition
refused_at_first = refl

a_refusal_still_counts :
    ((request_clarification unasked).1.current_state ≡ asked)
    × ((request_clarification unasked).1.clarification_count ≡ 1)
    × ((request_clarification unasked).1.clarification_limit_exceeded ≡ false)
a_refusal_still_counts =
    request_clarification-refused unasked (invalid asked clarification_requested) refused_at_first

abbrev long_answer : ClarificationResponse
long_answer = response (λ t. 121) "…" false true false 0

policy_audited_example :
    let p = validate_all (long_answer ∷ long_answer ∷ []) Policy.new in
    (length p.audit_log ≡ 2)
    × (numbered 1 p.audit_log ≡ true)
    × (all clean p.audit_log ≡ true)
    × (analogies p.audit_log ≤ 1)
    × (is_some (Policy.request_clarification "What?" p) ≡ true)
policy_audited_example = policy_audited (long_answer ∷ long_answer ∷ []) "What?"
