-- ===== src/Interview/Clarification/Budget.antt =====
-- What any sequence of calls on a question's state machine keeps.
use ai_interviewer.Prelude.{
  ℕ, ◌+◌, ◌≤◌, ◌<◌, ◌≡◌, refl, ◌≢◌, ◌↔◌, ◌⊎◌, inl, inr, Bool, true, false, not, ◌||◌, Option, List,
  [], ◌∷◌, arith, ltb, leb, ◌==◌, if◌then◌else◌, Bool-cases,
}
use ai_interviewer.Prelude.Result.{ok, err}
use ai_interviewer.Interview.Clarification.Machine.{
  ExchangeState, waiting_input, clarification_requested, answer_submitted, asked,
  post_answer_window, evaluated, next_question, position, TransitionError,
  validate_exchange_transition, max_clarifications, Machine, new, transition_to, record_intent,
  answering, Outcome, request_clarification, provide_clarification_response, submit_answer, Call,
  to, intent, request, provide, submit, call, calls,
}

-- At most three clarifications, the limit flag only at three, the response locked from the
-- submitted answer on.
abbrev pub Sane : {I : Type 0} → Machine I → Type 0
Sane m =
    (m.clarification_count ≤ max_clarifications)
    × (m.response_locked ≡ leb 3 (position m.current_state))
    × ((not m.clarification_limit_exceeded || (m.clarification_count == max_clarifications)) ≡ true)

state_at :
    (a : ExchangeState)
    → (position a ≡ 1 → a ≡ waiting_input) × (position a ≡ 2 → a ≡ clarification_requested)
state_at asked = ((λ e. ground arith), λ e. ground arith)
state_at waiting_input = ((λ e. refl), λ e. ground arith)
state_at clarification_requested = ((λ e. ground arith), λ e. refl)
state_at answer_submitted = ((λ e. ground arith), λ e. ground arith)
state_at post_answer_window = ((λ e. ground arith), λ e. ground arith)
state_at evaluated = ((λ e. ground arith), λ e. ground arith)
state_at next_question = ((λ e. ground arith), λ e. ground arith)

module _ {I : Type 0} where
  transition_to-Sane : (t : ExchangeState) (m : Machine I) → Sane m → Sane ((transition_to t m).1)
  unfolding transition_to validate_exchange_transition
  transition_to-Sane asked m s = ground arith
  transition_to-Sane waiting_input m s = ground arith
  transition_to-Sane clarification_requested m s = ground arith
  transition_to-Sane answer_submitted m s = ground arith
  transition_to-Sane post_answer_window m s = ground arith
  transition_to-Sane evaluated m s = ground arith
  transition_to-Sane next_question m s = ground arith

  spend :
      (m : Machine I)
      → Sane m
      → ltb m.clarification_count 3 ≡ true
      → Sane (record m { clarification_count = m.clarification_count + 1 })
  spend m s l = ground arith

  answering_after : (b : Bool) (x : Outcome I Unit) → (answering b x).1 ≡ x.1
  unfolding answering
  answering_after b (ok _, m) = refl
  answering_after b (err e, m) = refl

  request_clarification-Sane : (m : Machine I) → Sane m → Sane ((request_clarification m).1)
  unfolding request_clarification
  request_clarification-Sane m s = elim (Bool-cases (leb 3 m.clarification_count)) [
    | inl e ↦
        rw (e, request_clarification, answering_after)
          (transition_to-Sane answer_submitted _ (ground arith))
    | inr e ↦
        rw (e, request_clarification, answering_after)
          (transition_to-Sane clarification_requested _ (spend m s (ground arith)))
  ]

  call-Sane : (c : Call I) (m : Machine I) → Sane m → Sane (call c m)
  unfolding call record_intent provide_clarification_response submit_answer
  call-Sane (to t) m s = transition_to-Sane t m s
  call-Sane (intent i) m s = s
  call-Sane request m s = request_clarification-Sane m s
  call-Sane provide m s = transition_to-Sane waiting_input m s
  call-Sane submit m s = transition_to-Sane answer_submitted m s

  calls_from : (cs : List (Call I)) (m : Machine I) → Sane m → Sane (calls cs m)
  unfolding calls
  calls_from [] m s = s
  calls_from (c ∷ cs) m s = calls_from cs (call c m) (call-Sane c m s)

  -- After any calls on a new machine, refused ones included: at most three clarifications were
  -- counted, the response is locked exactly from the submitted answer on, and the limit flag is set
  -- only at three.
  pub calls-Sane : (cs : List (Call I)) (id : Option ℕ) → Sane (calls cs (new id))
  calls-Sane cs id = calls_from cs (new id) (ground arith)

  -- From the submitted answer on, the states only go forward.
  abbrev Forward : Machine I → Machine I → Type 0
  Forward m m' =
      (position m.current_state ≤ position m'.current_state)
      × (m.response_locked ≡ true → m'.response_locked ≡ true)

  transition_to-Forward :
      (t : ExchangeState) (m : Machine I)
      → 3 ≤ position m.current_state
      → Forward m ((transition_to t m).1)
  unfolding transition_to validate_exchange_transition
  transition_to-Forward asked m late = ground arith
  transition_to-Forward waiting_input m late = ground arith
  transition_to-Forward clarification_requested m late = ground arith
  transition_to-Forward answer_submitted m late = ground arith
  transition_to-Forward post_answer_window m late = ground arith
  transition_to-Forward evaluated m late = ground arith
  transition_to-Forward next_question m late = ground arith

  request_clarification-Forward :
      (m : Machine I) → 3 ≤ position m.current_state → Forward m ((request_clarification m).1)
  unfolding request_clarification
  request_clarification-Forward m late = elim (Bool-cases (leb 3 m.clarification_count)) [
    | inl e ↦
        rw (e, request_clarification, answering_after)
          (transition_to-Forward answer_submitted (record m { clarification_limit_exceeded = true })
            late)
    | inr e ↦
        rw (e, request_clarification, answering_after)
          (transition_to-Forward clarification_requested
            (record m { clarification_count = m.clarification_count + 1 }) late)
  ]

  call-Forward : (c : Call I) (m : Machine I) → 3 ≤ position m.current_state → Forward m (call c m)
  unfolding call record_intent provide_clarification_response submit_answer
  call-Forward (to t) m late = transition_to-Forward t m late
  call-Forward (intent i) m late = ground arith
  call-Forward request m late = request_clarification-Forward m late
  call-Forward provide m late = transition_to-Forward waiting_input m late
  call-Forward submit m late = transition_to-Forward answer_submitted m late

  calls-Forward :
      (cs : List (Call I)) (m : Machine I) → 3 ≤ position m.current_state → Forward m (calls cs m)
  unfolding calls
  calls-Forward [] m late = ground arith
  calls-Forward (c ∷ cs) m late =
      let f = call-Forward c m late in
      let g = calls-Forward cs (call c m) (ground arith) in (ground arith, λ l. g.1 (f.1 l))

  late_request :
      (m : Machine I)
      → 3 ≤ position m.current_state
      → (b : Bool) → (request_clarification m).0 ≢ ok b
  unfolding request_clarification answering transition_to validate_exchange_transition
  late_request m late b = ground arith

  -- Once a sequence of calls has locked the response, it stays locked whatever is called, and no
  -- request for a clarification is answered any more: each raises.
  pub locked_for_good :
      (before after : List (Call I)) (id : Option ℕ) (b : Bool)
      → (calls before (new id)).response_locked ≡ true
      → ((calls after (calls before (new id))).response_locked ≡ true)
        × ((request_clarification (calls after (calls before (new id)))).0 ≢ ok b)
  locked_for_good before after id b locked =
      let late : 3 ≤ position (calls before (new id)).current_state =
        ground (arith, calls-Sane before id) in
      let f = calls-Forward after (calls before (new id)) late in
      (f.1 locked, late_request _ (ground (arith, f)) b)

  -- A request that raises leaves the state as it is, but not the machine: below three it counts as
  -- a clarification all the same, at three it sets the limit flag.
  pub request_clarification-refused :
      (m : Machine I) (e : TransitionError)
      → (request_clarification m).0 ≡ err e
      → ((request_clarification m).1.current_state ≡ m.current_state)
        × ((request_clarification m).1.clarification_count ≡ (
            if ltb m.clarification_count 3
            then m.clarification_count + 1
            else m.clarification_count))
        × ((request_clarification m).1.clarification_limit_exceeded
            ≡ (if ltb m.clarification_count 3 then m.clarification_limit_exceeded else true))
  unfolding request_clarification answering transition_to validate_exchange_transition
  request_clarification-refused m e refused = ground arith

  -- A clarification is granted exactly in `waiting_input` with fewer than three counted; the
  -- question is skipped exactly at three counted, in `waiting_input` or `clarification_requested`.
  pub request_clarification_lem :
      (m : Machine I)
      → ((request_clarification m).0 ≡ ok true
          ↔ (m.clarification_count < 3) × (m.current_state ≡ waiting_input))
        × ((request_clarification m).0 ≡ ok false
            ↔ (3 ≤ m.clarification_count)
              × (m.current_state ≡ waiting_input ⊎ m.current_state ≡ clarification_requested))
  unfolding request_clarification answering transition_to validate_exchange_transition
  request_clarification_lem m = (
    ((λ granted. ground (arith, state_at m.current_state)), (λ (few, here). ground (arith, here))),
    (
      (λ skipped. ground (arith, state_at m.current_state)),
      (λ (spent, here). elim here [ inl e ↦ ground (arith, e) | inr e ↦ ground (arith, e) ]),
    ),
  )
