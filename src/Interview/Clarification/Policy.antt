-- ===== src/Interview/Clarification/Policy.antt =====
-- app/interview/exchanges/clarification_policy.py: what a clarification may say.
use ai_interviewer.Prelude.{
  ℕ, ◌+◌, String, Bool, true, false, not, ◌&&◌, ◌||◌, Option, none, some, List, [], ◌∷◌, ◌++◌, map,
  str_eq, ltb, leb, ◌==◌, if◌then◌else◌,
}

-- `CLARIFICATION_PROMPT_CONSTRAINTS` and the limits that come from it.
abbrev pub max_words : ℕ
max_words = 120

abbrev pub max_clarifications : ℕ
max_clarifications = 3

abbrev pub allow_hint : Bool
allow_hint = false

pub record ClarificationRequest : Type 0 where
  pub original_question : String
  pub candidate_clarification_request : String
  pub clarification_count_so_far : ℕ
  pub allow_hint : Bool
  pub previous_clarifications : List String

pub record ClarificationResponse : Type 0 where
  pub clarification_text : String
  pub contains_hint : Bool
  pub contains_analogy : Bool
  pub violates_policy : Bool
  pub word_count : ℕ

pub record ClarificationAuditEntry : Type 0 where
  pub clarification_number : ℕ
  pub candidate_request : String
  pub response_text : String
  pub contains_hint : Bool
  pub contains_analogy : Bool
  pub violates_policy : Bool
  pub word_count : ℕ

-- `ClarificationPolicy`, a mutable object.
pub record Policy : Type 0 where
  pub clarification_count : ℕ
  pub analogy_given : Bool
  pub hint_given : Bool
  pub audit_log : List ClarificationAuditEntry

abbrev pub new : Policy
new = record { clarification_count = 0; analogy_given = false; hint_given = false; audit_log = [] }

-- The dataclass fills in a word count of 0; `words` is the length of `str.split()`.
unfoldable pub response :
    (words : String → ℕ) → String → Bool → Bool → Bool → ℕ → ClarificationResponse
response words t hint analogy violates count = record {
  clarification_text = t;
  contains_hint = hint;
  contains_analogy = analogy;
  violates_policy = violates;
  word_count = if (count == 0) && not (str_eq t "") then words t else count;
}

abbrev pub limit_exceeded : Policy → Bool
limit_exceeded p = leb max_clarifications p.clarification_count

abbrev pub can_clarify : Policy → Bool
can_clarify p = ltb p.clarification_count max_clarifications

unfoldable pub request_clarification : String → Policy → Option ClarificationRequest
request_clarification request p =
    if limit_exceeded p
    then none
    else some (record {
      original_question = "";
      candidate_clarification_request = request;
      clarification_count_so_far = p.clarification_count;
      allow_hint = false;
      previous_clarifications = map (λ entry. entry.response_text) p.audit_log;
    })

abbrev same_flag : Bool → Bool → Bool
same_flag true b = b
same_flag false b = not b

-- The three rules.
abbrev pub violates : Policy → ClarificationResponse → Bool
violates p r =
    ltb max_words r.word_count
    || (r.contains_analogy && p.analogy_given || r.contains_hint && not allow_hint)

abbrev pub entry_of : ℕ → Bool → ClarificationResponse → ClarificationAuditEntry
entry_of n violation r = record {
  clarification_number = n;
  candidate_request = "";
  response_text = r.clarification_text;
  contains_hint = r.contains_hint;
  contains_analogy = r.contains_analogy;
  violates_policy = violation;
  word_count = r.word_count;
}

-- The flag is corrected where it disagrees.
unfoldable pub validate_response : ClarificationResponse → Policy → ClarificationResponse × Policy
validate_response r p =
    let violation = violates p r in
    (
      if not (same_flag violation r.violates_policy)
          then record r { violates_policy = violation }
          else r,
      record {
        clarification_count = p.clarification_count + 1;
        analogy_given = if r.contains_analogy then true else p.analogy_given;
        hint_given = if r.contains_hint then true else p.hint_given;
        audit_log = p.audit_log ++ entry_of (p.clarification_count + 1) violation r ∷ [];
      },
    )

unfoldable pub validate_all : List ClarificationResponse → Policy → Policy
unfolding validate_response
validate_all [] p = p
validate_all (r ∷ rs) p = validate_all rs ((validate_response r p).1)
