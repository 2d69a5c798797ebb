-- ===== src/Interview/Clarification/Audit.antt =====
-- The audit log of the clarification policy.
use ai_interviewer.Prelude.{
  ℕ, ◌+◌, ◌≤◌, String, ◌≡◌, Bool, true, false, not, ◌&&◌, ◌||◌, List, [], ◌∷◌, ◌++◌, arith, ltb,
  leb, ◌==◌, if◌then◌else◌, is_some, length, all, length-append,
}
use ai_interviewer.Interview.Clarification.Policy.{
  ClarificationResponse, ClarificationAuditEntry, Policy, new, max_words, request_clarification,
  validate_response, validate_all, violates, entry_of,
}

-- The entries count from one, with no number left out.
unfoldable pub numbered : ℕ → List ClarificationAuditEntry → Bool
numbered n [] = true
numbered n (e ∷ es) = (e.clarification_number == n) && numbered (n + 1) es

-- How many of the clean entries hold an analogy.
unfoldable pub analogies : List ClarificationAuditEntry → ℕ
analogies [] = 0
analogies (e ∷ es) = (if e.contains_analogy && not e.violates_policy then 1 else 0) + analogies es

-- A clean entry keeps the word limit and gives no hint.
abbrev pub clean : ClarificationAuditEntry → Bool
clean e = e.violates_policy || (leb e.word_count max_words && not e.contains_hint)

abbrev pub IsAudited : Policy → Type 0
IsAudited p =
    (length p.audit_log ≡ p.clarification_count)
    × (numbered 1 p.audit_log ≡ true)
    × (all clean p.audit_log ≡ true)
    × (analogies p.audit_log ≤ 1)
    × (p.analogy_given ≡ false → analogies p.audit_log ≡ 0)

analogies_append :
    (es : List ClarificationAuditEntry) (e : ClarificationAuditEntry)
    → analogies (es ++ e ∷ []) ≡ analogies es + analogies (e ∷ [])
unfolding analogies
analogies_append [] e = ground arith
analogies_append (x ∷ es) e = ground (arith, analogies_append es e)

numbered_append :
    (es : List ClarificationAuditEntry) (e : ClarificationAuditEntry) (n : ℕ)
    → numbered n es ≡ true
    → e.clarification_number ≡ n + length es
    → numbered n (es ++ e ∷ []) ≡ true
unfolding numbered
numbered_append [] e n h a = ground arith
numbered_append (x ∷ es) e n h a = ground (arith, numbered_append es e (n + 1))

all_append :
    (es : List ClarificationAuditEntry) (e : ClarificationAuditEntry)
    → all clean es ≡ true
    → clean e ≡ true
    → all clean (es ++ e ∷ []) ≡ true
all_append [] e h c = ground arith
all_append (x ∷ es) e h c = ground (arith, all_append es e)

validate_response-IsAudited :
    (r : ClarificationResponse) (p : Policy) → IsAudited p → IsAudited ((validate_response r p).1)
unfolding validate_response analogies
validate_response-IsAudited r p (counted, numbers, cleans, once, free) =
    let e = entry_of (p.clarification_count + 1) (violates p r) r in
    (
      ground (arith, length-append p.audit_log (e ∷ [])),
      numbered_append p.audit_log e 1 numbers (ground arith),
      all_append p.audit_log e cleans (ground arith),
      ground (arith, analogies_append p.audit_log e),
      ground (arith, analogies_append p.audit_log e),
    )

validate_all-IsAudited :
    (rs : List ClarificationResponse) (p : Policy) → IsAudited p → IsAudited (validate_all rs p)
unfolding validate_all
validate_all-IsAudited [] p h = h
validate_all-IsAudited (r ∷ rs) p h =
    validate_all-IsAudited rs ((validate_response r p).1) (validate_response-IsAudited r p h)

validate_all_count :
    (rs : List ClarificationResponse) (p : Policy)
    → (validate_all rs p).clarification_count ≡ p.clarification_count + length rs
unfolding validate_all validate_response
validate_all_count [] p = ground arith
validate_all_count (r ∷ rs) p = ground (arith, validate_all_count rs ((validate_response r p).1))

-- After any responses on a new policy: the audit log counts as many entries as responses, numbered
-- from one, those without a violation keep to 120 words and give no hint, at most one of them holds
-- an analogy, and a further request is granted exactly while there were fewer than three.
pub policy_audited :
    (rs : List ClarificationResponse) (text : String)
    → let p = validate_all rs new in
      (length p.audit_log ≡ length rs)
      × (numbered 1 p.audit_log ≡ true)
      × (all clean p.audit_log ≡ true)
      × (analogies p.audit_log ≤ 1)
      × (is_some (request_clarification text p) ≡ ltb (length rs) 3)
unfolding analogies numbered request_clarification
policy_audited rs text =
    let (counted, numbers, cleans, once, _) = validate_all-IsAudited rs new (ground arith) in
    let total = validate_all_count rs new in
    (ground (arith, counted, total), numbers, cleans, once, ground (arith, total))
