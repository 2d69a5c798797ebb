-- ===== src/Proctoring/Escalation.antt =====
-- What a clustering rule can do to an event.
use ai_interviewer.Prelude.{
  ℕ, ◌*◌, ◌≤◌, String, ◌≡◌, refl, sym, inl, inr, true, ◌&&◌, ◌||◌, Option, none, some, List, [],
  ◌∷◌, arith, str_eq, eq_iff, ◌==◌, if◌then◌else◌, Bool-cases, any,
}
use ai_interviewer.Prelude.Result.{Result, ok, err}
use mathlib.Core.Path.{subst}
use ai_interviewer.Proctoring.Rules.{
  ProctoringRule, ClusteringRule, severity_order, is_valid_severity, EnrichedEvent, RuleError,
  triggered, base_of, cluster, allowed_event_types, apply_rules,
}

cluster_lem :
    (recent run : ℕ) (severity : String) (weight : ℕ) (rules : List ClusteringRule)
    → let (applied, applied_weight, detected) = cluster recent run severity weight rules in
      (severity_order severity ≤ severity_order applied)
      × (detected ≡ any (triggered recent run) rules)
      × ((detected || (str_eq applied severity && (applied_weight == weight * 10))) ≡ true)
unfolding cluster
cluster_lem recent run severity weight [] = ground (arith, eq_iff severity severity)
cluster_lem recent run severity weight (cr ∷ rest) = elim (Bool-cases (triggered recent run cr)) [
  | inl hit ↦ ground (arith, hit)
  | inr miss ↦ ground (arith, miss, cluster_lem recent run severity weight rest)
]

valid_or_low : (s : String) → is_valid_severity (if is_valid_severity s then s else "low") ≡ true
valid_or_low s = elim (Bool-cases (is_valid_severity s)) [
  | inl valid ↦ subst (λ b. is_valid_severity (if b then s else "low") ≡ true) (sym valid) valid
  | inr not_valid ↦
      subst (λ b. is_valid_severity (if b then s else "low") ≡ true) (sym not_valid)
        (unfold is_valid_severity in refl)
]

base-is_valid : (r : Option ProctoringRule) → is_valid_severity ((base_of r).0) ≡ true
unfolding is_valid_severity
base-is_valid none = refl
base-is_valid (some r) = valid_or_low r.base_severity

-- What an answer of the engine tells of the event, with the rules for its type.
abbrev Escalates : ℕ → ℕ → List ClusteringRule → Result RuleError EnrichedEvent → Type 0
Escalates recent run rules (err x) = Unit
Escalates recent run rules (ok e) =
    (is_valid_severity e.base_severity ≡ true)
    × (severity_order e.base_severity ≤ severity_order e.applied_severity)
    × (e.clustering_detected ≡ any (triggered recent run) rules)
    × ((e.clustering_detected
          || (str_eq e.applied_severity e.base_severity
              && (e.applied_weight == e.base_weight * 10)))
        ≡ true)

apply_rules-Escalates :
    (rule_map : String → Option ProctoringRule) (clustering_map : String → List ClusteringRule)
    (event_type : String) (recent run : ℕ)
    → Escalates recent run
        (clustering_map event_type)
        (apply_rules rule_map clustering_map event_type recent run)
unfolding apply_rules
apply_rules-Escalates rule_map clustering_map event_type recent run =
    elim (Bool-cases (any (str_eq event_type) allowed_event_types)) [
      | inl known ↦
          let base = base_of (rule_map event_type) in
          let (up, told, same) = cluster_lem recent run base.0 base.1 (clustering_map event_type) in
          rw (known, apply_rules) (base-is_valid (rule_map event_type), up, told, same)
      | inr unknown ↦ rw (unknown, apply_rules) tt
    ]

-- For a known type of event, whatever the rules: the base severity is one of the four; the applied
-- one is never below it; clustering is reported exactly if some rule for the type is triggered; and
-- without it the severity and the weight stay as they were.
pub apply_rules_escalates :
    (rule_map : String → Option ProctoringRule) (clustering_map : String → List ClusteringRule)
    (event_type : String) (recent run : ℕ) (e : EnrichedEvent)
    → apply_rules rule_map clustering_map event_type recent run ≡ ok e
    → (is_valid_severity e.base_severity ≡ true)
      × (severity_order e.base_severity ≤ severity_order e.applied_severity)
      × (e.clustering_detected ≡ any (triggered recent run) (clustering_map event_type))
      × ((e.clustering_detected
            || (str_eq e.applied_severity e.base_severity
                && (e.applied_weight == e.base_weight * 10)))
          ≡ true)
apply_rules_escalates rule_map clustering_map event_type recent run e known =
    subst (Escalates recent run (clustering_map event_type)) known
      (apply_rules-Escalates rule_map clustering_map event_type recent run)
