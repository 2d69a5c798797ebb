-- ===== src/Proctoring/Tests.antt =====
-- Repeated tab switches, run through the rule engine.
use ai_interviewer.Prelude.{
  ◌≤◌, String, ◌≡◌, refl, true, Option, none, some, str_eq, if◌then◌else◌, any,
}
use ai_interviewer.Prelude.Result.{ok}
use ai_interviewer.Proctoring.Rules.{
  ProctoringRule, EnrichedEvent, severity_order, is_valid_severity, default_clustering, triggered,
  apply_rules,
}
use ai_interviewer.Proctoring.Escalation.{apply_rules_escalates}

abbrev rules : String → Option ProctoringRule
rules t =
    if str_eq t "tab_switch"
    then some (record {
      event_type = "tab_switch";
      base_severity = "low";
      base_weight = 50;
      rule_version = "v1.0.0";
    })
    else none

abbrev switched : EnrichedEvent
switched = record {
  event_type = "tab_switch";
  base_severity = "low";
  base_weight = 50;
  applied_severity = "medium";
  applied_weight = 750;
  clustering_detected = true;
  rule_version = "v1.0.0";
}

escalated : apply_rules rules default_clustering "tab_switch" 12 0 ≡ ok switched
unfolding apply_rules default_clustering severity_order is_valid_severity
escalated = refl

apply_rules_escalates_example :
    (is_valid_severity "low" ≡ true)
    × (severity_order "low" ≤ severity_order "medium")
    × (true ≡ any (triggered 12 0) (default_clustering "tab_switch"))
    × (true ≡ true)
apply_rules_escalates_example =
    apply_rules_escalates rules default_clustering "tab_switch" 12 0 switched escalated
