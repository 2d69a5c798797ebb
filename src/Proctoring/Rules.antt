-- ===== src/Proctoring/Rules.antt =====
-- app/proctoring/rules/domain/rule_definitions.py and rule_engine.py. A base weight is in
-- hundredths, a multiplier in tenths, so an applied weight is in thousandths.
use ai_interviewer.Prelude.{
  ℕ, ◌*◌, String, Bool, true, false, not, Option, none, some, List, [], ◌∷◌, str_eq, ltb, leb,
  if◌then◌else◌, any,
}
use ai_interviewer.Prelude.Result.{Result, ok, err}

pub record ProctoringRule : Type 0 where
  pub event_type : String
  pub base_severity : String
  pub base_weight : ℕ
  pub rule_version : String

pub data ConditionType : Type 0 where
  count_in_window consecutive other : ConditionType

pub record ClusteringRule : Type 0 where
  pub event_type : String
  pub condition_type : ConditionType
  pub threshold : ℕ
  pub time_window_seconds : ℕ
  pub escalated_severity : String
  pub weight_multiplier : ℕ

abbrev pub allowed_event_types : List String
allowed_event_types =
    "tab_switch" ∷ "window_blur" ∷ "window_focus_lost" ∷ "screen_recording_started"
    ∷ "screen_recording_stopped" ∷ "face_absent" ∷ "multiple_faces" ∷ "multiple_voices"
    ∷ "background_noise_spike" ∷ "camera_disabled" ∷ "microphone_disabled" ∷ "device_change" ∷ []

-- `SEVERITY_ORDER.get(severity, 0)`
unfoldable pub severity_order : String → ℕ
severity_order s =
    if str_eq s "medium"
    then 1
    else if str_eq s "high"
    then 2
    else if str_eq s "critical"
    then 3
    else 0

unfoldable pub is_valid_severity : String → Bool
is_valid_severity s = any (str_eq s) ("low" ∷ "medium" ∷ "high" ∷ "critical" ∷ [])

-- `DEFAULT_CLUSTERING_MAP.get(event_type, [])`
unfoldable pub default_clustering : String → List ClusteringRule
default_clustering t =
    if str_eq t "tab_switch"
    then record {
      event_type = "tab_switch";
      condition_type = count_in_window;
      threshold = 10;
      time_window_seconds = 60;
      escalated_severity = "medium";
      weight_multiplier = 15;
    }
      ∷ []
    else if str_eq t "face_absent"
    then record {
      event_type = "face_absent";
      condition_type = consecutive;
      threshold = 3;
      time_window_seconds = 30;
      escalated_severity = "high";
      weight_multiplier = 20;
    }
      ∷ []
    else if str_eq t "multiple_faces"
    then record {
      event_type = "multiple_faces";
      condition_type = count_in_window;
      threshold = 5;
      time_window_seconds = 300;
      escalated_severity = "critical";
      weight_multiplier = 25;
    }
      ∷ []
    else []

-- `EnrichedEvent`, without the fields that are passed through and the reason's text.
pub record EnrichedEvent : Type 0 where
  pub event_type : String
  pub base_severity : String
  pub base_weight : ℕ
  pub applied_severity : String
  pub applied_weight : ℕ
  pub clustering_detected : Bool
  pub rule_version : String

pub data RuleError : Type 0 where
  unknown_event_type : String → RuleError

abbrev pub triggered : ℕ → ℕ → ClusteringRule → Bool
triggered recent run cr = elim cr.condition_type [
  | count_in_window ↦ leb cr.threshold recent
  | consecutive ↦ leb cr.threshold run
  | other ↦ false
]

-- The base values: an unknown rule counts as low and weighs nothing.
abbrev pub base_of : Option ProctoringRule → String × ℕ × String
base_of none = ("low", 0, "v1.0.0")
base_of (some r) = (
  if is_valid_severity r.base_severity then r.base_severity else "low",
  r.base_weight,
  r.rule_version,
)

-- The loop over the clustering rules: the first that is triggered wins.
unfoldable pub cluster : ℕ → ℕ → String → ℕ → List ClusteringRule → String × ℕ × Bool
unfolding severity_order
cluster recent run severity weight [] = (severity, weight * 10, false)
cluster recent run severity weight (cr ∷ rest) =
    let later = cluster recent run severity weight rest in
    if triggered recent run cr
    then (
      if ltb (severity_order severity) (severity_order cr.escalated_severity)
          then cr.escalated_severity
          else severity,
      weight * cr.weight_multiplier,
      true,
    )
    else later

module _ (rule_map : String → Option ProctoringRule)
    (clustering_map : String → List ClusteringRule) where
  unfoldable pub apply_rules : String → ℕ → ℕ → Result RuleError EnrichedEvent
  unfolding cluster is_valid_severity
  apply_rules event_type recent run =
      if not (any (str_eq event_type) allowed_event_types)
      then err (unknown_event_type event_type)
      else let (severity, weight, version) = base_of (rule_map event_type) in
        let (applied, applied_weight, detected) =
          cluster recent run severity weight (clustering_map event_type) in
        ok (record {
          event_type = event_type;
          base_severity = severity;
          base_weight = weight;
          applied_severity = applied;
          applied_weight = applied_weight;
          clustering_detected = detected;
          rule_version = version;
        })
