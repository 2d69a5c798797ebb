-- ===== src/Evaluation/Tests.antt =====
-- Two results of one interview, run through the definitions.
use ai_interviewer.Prelude.{
  ℕ, zero, suc, ◌+◌, ◌-◌, ◌⊎◌, ◌*◌, ◌/◌, ◌≤◌, ◌<◌, ◌≡◌, ◌==◌, if◌then◌else◌, String, refl, true,
  some, List, [], ◌∷◌, arith,
}
use native.Mathlib.Nat.{div-zero, div-mul-le_self, le-div_iff_mul-le, div-lt_iff_lt-mul}
use ai_interviewer.Evaluation.Aggregation.{
  SectionScore, AggregationConfig, high, verdict, determine,
}
use ai_interviewer.Evaluation.Aggregation
use ai_interviewer.Evaluation.Aggregation.{calculate_final_score, max_possible}
use ai_interviewer.Evaluation.Sections.{
  ExchangeSummary, EvaluationSummary, normalize, aggregate, normalized_weights, set_item,
  section_data, evaluation_of,
}
use ai_interviewer.Evaluation.Totals.{aggregate_within}
use ai_interviewer.Evaluation.Verdict.{
  IsLowering, no_worse, rank, verdict_bounded, verdict_monotone,
}

abbrev config : AggregationConfig
config = record {
  max_exchange_score = 1000;
  strong_hire_threshold = 8500;
  hire_threshold = 7000;
  review_threshold = 5000;
  enable_proctoring_influence = true;
  high_risk_downgrade = true;
}

abbrev floor : ℕ → ℕ → ℕ
floor a b = a / b

floor_bounded : (a b c : ℕ) → 0 < b → a ≤ c * b → floor a b ≤ c
floor_bounded a b c pos le =
    let below : a / b < c + 1 =
      (div-lt_iff_lt-mul {k = b} {x = a} {y = c + 1} pos).1 (ground (arith, le, pos)) in
    omega (arith, below)

floor_rising : (a a' b : ℕ) → a ≤ a' → floor a b ≤ floor a' b
floor_rising a a' zero le = rw (div-zero a, div-zero a') (omega arith)
floor_rising a a' (suc b) le =
    (le-div_iff_mul-le {k = suc b} {x = a / suc b} {y = a'} (omega arith)).1
      (omega (arith, div-mul-le_self a (suc b), le))

abbrev with_coding : ℕ → List SectionScore
with_coding score =
    record { section_name = "resume"; score = 1500; weight = 20; exchanges_evaluated = 2 }
    ∷ record { section_name = "live_coding"; score = score; weight = 50; exchanges_evaluated = 1 }
    ∷ []

verdict_bounded_example :
    let (score, r) = verdict floor config (with_coding 700) (some high) in
    (score ≤ 10000)
    × ((IsLowering config (some high) × (rank r ≡ rank (determine config score) - 1))
        ⊎ (¬ IsLowering config (some high) × (r ≡ determine config score)))
verdict_bounded_example = verdict_bounded floor floor_bounded config (some high) (with_coding 700)

verdict_monotone_example :
    ((verdict floor config (with_coding 700) (some high)).0
      ≤ (verdict floor config (with_coding 900) (some high)).0)
    × (rank ((verdict floor config (with_coding 700) (some high)).1)
        ≤ rank ((verdict floor config (with_coding 900) (some high)).1))
unfolding no_worse
verdict_monotone_example =
    verdict_monotone floor floor_bounded config (some high) (with_coding 700) (with_coding 900)
      floor_rising refl

abbrev as_is : String → String
as_is s = s

abbrev asked : List ExchangeSummary
asked =
    record { exchange_id = 1; section_name = "coding round" }
    ∷ record { exchange_id = 2; section_name = "behavioral" }
    ∷ record { exchange_id = 3; section_name = "coding" }
    ∷ []

abbrev marked : List EvaluationSummary
marked =
    record { interview_exchange_id = 1; total_score = 900 }
    ∷ record { interview_exchange_id = 3; total_score = 500 }
    ∷ []

abbrev template : List (String × ℕ)
template = ("live coding", 3) ∷ ("behavioral_assessment", 2) ∷ []

names_meet : normalize as_is "coding round" ≡ normalize as_is "--live coding"
unfolding normalize
names_meet = refl

two_coding_answers :
    aggregate as_is asked marked template
    ≡ record { section_name = "live_coding"; score = 1400; weight = 3; exchanges_evaluated = 2 }
      ∷ record {
        section_name = "behavioral_assessment";
        score = 0;
        weight = 2;
        exchanges_evaluated = 0;
      }
      ∷ []
unfolding aggregate normalize normalized_weights set_item section_data evaluation_of
two_coding_answers = refl

aggregate_within_example :
    let sections = aggregate as_is asked marked template in
    let final = calculate_final_score sections in
    let possible = max_possible 1000 sections in
    (final ≤ possible)
    × (Aggregation.normalize floor config final sections
        ≡ (if possible == 0 then 0 else floor (final * 10000) possible))
aggregate_within_example = aggregate_within as_is floor config asked marked template refl
