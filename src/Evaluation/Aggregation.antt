-- ===== src/Evaluation/Aggregation.antt =====
-- app/evaluation/aggregation/{normalizer,recommendation,proctoring_adjuster}.py. Scores are in
-- hundredths; `round a b` is the quotient a / b as `Decimal` rounds it to the hundredth.
use ai_interviewer.Prelude.{
  ℕ, ◌+◌, ◌*◌, String, Bool, true, false, not, ◌&&◌, Option, none, some, List, [], ◌∷◌, ltb, leb,
  ◌==◌, if◌then◌else◌,
}

-- `SectionScore`
pub record SectionScore : Type 0 where
  pub section_name : String
  pub score : ℕ
  pub weight : ℕ
  pub exchanges_evaluated : ℕ

-- `AggregationConfig`, the fields that are read here.
pub record AggregationConfig : Type 0 where
  pub max_exchange_score : ℕ
  pub strong_hire_threshold : ℕ
  pub hire_threshold : ℕ
  pub review_threshold : ℕ
  pub enable_proctoring_influence : Bool
  pub high_risk_downgrade : Bool

pub data Recommendation : Type 0 where
  no_hire review hire strong_hire : Recommendation

-- The overall risk of a proctoring report.
pub data Risk : Type 0 where
  low medium high critical : Risk

unfoldable pub calculate_final_score : List SectionScore → ℕ
calculate_final_score [] = 0
calculate_final_score (s ∷ ss) = s.score * s.weight + calculate_final_score ss

unfoldable pub max_possible : ℕ → List SectionScore → ℕ
max_possible per_exchange [] = 0
max_possible per_exchange (s ∷ ss) =
    per_exchange * s.exchanges_evaluated * s.weight + max_possible per_exchange ss

unfoldable pub normalize : (ℕ → ℕ → ℕ) → AggregationConfig → ℕ → List SectionScore → ℕ
unfolding max_possible
normalize round config final sections =
    let most = max_possible config.max_exchange_score sections in
    if most == 0 then 0 else if ltb most final then 10000 else round (final * 10000) most

unfoldable pub determine : AggregationConfig → ℕ → Recommendation
determine config score =
    if leb config.strong_hire_threshold score
    then strong_hire
    else if leb config.hire_threshold score
    then hire
    else if leb config.review_threshold score
    then review
    else no_hire

-- `_DOWNGRADE_MAP`
abbrev pub downgrade : Recommendation → Recommendation
downgrade strong_hire = hire
downgrade hire = review
downgrade review = no_hire
downgrade no_hire = no_hire

abbrev pub is_high : Option Risk → Bool
is_high none = false
is_high (some low) = false
is_high (some medium) = false
is_high (some high) = true
is_high (some critical) = true

unfoldable pub adjust : AggregationConfig → Recommendation → Option Risk → Recommendation
adjust config r risk =
    if not config.enable_proctoring_influence
    then r
    else if is_high risk && config.high_risk_downgrade
    then downgrade r
    else r

-- The four steps of the aggregation service.
unfoldable pub verdict :
    (ℕ → ℕ → ℕ) → AggregationConfig → List SectionScore → Option Risk → ℕ × Recommendation
unfolding calculate_final_score normalize determine adjust
verdict round config sections risk =
    let score = normalize round config (calculate_final_score sections) sections in
    (score, adjust config (determine config score) risk)
