-- ===== src/Evaluation/Totals.antt =====
-- The sections that the aggregator makes, as the verdict takes them.
use ai_interviewer.Prelude.{
  ℕ, ◌*◌, ◌≤◌, String, ◌≡◌, refl, ◌∙◌, inl, inr, Bool, true, false, Option, none, some, List, [],
  ◌∷◌, map, arith, str_eq, ltb, leb, ◌==◌, if◌then◌else◌, Bool-cases, Option-cases, all,
}
use mathlib.Core.Path.{subst}
use native.Mathlib.Nat.{mul-add, mul-le-mul_right}
use ai_interviewer.Evaluation.Aggregation
use ai_interviewer.Evaluation.Aggregation.{
  AggregationConfig, SectionScore, calculate_final_score, max_possible,
}
use ai_interviewer.Evaluation.Sections.{
  ExchangeSummary, EvaluationSummary, evaluation_of, section_data, counted, no_data, scored,
  normalize, normalized_weights, aggregate, Data,
}

-- No evaluation is above the most that an exchange can have.
abbrev pub not_above : ℕ → EvaluationSummary → Bool
not_above most e = leb e.total_score most

found_within :
    (most i : ℕ) (es : List EvaluationSummary) (e : EvaluationSummary)
    → all (not_above most) es ≡ true
    → evaluation_of i es ≡ some e
    → e.total_score ≤ most
unfolding evaluation_of
found_within most i [] e all_in had = cc
found_within most i (x ∷ xs) e all_in had = elim (Option-cases (evaluation_of i xs)) [
  | inr (later, there) ↦
      found_within most i xs e (ground (arith, all_in)) (there ∙ (rw (there, evaluation_of) at had))
  | inl none_there ↦
      let only = rw (none_there, evaluation_of) at had in
      elim (Bool-cases (x.interview_exchange_id == i)) [
        | inl this ↦
            let same : x ≡ e = cc (rw this at only) in
            subst (λ (y : EvaluationSummary). y.total_score ≤ most) same (ground (arith, all_in))
        | inr other ↦ absurd (cc (rw other at only))
      ]
]

counted_within :
    (most : ℕ) (o : Option EvaluationSummary) (d : Data)
    → ((e : EvaluationSummary) → o ≡ some e → e.total_score ≤ most)
    → d.score ≤ most * d.count
    → (counted o d).score ≤ most * (counted o d).count
counted_within most none d small h = h
counted_within most (some e) d small h = omega (arith, h, small e refl, mul-add most d.count 1)

one_more :
    (p : String → Bool) (most : ℕ) (es : List EvaluationSummary) (i : ℕ) (d : String → Data)
    → all (not_above most) es ≡ true
    → ((s : String) → (d s).score ≤ most * (d s).count)
    → (s : String)
    → let after = if p s then counted (evaluation_of i es) (d s) else d s in
      after.score ≤ most * after.count
one_more p most es i d all_in h s = elim (Bool-cases (p s)) [
  | inl here ↦
      rw here (
        counted_within most (evaluation_of i es) (d s) (λ e. found_within most i es e all_in) (h s))
  | inr other ↦ rw other (h s)
]

data_within :
    (name : String → String) (most : ℕ) (es : List EvaluationSummary) (xs : List ExchangeSummary)
    (d : String → Data)
    → all (not_above most) es ≡ true
    → ((s : String) → (d s).score ≤ most * (d s).count)
    → (s : String)
    → (section_data name es xs d s).score ≤ most * (section_data name es xs d s).count
unfolding section_data
data_within name most es [] d all_in h s = h s
data_within name most es (x ∷ xs) d all_in h s =
    data_within name most es xs
      (λ s.
        if str_eq (name x.section_name) s
        then counted (evaluation_of x.exchange_id es) (d s)
        else d s)
      all_in (one_more (str_eq (name x.section_name)) most es x.exchange_id d all_in h) s

sections_within :
    (most : ℕ) (d : String → Data) (ws : List (String × ℕ))
    → ((s : String) → (d s).score ≤ most * (d s).count)
    → calculate_final_score (map (scored d) ws) ≤ max_possible most (map (scored d) ws)
unfolding calculate_final_score max_possible
sections_within most d [] h = omega arith
sections_within most d ((s, w) ∷ ws) h =
    omega (arith, mul-le-mul_right w (h s), sections_within most d ws h)

uncapped :
    (round : ℕ → ℕ → ℕ) (config : AggregationConfig) (final : ℕ) (sections : List SectionScore)
    → final ≤ max_possible config.max_exchange_score sections
    → Aggregation.normalize round config final sections ≡ (
        if max_possible config.max_exchange_score sections == 0
        then 0
        else round (final * 10000) (max_possible config.max_exchange_score sections))
unfolding Aggregation.normalize
uncapped round config final sections below =
    let capped : ltb (max_possible config.max_exchange_score sections) final ≡ false =
      ground (arith, below) in
    rw capped refl

-- If no evaluation is above the most that an exchange can have: the sections that the aggregator
-- makes, whatever the exchanges, the names and the weights of the template, have no final score
-- above the possible one, so that the normalised score is their quotient and never the cap.
pub aggregate_within :
    (lower : String → String) (round : ℕ → ℕ → ℕ) (config : AggregationConfig)
    (exchanges : List ExchangeSummary) (evaluations : List EvaluationSummary)
    (weights : List (String × ℕ))
    → all (not_above config.max_exchange_score) evaluations ≡ true
    → let sections = aggregate lower exchanges evaluations weights in
      let final = calculate_final_score sections in
      let possible = max_possible config.max_exchange_score sections in
      (final ≤ possible)
      × (Aggregation.normalize round config final sections
          ≡ (if possible == 0 then 0 else round (final * 10000) possible))
unfolding aggregate
aggregate_within lower round config exchanges evaluations weights all_in =
    let d = section_data (normalize lower) evaluations exchanges no_data in
    let most = config.max_exchange_score in
    let below = sections_within most d (normalized_weights (normalize lower) weights []) (
      data_within (normalize lower) most evaluations exchanges no_data all_in (λ s. omega arith)) in
    (below, uncapped round config _ (aggregate lower exchanges evaluations weights) below)
