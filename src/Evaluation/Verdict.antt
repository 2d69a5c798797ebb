-- ===== src/Evaluation/Verdict.antt =====
-- The bounds of the normalised score, and the order of the recommendations.
use ai_interviewer.Prelude.{
  ℕ, ◌-◌, ◌*◌, ◌≤◌, ◌<◌, ◌≡◌, refl, Bool, true, false, ◌&&◌, Option, List, [], ◌∷◌, arith, leb,
  ◌==◌, ◌⊎◌, inl, inr, none, some, ap, Bool-cases,
}
use native.Mathlib.Nat.{mul-le-mul_right}
use ai_interviewer.Evaluation.Aggregation.{
  SectionScore, AggregationConfig, Recommendation, no_hire, review, hire, strong_hire, Risk, low,
  medium, high, critical, is_high, calculate_final_score, max_possible, normalize, determine,
  downgrade, adjust, verdict,
}

abbrev pub rank : Recommendation → ℕ
rank no_hire = 0
rank review = 1
rank hire = 2
rank strong_hire = 3

-- Section by section the same share of the interview, and at least the score.
unfoldable pub no_worse : List SectionScore → List SectionScore → Bool
no_worse [] [] = true
no_worse (s ∷ ss) (t ∷ ts) =
    leb s.score t.score
    && ((s.weight == t.weight)
        && ((s.exchanges_evaluated == t.exchanges_evaluated) && no_worse ss ts))
no_worse _ _ = false

no_worse-final :
    (ss ts : List SectionScore) (n : ℕ)
    → no_worse ss ts ≡ true
    → (calculate_final_score ss ≤ calculate_final_score ts)
      × (max_possible n ss ≡ max_possible n ts)
unfolding no_worse calculate_final_score max_possible
no_worse-final [] [] n h = (omega arith, refl)
no_worse-final [] (t ∷ ts) n h = cc
no_worse-final (s ∷ ss) [] n h = cc
no_worse-final (s ∷ ss) (t ∷ ts) n h =
    let score_le : s.score ≤ t.score = ground (arith, h) in
    let weight : s.weight ≡ t.weight = ground (arith, h) in
    let evaluated : s.exchanges_evaluated ≡ t.exchanges_evaluated = ground (arith, h) in
    let rest = no_worse-final ss ts n (ground (arith, h)) in
    let share : s.score * s.weight ≤ t.score * t.weight =
      rw weight (mul-le-mul_right t.weight score_le) in
    (omega (arith, share, rest), rw (weight, evaluated) (omega (arith, rest)))

normalize_bounded :
    (round : ℕ → ℕ → ℕ) (config : AggregationConfig) (final : ℕ) (ss : List SectionScore)
    → ((a b c : ℕ) → 0 < b → a ≤ c * b → round a b ≤ c)
    → normalize round config final ss ≤ 10000
unfolding normalize
normalize_bounded round config final ss bounded =
    ground (arith, bounded (final * 10000) (max_possible config.max_exchange_score ss) 10000)

normalize_monotone :
    (round : ℕ → ℕ → ℕ) (config : AggregationConfig) (ss ts : List SectionScore)
    → ((a b c : ℕ) → 0 < b → a ≤ c * b → round a b ≤ c)
    → ((a a' b : ℕ) → a ≤ a' → round a b ≤ round a' b)
    → no_worse ss ts ≡ true
    → normalize round config (calculate_final_score ss) ss
      ≤ normalize round config (calculate_final_score ts) ts
unfolding normalize
normalize_monotone round config ss ts bounded rising better =
    let (le, same) = no_worse-final ss ts config.max_exchange_score better in
    let most = max_possible config.max_exchange_score ts in
    rw same (
      ground (
        arith,
        le,
        bounded (calculate_final_score ss * 10000) most 10000,
        rising (calculate_final_score ss * 10000) (calculate_final_score ts * 10000) most,
      ))

determine_monotone :
    (config : AggregationConfig) (a b : ℕ)
    → a ≤ b
    → rank (determine config a) ≤ rank (determine config b)
unfolding determine
determine_monotone config a b le = ground arith

rank-downgrade : (r : Recommendation) → rank (downgrade r) ≡ rank r - 1
rank-downgrade no_hire = omega arith
rank-downgrade review = omega arith
rank-downgrade hire = omega arith
rank-downgrade strong_hire = omega arith

adjust_monotone :
    (config : AggregationConfig) (r q : Recommendation) (risk : Option Risk)
    → rank r ≤ rank q
    → rank (adjust config r risk) ≤ rank (adjust config q risk)
unfolding adjust
adjust_monotone config r q risk le = ground (arith, rank-downgrade r, rank-downgrade q)

-- The report's risk lowers the recommendation.
abbrev pub IsLowering : AggregationConfig → Option Risk → Type 0
IsLowering config risk =
    (config.enable_proctoring_influence ≡ true)
    × (config.high_risk_downgrade ≡ true)
    × ((risk ≡ some high) ⊎ (risk ≡ some critical))

is_high_lem :
    (risk : Option Risk) → is_high risk ≡ true → (risk ≡ some high) ⊎ (risk ≡ some critical)
is_high_lem none h = cc
is_high_lem (some low) h = cc
is_high_lem (some medium) h = cc
is_high_lem (some high) h = inl refl
is_high_lem (some critical) h = inr refl

high_is : (risk : Option Risk) → (risk ≡ some high) ⊎ (risk ≡ some critical) → is_high risk ≡ true
high_is risk (inl e) = ap is_high e
high_is risk (inr e) = ap is_high e

adjust_lem :
    (config : AggregationConfig) (r : Recommendation) (risk : Option Risk)
    → (IsLowering config risk × (rank (adjust config r risk) ≡ rank r - 1))
      ⊎ (¬ IsLowering config risk × (adjust config r risk ≡ r))
unfolding adjust
adjust_lem config r risk = elim (Bool-cases config.enable_proctoring_influence) [
  | inr off ↦ inr (λ h. cc (h.0, off), rw off refl)
  | inl on ↦ elim (Bool-cases config.high_risk_downgrade) [
    | inr off ↦ inr (λ h. cc (h.1, off), ground (arith, on, off))
    | inl downgrading ↦ elim (Bool-cases (is_high risk)) [
      | inr calm ↦ inr (λ h. cc (high_is risk h.2, calm), ground (arith, on, calm))
      | inl risky ↦ inl (
        (on, downgrading, is_high_lem risk risky),
        rw (on, downgrading, risky) (rank-downgrade r),
      )
    ]
  ]
]

module _ (round : ℕ → ℕ → ℕ) (bounded : (a b c : ℕ) → 0 < b → a ≤ c * b → round a b ≤ c)
    (config : AggregationConfig) (risk : Option Risk) where
  -- With a rounding that keeps whole bounds: the normalised score is at most 100; where the
  -- configuration lets the proctoring lower a recommendation and the risk is high or critical, the
  -- recommendation is one level below the one of the thresholds, or the lowest; everywhere else it
  -- is the one of the thresholds.
  pub verdict_bounded :
      (ss : List SectionScore)
      → let (score, r) = verdict round config ss risk in
        (score ≤ 10000)
        × ((IsLowering config risk × (rank r ≡ rank (determine config score) - 1))
            ⊎ (¬ IsLowering config risk × (r ≡ determine config score)))
  unfolding verdict
  verdict_bounded ss = (
    normalize_bounded round config (calculate_final_score ss) ss bounded,
    adjust_lem config (determine config (normalize round config (calculate_final_score ss) ss))
        risk,
  )

  -- With a rounding that keeps whole bounds and the order: of two results with the same sections,
  -- of which the second is in no section worse, the second has no lower score and no lower
  -- recommendation, at the same proctoring risk.
  pub verdict_monotone :
      (ss ts : List SectionScore)
      → ((a a' b : ℕ) → a ≤ a' → round a b ≤ round a' b)
      → no_worse ss ts ≡ true
      → ((verdict round config ss risk).0 ≤ (verdict round config ts risk).0)
        × (rank ((verdict round config ss risk).1) ≤ rank ((verdict round config ts risk).1))
  unfolding verdict
  verdict_monotone ss ts rising better =
      let le = normalize_monotone round config ss ts bounded rising better in
      (
        le,
        adjust_monotone config
            (determine config (normalize round config (calculate_final_score ss) ss))
            (determine config (normalize round config (calculate_final_score ts) ts)) risk
            (determine_monotone config _ _ le),
      )
