-- ===== src/Question/Adaptation.antt =====
-- How far one adaptation moves the difficulty.
use ai_interviewer.Prelude.{
  ℕ, zero, suc, ◌+◌, ◌-◌, ◌≤◌, ◌<◌, String, ◌≡◌, refl, ap, ◌∙◌, inl, inr, true, ◌||◌, some, List,
  [], ◌∷◌, arith, eq_iff, ltb, leb, if◌then◌else◌, Bool-cases, Option-cases, length, get_elem?,
  get_or, get_elem?_bound,
}
use ai_interviewer.Question.Difficulty.{
  DifficultyAdaptationConfig, or_default, index, raised, increase_difficulty, decrease_difficulty,
  adapt_difficulty,
}

index-get_elem? :
    (d : String) (order : List String) (i : ℕ) → index d order ≡ some i → get_elem? order i ≡ some d
unfolding index
index-get_elem? d [] i h = cc
index-get_elem? d (e ∷ es) zero h = elim (Option-cases (index d es)) [
  | inl n ↦ ground (arith, eq_iff e d, n)
  | inr (k, n) ↦ ground (arith, eq_iff e d, n)
]
index-get_elem? d (e ∷ es) (suc i) h = elim (Option-cases (index d es)) [
  | inl n ↦ ground (arith, n)
  | inr (k, n) ↦ index-get_elem? d es i (n ∙ ap some (ground (arith, n)))
]

get_or-get_elem? :
    (order : List String) (i : ℕ) (d : String)
    → i < length order
    → get_elem? order i ≡ some (get_or order i d)
get_or-get_elem? [] i d h = absurd (omega arith)
get_or-get_elem? (e ∷ es) zero d h = refl
get_or-get_elem? (e ∷ es) (suc i) d h = get_or-get_elem? es i d (omega arith)

-- The level that an adaptation goes to.
abbrev pub level : DifficultyAdaptationConfig → ℕ → ℕ → ℕ
level config score i =
    if leb config.threshold_up score
    then raised config.max_difficulty_jump i (or_default config.difficulty_order)
    else if ltb score config.threshold_down
    then i - config.max_difficulty_jump
    else i

module _ (lower : String → String) (d : String) (settled : lower (lower d) ≡ lower d)
    (config : DifficultyAdaptationConfig) (i : ℕ)
    (known : index (lower d) (or_default config.difficulty_order) ≡ some i) where
  abbrev order : List String
  order = or_default config.difficulty_order

  here : i < length order
  here = get_elem?_bound order i (index-get_elem? (lower d) order i known)

  level_within : (score : ℕ) → level config score i < length order
  level_within score = ground (arith, here)

  goes_up :
      get_elem? order (raised config.max_difficulty_jump i order)
      ≡ some
          (increase_difficulty lower (lower d) config.max_difficulty_jump config.difficulty_order)
  unfolding increase_difficulty
  goes_up =
      rw (settled, known, increase_difficulty)
        (get_or-get_elem? order _ (lower d) (ground (arith, here)))

  goes_down :
      get_elem? order (i - config.max_difficulty_jump)
      ≡ some
          (decrease_difficulty lower (lower d) config.max_difficulty_jump config.difficulty_order)
  unfolding decrease_difficulty
  goes_down =
      rw (settled, known, decrease_difficulty)
        (get_or-get_elem? order _ (lower d) (omega (arith, here)))

  adapt_level :
      (score : ℕ)
      → get_elem? order (level config score i)
        ≡ some ((adapt_difficulty lower (some d) (some score) config).0)
  unfolding adapt_difficulty
  adapt_level score = elim (Bool-cases (leb config.threshold_up score)) [
    | inl up ↦ rw (up, adapt_difficulty) goes_up
    | inr not_up ↦ elim (Bool-cases (ltb score config.threshold_down)) [
      | inl down ↦ rw (not_up, down, adapt_difficulty) goes_down
      | inr stay ↦ rw (not_up, stay, adapt_difficulty) (index-get_elem? (lower d) order i known)
    ]
  ]

  -- After a difficulty that is in the order, in a lower case that stays as it is, the next one is
  -- in the order, at most the permitted jump away from the previous one, and above it only for a
  -- score at the upper threshold, below it only for one under the lower.
  pub adapt_difficulty_bounded :
      (score : ℕ)
      → (j : ℕ) × (get_elem? order j
          ≡ some ((adapt_difficulty lower (some d) (some score) config).0))
        × (j ≤ i + config.max_difficulty_jump)
        × (i ≤ j + config.max_difficulty_jump)
        × ((leb j i || leb config.threshold_up score) ≡ true)
        × ((leb i j || ltb score config.threshold_down) ≡ true)
  adapt_difficulty_bounded score = (
    level config score i,
    adapt_level score,
    ground (arith, here),
    ground (arith, here),
    ground (arith, here),
    ground (arith, here),
  )

  -- After such a difficulty, with the lower threshold at most the upper one, a better score never
  -- leads to an easier question.
  pub adapt_difficulty_monotone :
      (score better : ℕ)
      → config.threshold_down ≤ config.threshold_up
      → score ≤ better
      → (j : ℕ) × (k : ℕ) × (get_elem? order j
          ≡ some ((adapt_difficulty lower (some d) (some score) config).0))
        × (get_elem? order k ≡ some ((adapt_difficulty lower (some d) (some better) config).0))
        × (j ≤ k)
  adapt_difficulty_monotone score better le more = (
    level config score i,
    level config better i,
    adapt_level score,
    adapt_level better,
    ground (arith, here),
  )
