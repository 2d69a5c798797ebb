-- ===== src/Question/Tests.antt =====
-- An adaptation, run through the definitions.
use ai_interviewer.Prelude.{
  ℕ, ◌+◌, ◌≤◌, String, ◌≡◌, refl, true, ◌||◌, some, [], ◌∷◌, arith, str_eq, ltb, leb, if◌then◌else◌,
  get_elem?,
}
use ai_interviewer.Question.Difficulty.{DifficultyAdaptationConfig, adapt_difficulty, index}
use ai_interviewer.Question.Adaptation.{adapt_difficulty_bounded, adapt_difficulty_monotone}

abbrev config : DifficultyAdaptationConfig
config = record {
  threshold_up = 8000;
  threshold_down = 5000;
  max_difficulty_jump = 1;
  difficulty_order = "easy" ∷ "medium" ∷ "hard" ∷ [];
}

abbrev lower : String → String
lower d = if str_eq d "Medium" then "medium" else d

abbrev next : ℕ → String
next score = (adapt_difficulty lower (some "Medium") (some score) config).0

adapt_difficulty_bounded_example :
    (j : ℕ) × (get_elem? config.difficulty_order j ≡ some (next 8500))
    × (j ≤ 2)
    × (1 ≤ j + 1)
    × ((leb j 1 || leb 8000 8500) ≡ true)
    × ((leb 1 j || ltb 8500 5000) ≡ true)
unfolding index
adapt_difficulty_bounded_example = adapt_difficulty_bounded lower "Medium" refl config 1 refl 8500

adapt_difficulty_monotone_example :
    (j : ℕ) × (k : ℕ) × (get_elem? config.difficulty_order j ≡ some (next 4000))
    × (get_elem? config.difficulty_order k ≡ some (next 8500))
    × (j ≤ k)
unfolding index
adapt_difficulty_monotone_example =
    adapt_difficulty_monotone lower "Medium" refl config 1 refl 4000 8500 (omega arith)
      (omega arith)
