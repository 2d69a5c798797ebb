-- ===== src/Question/Difficulty.antt =====
-- app/question/selection/domain/difficulty.py. Scores and thresholds are in hundredths; `lower` is
-- Python's `str.lower`.
use ai_interviewer.Prelude.{
  ℕ, ◌+◌, ◌-◌, String, Bool, Option, none, some, List, [], ◌∷◌, str_eq, ltb, leb, if◌then◌else◌,
  length, get_or,
}

-- `DifficultyAdaptationConfig`, the fields that the functions read.
pub record DifficultyAdaptationConfig : Type 0 where
  pub threshold_up : ℕ
  pub threshold_down : ℕ
  pub max_difficulty_jump : ℕ
  pub difficulty_order : List String

abbrev pub default_difficulty_order : List String
default_difficulty_order = "easy" ∷ "medium" ∷ "hard" ∷ []

-- `order or DEFAULT_DIFFICULTY_ORDER`
abbrev pub or_default : List String → List String
or_default [] = default_difficulty_order
or_default (d ∷ ds) = d ∷ ds

-- `order.index(d)`, with `none` where `d not in order`.
unfoldable pub index : String → List String → Option ℕ
index d [] = none
index d (e ∷ es) =
    let rest = index d es in
    if str_eq e d then some 0 else elim rest [ none ↦ none | some i ↦ some (i + 1) ]

-- `min(idx + max_jump, len(order) - 1)`
abbrev pub raised : ℕ → ℕ → List String → ℕ
raised jump i order = if leb (i + jump) (length order - 1) then i + jump else length order - 1

moved_to : String → List String → (ℕ → ℕ) → Option ℕ → String
moved_to d order move none = d
moved_to d order move (some i) = get_or order (move i) d

-- What the reason text tells: the rule, and whether it ended at the same difficulty.
pub data Reason : Type 0 where
  first_question in_range : Reason
  above below : Bool → Reason

module _ (lower : String → String) where
  unfoldable pub increase_difficulty : String → ℕ → List String → String
  unfolding moved_to index
  increase_difficulty current jump given =
      let order = or_default given in
      moved_to (lower current) order (λ i. raised jump i order) (index (lower current) order)

  unfoldable pub decrease_difficulty : String → ℕ → List String → String
  unfolding moved_to index
  decrease_difficulty current jump given =
      let order = or_default given in
      moved_to (lower current) order (λ i. i - jump) (index (lower current) order)

  first_of : List String → String
  first_of [] = "medium"
  first_of (d ∷ ds) = d

  adapt : Option String → Option ℕ → DifficultyAdaptationConfig → String × Reason
  unfolding increase_difficulty decrease_difficulty first_of
  adapt (some d) (some score) config =
      let before = lower d in
      let up = increase_difficulty before config.max_difficulty_jump config.difficulty_order in
      let down = decrease_difficulty before config.max_difficulty_jump config.difficulty_order in
      if leb config.threshold_up score
      then (up, above (str_eq up before))
      else if ltb score config.threshold_down
      then (down, below (str_eq down before))
      else (before, in_range)
  adapt _ _ config = (first_of config.difficulty_order, first_question)

  unfoldable pub adapt_difficulty :
      Option String → Option ℕ → DifficultyAdaptationConfig → String × Reason
  unfolding adapt
  adapt_difficulty previous score config = adapt previous score config
