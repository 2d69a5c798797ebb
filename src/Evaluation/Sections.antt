-- ===== src/Evaluation/Sections.antt =====
-- app/evaluation/aggregation/section_aggregator.py. Scores are in hundredths; `str.lower` is a
-- parameter. A dictionary is the list of its items, or a function where only its values are read.
use ai_interviewer.Prelude.{
  ℕ, ◌+◌, String, Bool, true, false, ◌&&◌, ◌||◌, Option, none, some, List, [], ◌∷◌, map, str_eq,
  leb, ◌==◌, if◌then◌else◌,
}
use Prim.Native.Char.{code}
use ai_interviewer.Evaluation.Aggregation.{SectionScore}

pub record ExchangeSummary : Type 0 where
  pub exchange_id : ℕ
  pub section_name : String

pub record EvaluationSummary : Type 0 where
  pub interview_exchange_id : ℕ
  pub total_score : ℕ

abbrev is_word : ℕ → Bool
is_word ch = leb 97 ch && leb ch 122 || leb 48 ch && leb ch 57

abbrev is_underscore : ℕ → Bool
is_underscore ch = ch == 95

-- `re.sub(r"[^a-z0-9]+", "_", s)`; the flag tells whether the character before was replaced.
unfoldable pub collapse : Bool → String → String
collapse gap String.[] = String.[]
collapse gap (String.◌∷◌ ch s) =
    let word = collapse false s in
    let more = collapse true s in
    if is_word (code ch) then String.◌∷◌ ch word else if gap then more else String.◌∷◌ "_" more

unfoldable pub lstrip : (ℕ → Bool) → String → String
lstrip p String.[] = String.[]
lstrip p (String.◌∷◌ ch s) = let rest = lstrip p s in if p (code ch) then rest else String.◌∷◌ ch s

abbrev is_nil : String → Bool
is_nil String.[] = true
is_nil (String.◌∷◌ ch s) = false

unfoldable pub rstrip : (ℕ → Bool) → String → String
rstrip p String.[] = String.[]
rstrip p (String.◌∷◌ ch s) =
    let rest = rstrip p s in if is_nil rest && p (code ch) then String.[] else String.◌∷◌ ch rest

-- `s.replace("_", "")`
unfoldable pub compact : String → String
compact String.[] = String.[]
compact (String.◌∷◌ ch s) =
    let rest = compact s in if is_underscore (code ch) then rest else String.◌∷◌ ch rest

abbrev pub section_name_aliases : List (String × String)
section_name_aliases =
    ("resume", "resume_analysis")
    ∷ ("resume_experience", "resume_analysis")
    ∷ ("resume_and_experience_analysis", "resume_analysis")
    ∷ ("self_intro", "self_introduction")
    ∷ ("selfintroduction", "self_introduction")
    ∷ ("behavioral", "behavioral_assessment")
    ∷ ("behavioral_round", "behavioral_assessment")
    ∷ ("coding", "live_coding")
    ∷ ("coding_round", "live_coding")
    ∷ ("technical", "technical_concepts")
    ∷ ("technical_depth", "technical_concepts")
    ∷ ("complexity", "complexity_analysis")
    ∷ []

unfoldable pub item : {A : Type 0} → String → List (String × A) → Option A
item k [] = none
item k ((j, a) ∷ items) = let rest = item k items in if str_eq j k then some a else rest

abbrev or_name : Option String → String → String
or_name none s = s
or_name (some a) s = a

abbrev named : String → String
named normalized =
    if is_nil normalized
    then "unknown"
    else or_name (item normalized section_name_aliases)
        (or_name (item (compact normalized) section_name_aliases) normalized)

-- The white space at the ends, which is stripped first, would be collapsed and stripped as well.
unfoldable pub normalize : (String → String) → String → String
unfolding collapse lstrip rstrip compact item
normalize lower s = named (
    rstrip is_underscore
      (lstrip is_underscore (collapse false (lower (if is_nil s then "unknown" else s)))))

-- `d[key] = value`
unfoldable pub set_item : {A : Type 0} → String → A → List (String × A) → List (String × A)
set_item k a [] = (k, a) ∷ []
set_item k a ((j, b) ∷ items) =
    let rest = set_item k a items in if str_eq j k then (j, a) ∷ items else (j, b) ∷ rest

unfoldable pub normalized_weights :
    (String → String) → List (String × ℕ) → List (String × ℕ) → List (String × ℕ)
normalized_weights name [] items = items
normalized_weights name ((s, w) ∷ weights) items =
    normalized_weights name weights (set_item (name s) w items)

-- `evaluation_by_exchange`: of two evaluations of an exchange the last.
unfoldable pub evaluation_of : ℕ → List EvaluationSummary → Option EvaluationSummary
evaluation_of i [] = none
evaluation_of i (e ∷ es) = elim (evaluation_of i es) [
  | some later ↦ some later
  | none ↦ if e.interview_exchange_id == i then some e else none
]

pub record Data : Type 0 where
  pub score : ℕ
  pub count : ℕ

abbrev pub counted : Option EvaluationSummary → Data → Data
counted none d = d
counted (some e) d = record { score = d.score + e.total_score; count = d.count + 1 }

-- `section_data`, and 0 for a section that it does not hold.
unfoldable pub section_data :
    (String → String)
    → List EvaluationSummary
    → List ExchangeSummary
    → (String → Data)
    → String
    → Data
section_data name evaluations [] d = d
section_data name evaluations (x ∷ xs) d = section_data name evaluations xs (λ s.
    if str_eq (name x.section_name) s
    then counted (evaluation_of x.exchange_id evaluations) (d s)
    else d s)

abbrev pub no_data : String → Data
no_data s = record { score = 0; count = 0 }

abbrev pub scored : (String → Data) → String × ℕ → SectionScore
scored d (s, w) = record {
  section_name = s;
  score = (d s).score;
  weight = w;
  exchanges_evaluated = (d s).count;
}

unfoldable pub aggregate :
    (String → String)
    → List ExchangeSummary
    → List EvaluationSummary
    → List (String × ℕ)
    → List SectionScore
aggregate lower exchanges evaluations template_weights =
    map (scored (section_data (normalize lower) evaluations exchanges no_data))
      (normalized_weights (normalize lower) template_weights [])
