-- ===== src/Interview/Orchestration/Traversal.antt =====
-- `resolve_next_question` walks the sections as if their questions stood in one row.
use ai_interviewer.Prelude.{
  ℕ, zero, suc, ◌+◌, ◌-◌, ◌≤◌, ◌<◌, String, ◌≡◌, refl, sym, ap, ◌∙◌, inl, inr, Bool, true, false,
  ◌&&◌, Option, none, some, List, [], ◌∷◌, arith, str_eq, ltb, ◌==◌, tests, Bool-cases, length,
  get_elem?, all, length-append, get_elem?-append_left, get_elem?-append_right, get_elem?_bound,
}
use ai_interviewer.Prelude.Result.{ok}
use ai_interviewer.Session.Store.{
  TemplateSectionSnapshot, TemplateSnapshot, RawSnapshot, no_object, ill_typed, object,
}
use ai_interviewer.Interview.Orchestration.Sequencer.{
  NextQuestionResult, sum_counts, section_ok, validate_template_snapshot, next_result, walk,
  resolve_next_question, section_from, get_section_for_sequence, tagged, questions,
}

length-tagged : (name : String) (qs : List ℕ) → length (tagged name qs) ≡ length qs
unfolding tagged
length-tagged name [] = refl
length-tagged name (q ∷ qs) = ap suc (length-tagged name qs)

get_elem?-tagged :
    (name : String) (qs : List ℕ) (i q : ℕ) (n : String)
    → get_elem? (tagged name qs) i ≡ some (q, n)
    → (get_elem? qs i ≡ some q) × (n ≡ name)
unfolding tagged
get_elem?-tagged name [] i q n h = cc
get_elem?-tagged name (x ∷ qs) zero q n h = ground arith
get_elem?-tagged name (x ∷ qs) (suc i) q n h = get_elem?-tagged name qs i q n h

length-questions :
    (ss : List TemplateSectionSnapshot)
    → all section_ok ss ≡ true
    → length (questions ss) ≡ sum_counts ss
unfolding questions sum_counts section_ok
length-questions [] h = refl
length-questions (s ∷ ss) h = ground (
  arith,
  length-append {0} (tagged s.section_name s.question_ids) (questions ss),
  length-tagged s.section_name s.question_ids,
  length-questions ss,
)

-- What `walk` answers at question `q` of section `name`.
abbrev answer : ℕ → ℕ → ℕ → String → NextQuestionResult
answer current total q name = record {
  question_id = q;
  sequence_order = current + 1;
  section_name = name;
  is_final_question = current == total - 1;
}

-- The parts of a section's test.
section_ok_parts :
    (s : TemplateSectionSnapshot)
    → section_ok s ≡ true
    → (str_eq s.section_name "" ≡ false) × (length s.question_ids ≡ s.question_count)
unfolding section_ok
section_ok_parts s h = ground arith

and_parts : (a b : Bool) → (a && b) ≡ true → (a ≡ true) × (b ≡ true)
and_parts a b h = ground arith

-- The section that holds the question gives it.
walk_here :
    (s : TemplateSectionSnapshot) (current total index q : ℕ) (name : String)
    → section_ok s ≡ true
    → get_elem? (tagged s.section_name s.question_ids) (current - index) ≡ some (q, name)
    → 0 < q
    → (next_result (get_elem? s.question_ids (current - index)) current total s.section_name
        ≡ ok (some (answer current total q name)))
      × (s.section_name ≡ name)
unfolding next_result
walk_here s current total index q name good at pos =
    let (given, named) =
      get_elem?-tagged s.section_name s.question_ids (current - index) q name at in
    let (filled, _) = section_ok_parts s good in (rw (given, next_result) (ground arith), sym named)

walk-questions :
    (ss : List TemplateSectionSnapshot) (current total index q : ℕ) (name : String)
    → all section_ok ss ≡ true
    → index ≤ current
    → get_elem? (questions ss) (current - index) ≡ some (q, name)
    → 0 < q
    → (walk current total ss index ≡ ok (some (answer current total q name)))
      × (section_from ss current index ≡ some name)
unfolding walk section_from questions
walk-questions [] current total index q name good le at pos = cc
walk-questions (s ∷ ss) current total index q name good le at pos =
    let (ok_s, ok_ss) = and_parts (section_ok s) (all section_ok ss) good in
    let long = length-tagged s.section_name s.question_ids ∙ (section_ok_parts s ok_s).1 in
    elim (Bool-cases (ltb current (index + s.question_count))) [
      | inl here ↦
          let (given, named) =
            walk_here s current total index q name ok_s
              (sym (
                  get_elem?-append_left (tagged s.section_name s.question_ids) (questions ss)
                    (current - index) (omega (tests, long)))
                ∙ at)
              pos in
          rw here (given, ap some named)
      | inr beyond ↦ rw beyond (
          walk-questions ss current total (index + s.question_count) q name ok_ss (omega tests)
            (ap (get_elem? (questions ss)) (omega (tests, long))
              ∙ sym (
                  get_elem?-append_right (tagged s.section_name s.question_ids) (questions ss)
                    (current - index) (omega (tests, long)))
              ∙ at)
            pos)
    ]

valid_parts :
    (raw : Option RawSnapshot) (sid : ℕ) (s : TemplateSnapshot)
    → validate_template_snapshot raw sid ≡ ok s
    → (sum_counts s.sections ≡ s.total_questions)
      × (all section_ok s.sections ≡ true)
      × (0 < s.total_questions)
unfolding validate_template_snapshot
valid_parts none sid s h = cc
valid_parts (some no_object) sid s h = cc
valid_parts (some (ill_typed n)) sid s h = cc
valid_parts (some (object t)) sid s h = ground arith

module _ (raw : Option RawSnapshot) (sid : ℕ) (s : TemplateSnapshot)
    (valid : validate_template_snapshot raw sid ≡ ok s) where
  pub length-questions-valid : length (questions s.sections) ≡ s.total_questions
  length-questions-valid =
      let (total, good, _) = valid_parts raw sid s valid in length-questions s.sections good ∙ total

  -- Of a validated snapshot the question after `current` answered ones, if its id is positive, is
  -- the one at that place of the row of all questions, with its section's name, and is final
  -- exactly at the last place.
  pub resolve_next_question_at :
      (current q : ℕ) (name : String)
      → get_elem? (questions s.sections) current ≡ some (q, name)
      → 0 < q
      → (resolve_next_question s current
          ≡ ok (
              some (record {
                question_id = q;
                sequence_order = current + 1;
                section_name = name;
                is_final_question = current + 1 == length (questions s.sections);
              })))
        × (get_section_for_sequence s current ≡ some name)
  unfolding resolve_next_question get_section_for_sequence
  resolve_next_question_at current q name at pos =
      let (total, good, some_left) = valid_parts raw sid s valid in
      let within = get_elem?_bound (questions s.sections) current at in
      let (walked, named) =
        walk-questions s.sections current s.total_questions 0 q name good (omega arith)
          (ap (get_elem? (questions s.sections)) (omega arith) ∙ at) pos in
      (ground (arith, walked, length-questions-valid), named)

  -- Of a validated snapshot no question follows once as many are answered as the sections hold.
  pub resolve_next_question_end :
      (current : ℕ)
      → length (questions s.sections) ≤ current
      → resolve_next_question s current ≡ ok none
  unfolding resolve_next_question
  resolve_next_question_end current h = ground (arith, length-questions-valid)
