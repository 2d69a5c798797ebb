-- ===== src/Coding/Lines.antt =====
-- Two outputs compare equal exactly if the lines that the code makes of them are the same.
use ai_interviewer.Prelude.{
  ℕ, ◌≡◌, refl, sym, ap, ◌∙◌, ◌↔◌, ◌⊎◌, inl, inr, Bool, true, false, not, ◌&&◌, List, [], ◌∷◌, ◌++◌,
  map, arith, ◌==◌, Bool-cases, all,
}
use ai_interviewer.Coding.Comparator.{
  Text, newline, is_space, is_empty, push, split_lines, join_lines, rstrip, pop_empty,
  stripped_lines, normalize_output, same_text, compare_outputs,
}

-- A text of one line.
abbrev one_line : Text → Bool
one_line l = all (λ ch. not (ch == newline)) l

split-one : (l : Text) → one_line l ≡ true → split_lines l ≡ l ∷ []
unfolding split_lines
split-one [] h = refl
split-one (ch ∷ l) h =
    let other : (ch == newline) ≡ false = ground (arith, h) in
    rw (other, split-one l (ground (arith, h))) refl

split-append : (l s : Text) → one_line l ≡ true → split_lines (l ++ newline ∷ s) ≡ l ∷ split_lines s
unfolding split_lines
split-append [] s h = refl
split-append (ch ∷ l) s h =
    let other : (ch == newline) ≡ false = ground (arith, h) in
    rw (other, split-append l s (ground (arith, h))) refl

split-join :
    (l : Text) (ls : List Text)
    → all one_line (l ∷ ls) ≡ true
    → split_lines (join_lines (l ∷ ls)) ≡ l ∷ ls
unfolding join_lines
split-join l [] h = split-one l (ground (arith, h))
split-join l (m ∷ ls) h =
    split-append l (join_lines (m ∷ ls)) (ground (arith, h))
    ∙ ap (λ r. l ∷ r) (split-join m ls (ground (arith, h)))

push-all :
    (ch : ℕ) (ls : List Text)
    → (ch == newline) ≡ false
    → all one_line ls ≡ true
    → all one_line (push ch ls) ≡ true
push-all ch [] other h = ground (arith, other)
push-all ch (l ∷ ls) other h = ground (arith, other, h)

split-all : (s : Text) → all one_line (split_lines s) ≡ true
unfolding split_lines
split-all [] = refl
split-all (ch ∷ s) = elim (Bool-cases (ch == newline)) [
  | inl here ↦ rw (here, split-all s) refl
  | inr other ↦ rw other (push-all ch (split_lines s) other (split-all s))
]

rstrip_line : (l : Text) → one_line l ≡ true → one_line (rstrip l) ≡ true
unfolding rstrip
rstrip_line [] h = refl
rstrip_line (ch ∷ l) h = ground (arith, h, rstrip_line l)

rstrip_idem : (l : Text) → rstrip (rstrip l) ≡ rstrip l
unfolding rstrip
rstrip_idem [] = refl
rstrip_idem (ch ∷ l) = elim (Bool-cases (is_empty (rstrip l) && is_space ch)) [
  | inl both ↦ rw both refl
  | inr some_left ↦ rw (some_left, rstrip_idem l, some_left) refl
]

pop_idem : (ls : List Text) → pop_empty (pop_empty ls) ≡ pop_empty ls
unfolding pop_empty
pop_idem [] = refl
pop_idem (l ∷ ls) = elim (Bool-cases (is_empty (pop_empty ls) && is_empty l)) [
  | inl both ↦ rw both refl
  | inr some_left ↦ rw (some_left, pop_idem ls, some_left) refl
]

pop-all : (p : Text → Bool) (ls : List Text) → all p ls ≡ true → all p (pop_empty ls) ≡ true
unfolding pop_empty
pop-all p [] h = refl
pop-all p (l ∷ ls) h = ground (arith, h, pop-all p ls)

same_text_sound : (a b : Text) → same_text a b ≡ true → a ≡ b
unfolding same_text
same_text_sound [] [] e = refl
same_text_sound [] (y ∷ ys) e = cc
same_text_sound (x ∷ xs) [] e = cc
same_text_sound (x ∷ xs) (y ∷ ys) e =
    let first : x ≡ y = ground (arith, e) in cc (first, same_text_sound xs ys (ground (arith, e)))

same_text_refl : (a : Text) → same_text a a ≡ true
unfolding same_text
same_text_refl [] = refl
same_text_refl (x ∷ xs) = ground (arith, same_text_refl xs)

rstrip-all : (ls : List Text) → all one_line ls ≡ true → all one_line (map rstrip ls) ≡ true
rstrip-all [] h = refl
rstrip-all (l ∷ ls) h = ground (arith, h, rstrip_line l, rstrip-all ls)

-- Stripping lines that were stripped, and then popped, changes none.
strip_popped : (ls : List Text) → map rstrip (pop_empty (map rstrip ls)) ≡ pop_empty (map rstrip ls)
unfolding pop_empty
strip_popped [] = refl
strip_popped (l ∷ ls) =
    elim (Bool-cases (is_empty (pop_empty (map rstrip ls)) && is_empty (rstrip l))) [
      | inl both ↦ rw both refl
      | inr some_left ↦ rw (some_left, rstrip_idem l, strip_popped ls) refl
    ]

List-cases {ℓ} : {A : Type ℓ} (xs : List A) → (xs ≡ []) ⊎ ((y : A) × (ys : List A) × (xs ≡ y ∷ ys))
List-cases [] = inl refl
List-cases (y ∷ ys) = inr (y, ys, refl)

stripped_one_line : (s : Text) → all one_line (stripped_lines s) ≡ true
stripped_one_line s =
    pop-all one_line (map rstrip (split_lines s)) (rstrip-all (split_lines s) (split-all s))

nothing : stripped_lines (join_lines []) ≡ []
unfolding join_lines split_lines rstrip pop_empty
nothing = refl

-- Normalising keeps the stripped lines.
stripped-normalize : (s : Text) → stripped_lines (normalize_output s) ≡ stripped_lines s
unfolding normalize_output
stripped-normalize s = elim (List-cases (stripped_lines s)) [
  | inl none_left ↦ ap (λ ls. stripped_lines (join_lines ls)) none_left ∙ nothing ∙ sym none_left
  | inr (l, ls, e) ↦
      let back = split-join l ls (sym (ap (all one_line) e) ∙ stripped_one_line s) in
      ap (λ ls. stripped_lines (join_lines ls)) e
      ∙ ap (λ ms. pop_empty (map rstrip ms)) (back ∙ sym e)
      ∙ ap pop_empty (strip_popped (split_lines s))
      ∙ pop_idem (map rstrip (split_lines s))
]

normalize_idem : (s : Text) → normalize_output (normalize_output s) ≡ normalize_output s
unfolding normalize_output
normalize_idem s = ap join_lines (stripped-normalize s)

pub compare_outputs_stripped :
    (expected actual : Text)
    → ((compare_outputs expected actual ≡ true) ↔ (stripped_lines expected ≡ stripped_lines actual))
      × (compare_outputs (normalize_output expected) (normalize_output actual)
          ≡ compare_outputs expected actual)
unfolding compare_outputs normalize_output
compare_outputs_stripped expected actual = (
  (
    λ e.
        sym (stripped-normalize expected)
        ∙ ap stripped_lines
            (same_text_sound (normalize_output expected) (normalize_output actual) e)
        ∙ stripped-normalize actual,
    λ e.
        ap (λ ls. same_text (join_lines ls) (normalize_output actual)) e
        ∙ same_text_refl (normalize_output actual),
  ),
  ap (λ t. same_text t (normalize_output (normalize_output actual))) (normalize_idem expected)
      ∙ ap (same_text (normalize_output expected)) (normalize_idem actual),
)
