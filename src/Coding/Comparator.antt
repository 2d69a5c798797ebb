-- ===== src/Coding/Comparator.antt =====
-- app/coding/evaluation/comparator.py. A text is the list of its code points.
use ai_interviewer.Prelude.{
  ℕ, Bool, true, false, ◌&&◌, ◌||◌, List, [], ◌∷◌, ◌++◌, map, leb, ◌==◌, if◌then◌else◌,
}

abbrev pub Text : Type 0
Text = List ℕ

abbrev pub newline : ℕ
newline = 10

-- `str.isspace`, which `str.rstrip` strips.
unfoldable pub is_space : ℕ → Bool
is_space ch =
    leb 9 ch && leb ch 13
    || (leb 28 ch && leb ch 32
        || (ch == 133
            || (ch == 160
                || (ch == 5760
                    || (leb 8192 ch && leb ch 8202
                        || (ch == 8232
                            || (ch == 8233 || (ch == 8239 || (ch == 8287 || ch == 12288)))))))))

abbrev pub is_empty {ℓ} : {A : Type ℓ} → List A → Bool
is_empty [] = true
is_empty (x ∷ xs) = false

abbrev pub push : ℕ → List Text → List Text
push ch [] = (ch ∷ []) ∷ []
push ch (l ∷ ls) = (ch ∷ l) ∷ ls

-- `output.split("\n")`
unfoldable pub split_lines : Text → List Text
split_lines [] = [] ∷ []
split_lines (ch ∷ s) = let rest = split_lines s in if ch == newline then [] ∷ rest else push ch rest

-- `"\n".join(lines)`
unfoldable pub join_lines : List Text → Text
join_lines [] = []
join_lines (l ∷ []) = l
join_lines (l ∷ m ∷ ls) = l ++ newline ∷ join_lines (m ∷ ls)

unfoldable pub rstrip : Text → Text
rstrip [] = []
rstrip (ch ∷ s) = let rest = rstrip s in if is_empty rest && is_space ch then [] else ch ∷ rest

-- The loop that pops empty lines off the end.
unfoldable pub pop_empty : List Text → List Text
pop_empty [] = []
pop_empty (l ∷ ls) = let rest = pop_empty ls in if is_empty rest && is_empty l then [] else l ∷ rest

-- The lines of `normalize_output` before it joins them.
abbrev pub stripped_lines : Text → List Text
stripped_lines output = pop_empty (map rstrip (split_lines output))

unfoldable pub normalize_output : Text → Text
normalize_output output = join_lines (stripped_lines output)

unfoldable pub same_text : Text → Text → Bool
same_text [] [] = true
same_text [] (b ∷ ys) = false
same_text (a ∷ xs) [] = false
same_text (a ∷ xs) (b ∷ ys) = a == b && same_text xs ys

unfoldable pub compare_outputs : Text → Text → Bool
compare_outputs expected actual = same_text (normalize_output expected) (normalize_output actual)
