-- ===== src/Coding/Agreement.antt =====
-- What the comparison of two outputs says of their lines, in terms that are not the code's.
use ai_interviewer.Prelude.{
  ℕ, zero, suc, ◌≤◌, ◌≡◌, refl, sym, ap, ◌∙◌, ◌↔◌, ◌⊎◌, inl, inr, true, ◌&&◌, List, [], ◌∷◌, ◌++◌,
  map, arith, ◌==◌, if◌then◌else◌, Bool-cases, get_or,
}
use ai_interviewer.Coding.Comparator.{
  Text, newline, is_space, is_empty, push, split_lines, rstrip, pop_empty, normalize_output,
  compare_outputs,
}
use ai_interviewer.Coding.Lines.{compare_outputs_stripped}

-- The white space of Unicode, with the separators 28 to 31, as Python has it.
abbrev pub IsWhite : ℕ → Type 0
IsWhite ch =
    ((9 ≤ ch) × (ch ≤ 13))
    ⊎ (((28 ≤ ch) × (ch ≤ 32))
        ⊎ ((ch ≡ 133)
            ⊎ ((ch ≡ 160)
                ⊎ ((ch ≡ 5760)
                    ⊎ (((8192 ≤ ch) × (ch ≤ 8202))
                        ⊎ ((ch ≡ 8232)
                            ⊎ ((ch ≡ 8233) ⊎ ((ch ≡ 8239) ⊎ ((ch ≡ 8287) ⊎ (ch ≡ 12288))))))))))

abbrev pub AreWhite : Text → Type 0
AreWhite [] = Unit
AreWhite (ch ∷ s) = IsWhite ch × AreWhite s

-- Two lines that have the same beginning, and white space after it.
abbrev pub Agree : Text → Text → Type 0
Agree x y =
    (u : Text) × (w : Text) × (v : Text) × (x ≡ u ++ w) × (y ≡ u ++ v) × AreWhite w × AreWhite v

-- What stands between the line breaks before and after a place; nothing, from the end on.
abbrev pub line : ℕ → Text → Text
line n [] = []
line zero (ch ∷ s) = if ch == newline then [] else ch ∷ line zero s
line (suc n) (ch ∷ s) = if ch == newline then line n s else line (suc n) s

space-IsWhite : (ch : ℕ) → is_space ch ≡ true → IsWhite ch
unfolding is_space
space-IsWhite ch h = ground (arith, h)

IsWhite-space : (ch : ℕ) → IsWhite ch → is_space ch ≡ true
unfolding is_space
IsWhite-space ch h = ground (arith, h)

white_gone : (w : Text) → AreWhite w → rstrip w ≡ []
unfolding rstrip
white_gone [] h = refl
white_gone (ch ∷ w) (h, hs) = rw (white_gone w hs, IsWhite-space ch h) refl

rstrip-append : (u w : Text) → AreWhite w → rstrip (u ++ w) ≡ rstrip u
unfolding rstrip
rstrip-append [] w h = white_gone w h
rstrip-append (ch ∷ u) w h = rw (rstrip-append u w h) refl

empty_is : (s : Text) → is_empty s ≡ true → s ≡ []
empty_is [] h = refl
empty_is (ch ∷ s) h = cc

stripped_off : (x : Text) → (w : Text) × (x ≡ rstrip x ++ w) × AreWhite w
unfolding rstrip
stripped_off [] = ([], refl, tt)
stripped_off (ch ∷ s) =
    let (w, e, h) = stripped_off s in
    elim (Bool-cases (is_empty (rstrip s))) [
      | inr some_left ↦ rw some_left (w, ap (λ t. ch ∷ t) e, h)
      | inl none_left ↦ elim (Bool-cases (is_space ch)) [
        | inr visible ↦ rw (none_left, visible) (w, ap (λ t. ch ∷ t) e, h)
        | inl space ↦
            let all_white : s ≡ w = e ∙ ap (λ t. t ++ w) (empty_is (rstrip s) none_left) in
            rw (none_left, space) (ch ∷ w, ap (λ t. ch ∷ t) all_white, (space-IsWhite ch space, h))
      ]
    ]

Agree-rstrip : (x y : Text) → Agree x y ↔ (rstrip x ≡ rstrip y)
Agree-rstrip x y = (
  λ (u, w, v, ex, ey, hw, hv).
      ap rstrip ex ∙ rstrip-append u w hw ∙ sym (rstrip-append u v hv) ∙ sym (ap rstrip ey),
  λ e.
      let (w, ex, hw) = stripped_off x in
      let (v, ey, hv) = stripped_off y in
      (rstrip x, w, v, ex, ey ∙ ap (λ t. t ++ v) (sym e), hw, hv),
)

get_or-push :
    (ch : ℕ) (ls : List Text) (n : ℕ) → get_or (push ch ls) (suc n) [] ≡ get_or ls (suc n) []
get_or-push ch [] n = refl
get_or-push ch (l ∷ ls) n = refl

first-push : (ch : ℕ) (ls : List Text) → get_or (push ch ls) zero [] ≡ ch ∷ get_or ls zero []
first-push ch [] = refl
first-push ch (l ∷ ls) = refl

split-line : (s : Text) (n : ℕ) → get_or (split_lines s) n [] ≡ line n s
unfolding split_lines
split-line [] zero = refl
split-line [] (suc n) = refl
split-line (ch ∷ s) zero = elim (Bool-cases (ch == newline)) [
  | inl here ↦ rw here refl
  | inr other ↦ rw other (first-push ch (split_lines s) ∙ ap (λ t. ch ∷ t) (split-line s zero))
]
split-line (ch ∷ s) (suc n) = elim (Bool-cases (ch == newline)) [
  | inl here ↦ rw here (split-line s n)
  | inr other ↦ rw other (get_or-push ch (split_lines s) n ∙ split-line s (suc n))
]

get_or-map : (ls : List Text) (n : ℕ) → get_or (map rstrip ls) n [] ≡ rstrip (get_or ls n [])
unfolding rstrip
get_or-map [] n = refl
get_or-map (l ∷ ls) zero = refl
get_or-map (l ∷ ls) (suc n) = get_or-map ls n

none_of : (ls : List Text) → is_empty ls ≡ true → ls ≡ []
none_of [] h = refl
none_of (l ∷ ls) h = cc

-- Popping empty lines changes none of the lines, the missing ones being empty.
get_or-pop : (ls : List Text) (n : ℕ) → get_or (pop_empty ls) n [] ≡ get_or ls n []
unfolding pop_empty
get_or-pop [] n = refl
get_or-pop (l ∷ ls) zero = elim (Bool-cases (is_empty (pop_empty ls) && is_empty l)) [
  | inr some_left ↦ rw some_left refl
  | inl both ↦ rw both (sym (empty_is l (ground (arith, both))))
]
get_or-pop (l ∷ ls) (suc n) = elim (Bool-cases (is_empty (pop_empty ls) && is_empty l)) [
  | inr some_left ↦ rw some_left (get_or-pop ls n)
  | inl both ↦
      let gone : [] ≡ pop_empty ls = sym (none_of (pop_empty ls) (ground (arith, both))) in
      rw both (ap (λ ks. get_or ks n []) gone ∙ get_or-pop ls n)
]

all_empty : (ls : List Text) → ((n : ℕ) → get_or ls n [] ≡ []) → pop_empty ls ≡ []
unfolding pop_empty
all_empty [] h = refl
all_empty (l ∷ ls) h = rw (all_empty ls (λ n. h (suc n)), h 0) refl

pop_ext :
    (ls ms : List Text) → ((n : ℕ) → get_or ls n [] ≡ get_or ms n []) → pop_empty ls ≡ pop_empty ms
unfolding pop_empty
pop_ext [] ms h = sym (all_empty ms (λ n. sym (h n)))
pop_ext (l ∷ ls) [] h = all_empty (l ∷ ls) h
pop_ext (l ∷ ls) (m ∷ ms) h = rw (pop_ext ls ms (λ n. h (suc n)), h 0) refl

stripped_line : (s : Text) (n : ℕ) → get_or (map rstrip (split_lines s)) n [] ≡ rstrip (line n s)
stripped_line s n = get_or-map (split_lines s) n ∙ ap rstrip (split-line s n)

-- Two outputs compare equal exactly if, at each place, their lines have the same beginning with
-- nothing but white space after it, where an output that has ended is empty; and comparing the
-- normalised outputs says the same.
pub compare_outputs_decides :
    (expected actual : Text)
    → ((compare_outputs expected actual ≡ true)
        ↔ ((n : ℕ) → Agree (line n expected) (line n actual)))
      × (compare_outputs (normalize_output expected) (normalize_output actual)
          ≡ compare_outputs expected actual)
compare_outputs_decides expected actual =
    let ((same, back), again) = compare_outputs_stripped expected actual in
    (
      (
        λ equal n. (Agree-rstrip (line n expected) (line n actual)).1 (
            sym (stripped_line expected n)
            ∙ sym (get_or-pop (map rstrip (split_lines expected)) n)
            ∙ ap (λ ls. get_or ls n []) (same equal)
            ∙ get_or-pop (map rstrip (split_lines actual)) n
            ∙ stripped_line actual n),
        λ agree. back (
            pop_ext (map rstrip (split_lines expected)) (map rstrip (split_lines actual)) (λ n.
              stripped_line expected n
              ∙ (Agree-rstrip (line n expected) (line n actual)).0 (agree n)
              ∙ sym (stripped_line actual n))),
      ),
      again,
    )
