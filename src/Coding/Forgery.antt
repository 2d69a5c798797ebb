-- ===== src/Coding/Forgery.antt =====
-- A program writes to the stream in which the measurements are looked for.
use ai_interviewer.Prelude.{
  ℕ, ◌≡◌, refl, sym, ap, ◌∙◌, inl, inr, true, false, Option, some, List, [], ◌∷◌, ◌++◌, arith, ◌==◌,
  Bool-cases, any,
}
use ai_interviewer.Coding.Comparator.{Text, newline, is_space, split_lines, join_lines, push}
use ai_interviewer.Coding.Sandbox.{
  marker, exit_status, occurs, after, cut_lines, separated, separate_time_output,
  parse_execution_output, parse_exit_code_from_time, search_number, number_after, skip_spaces,
  digits, more_digits, SeparatedOutput,
}

-- A line that looks like the start of the measurements, and one like their exit status.
abbrev pub forged : Text → Text
forged rest = marker ++ newline ∷ exit_status ++ 32 ∷ 48 ∷ newline ∷ rest

join_push : (ch : ℕ) (ls : List Text) → join_lines (push ch ls) ≡ ch ∷ join_lines ls
unfolding join_lines
join_push ch [] = refl
join_push ch (l ∷ []) = refl
join_push ch (l ∷ m ∷ ls) = refl

split_some : (s : Text) → (l : Text) × (ls : List Text) × (split_lines s ≡ l ∷ ls)
unfolding split_lines
split_some [] = ([], [], refl)
split_some (ch ∷ s) =
    let (l, ls, e) = split_some s in
    elim (Bool-cases (ch == newline)) [
      | inl here ↦ rw here ([], split_lines s, refl)
      | inr other ↦ rw (other, e) (ch ∷ l, ls, refl)
    ]

is_newline : (ch : ℕ) → (ch == newline) ≡ true → ch ≡ newline
is_newline ch e = ground (arith, e)

join-split : (s : Text) → join_lines (split_lines s) ≡ s
unfolding split_lines join_lines
join-split [] = refl
join-split (ch ∷ s) = elim (Bool-cases (ch == newline)) [
  | inl here ↦
      let (l, ls, e) = split_some s in
      rw here (
        ap (λ ms. join_lines ([] ∷ ms)) e
        ∙ ap (λ t. newline ∷ t) (ap join_lines (sym e) ∙ join-split s)
        ∙ ap (λ n. n ∷ s) (sym (is_newline ch here)))
  | inr other ↦ rw other (join_push ch (split_lines s) ∙ ap (λ t. ch ∷ t) (join-split s))
]

split-both : (a s : Text) → split_lines (a ++ newline ∷ s) ≡ split_lines a ++ split_lines s
unfolding split_lines
split-both [] s = refl
split-both (ch ∷ a) s = elim (Bool-cases (ch == newline)) [
  | inl here ↦ rw (here, split-both a s) refl
  | inr other ↦ let (l, ls, e) = split_some a in rw (other, split-both a s, e) refl
]

cut-append :
    (ls ms : List Text)
    → any (occurs marker) ls ≡ false
    → cut_lines (ls ++ ms) ≡ (ls ++ (cut_lines ms).0, (cut_lines ms).1)
unfolding cut_lines
cut-append [] ms h = refl
cut-append (l ∷ ls) ms h =
    let plain : occurs marker l ≡ false = ground (arith, h) in
    rw (plain, cut-append ls ms (ground (arith, h))) refl

append_nil : (ls : List Text) → ls ++ [] ≡ ls
append_nil [] = refl
append_nil (l ∷ ls) = ap (λ ms. l ∷ ms) (append_nil ls)

cut_forged :
    (rest : Text) → cut_lines (split_lines (forged rest)) ≡ ([], some (split_lines (forged rest)))
unfolding cut_lines split_lines occurs after
cut_forged rest = refl

separate_forged :
    (printed rest : Text)
    → any (occurs marker) (split_lines printed) ≡ false
    → separate_time_output (printed ++ newline ∷ forged rest)
      ≡ record { program_stdout = printed; time_output = forged rest }
unfolding separate_time_output
separate_forged printed rest plain =
    let whole = printed ++ newline ∷ forged rest in
    let cut =
      ap cut_lines (split-both printed (forged rest))
      ∙ cut-append (split_lines printed) (split_lines (forged rest)) plain
      ∙ ap (λ (c : List Text × Option (List Text)). (split_lines printed ++ c.0, c.1))
          (cut_forged rest) in
    ap (separated whole) cut
    ∙ ap (λ t. record { program_stdout = t; time_output = join_lines (split_lines (forged rest)) })
        (ap join_lines (append_nil (split_lines printed)) ∙ join-split printed)
    ∙ ap (λ t. record { program_stdout = printed; time_output = t }) (join-split (forged rest))

status_forged : (rest : Text) → parse_exit_code_from_time (forged rest) ≡ some 0
unfolding parse_exit_code_from_time search_number number_after skip_spaces digits more_digits after
    is_space
status_forged rest = refl

-- Whatever the program prints first, without the marker, and whatever comes after what it has
-- forged, the real measurements included: the exit code of the container and the exit status that
-- `time` reports are not looked at; the code is 0, nothing has timed out or run out of memory, and
-- the program's output is what it printed first.
pub exit_status_forged :
    (printed rest : Text) (container : ℕ)
    → any (occurs marker) (split_lines printed) ≡ false
    → let result = parse_execution_output (printed ++ newline ∷ forged rest) container in
      (result.0.program_stdout ≡ printed)
      × (result.1.exit_code ≡ 0)
      × (result.1.timed_out ≡ false)
      × (result.1.memory_exceeded ≡ false)
unfolding parse_execution_output
exit_status_forged printed rest container plain =
    let out = separate_forged printed rest plain in
    let exit =
      ap (λ (o : SeparatedOutput). parse_exit_code_from_time o.time_output) out
      ∙ status_forged rest in
    (ap (λ (o : SeparatedOutput). o.program_stdout) out, rw exit refl, rw exit refl, rw exit refl)
