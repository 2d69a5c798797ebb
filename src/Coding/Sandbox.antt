-- ===== src/Coding/Sandbox.antt =====
-- app/coding/sandbox/output_parser.py: how the output of a container is taken apart. The running
-- time, which goes through floats, is left out; of `\d` the ASCII digits are modelled.
use ai_interviewer.Prelude.{
  ℕ, ◌+◌, ◌-◌, ◌*◌, String, Bool, ◌&&◌, ◌||◌, Option, none, some, List, [], ◌∷◌, leb, ◌==◌,
  if◌then◌else◌, is_some,
}
use Prim.Native.Char.{code}
use ai_interviewer.Coding.Comparator.{Text, is_space, split_lines, join_lines}

abbrev pub code_points : String → Text
code_points String.[] = []
code_points (String.◌∷◌ ch s) = code ch ∷ code_points s

-- `_TIME_OUTPUT_MARKER`
abbrev pub marker : Text
marker = 9 ∷ code_points "Command being timed:"

abbrev pub maximum_resident : Text
maximum_resident = code_points "Maximum resident set size (kbytes):"

abbrev pub exit_status : Text
exit_status = code_points "Exit status:"

-- What follows a prefix.
unfoldable pub after : Text → Text → Option Text
after [] s = some s
after (p ∷ ps) [] = none
after (p ∷ ps) (ch ∷ s) = let rest = after ps s in if p == ch then rest else none

-- `pattern in text`
unfoldable pub occurs : Text → Text → Bool
occurs pattern [] = is_some (after pattern [])
occurs pattern (ch ∷ s) = is_some (after pattern (ch ∷ s)) || occurs pattern s

unfoldable pub skip_spaces : Text → Text
skip_spaces [] = []
skip_spaces (ch ∷ s) = let rest = skip_spaces s in if is_space ch then rest else ch ∷ s

abbrev pub is_digit : ℕ → Bool
is_digit ch = leb 48 ch && leb ch 57

unfoldable pub more_digits : ℕ → Text → ℕ
more_digits n [] = n
more_digits n (ch ∷ s) =
    let rest = more_digits (n * 10 + (ch - 48)) s in if is_digit ch then rest else n

-- `(\d+)`
unfoldable pub digits : Text → Option ℕ
digits [] = none
digits (ch ∷ s) = if is_digit ch then some (more_digits 0 (ch ∷ s)) else none

unfoldable pub number_after : Option Text → Option ℕ
number_after none = none
number_after (some s) = digits (skip_spaces s)

abbrev pub or_else : Option ℕ → Option ℕ → Option ℕ
or_else none o = o
or_else (some n) o = some n

-- `re.search(prefix + r"\s*(\d+)", text)`
unfoldable pub search_number : Text → Text → Option ℕ
search_number prefix [] = number_after (after prefix [])
search_number prefix (ch ∷ s) =
    or_else (number_after (after prefix (ch ∷ s))) (search_number prefix s)

-- The lines before the first one with the marker, and those from it on, if there is one.
unfoldable pub cut_lines : List Text → List Text × Option (List Text)
cut_lines [] = ([], none)
cut_lines (l ∷ ls) =
    let rest = cut_lines ls in if occurs marker l then ([], some (l ∷ ls)) else (l ∷ rest.0, rest.1)

pub record SeparatedOutput : Type 0 where
  pub program_stdout : Text
  pub time_output : Text

unfoldable pub separated : Text → List Text × Option (List Text) → SeparatedOutput
separated whole (before, none) = record { program_stdout = whole; time_output = [] }
separated whole (before, some from_it) = record {
  program_stdout = join_lines before;
  time_output = join_lines from_it;
}

-- An empty output has one empty line, without the marker.
unfoldable pub separate_time_output : Text → SeparatedOutput
unfolding separated
separate_time_output combined = separated combined (cut_lines (split_lines combined))

abbrev or_zero : Option ℕ → ℕ
or_zero none = 0
or_zero (some n) = n

unfoldable pub parse_peak_memory : Text → ℕ
parse_peak_memory time_output = or_zero (search_number maximum_resident time_output)

unfoldable pub parse_exit_code_from_time : Text → Option ℕ
parse_exit_code_from_time time_output = search_number exit_status time_output

pub record ParsedMetrics : Type 0 where
  pub memory_kb : ℕ
  pub exit_code : ℕ
  pub timed_out : Bool
  pub memory_exceeded : Bool

unfoldable pub classify_exit_code : ℕ → ParsedMetrics
classify_exit_code n = record {
  memory_kb = 0;
  exit_code = n;
  timed_out = n == 124;
  memory_exceeded = n == 137;
}

abbrev effective : Option ℕ → ℕ → ℕ
effective none container = container
effective (some n) container = n

unfoldable pub parse_execution_output : Text → ℕ → SeparatedOutput × ParsedMetrics
unfolding classify_exit_code parse_peak_memory parse_exit_code_from_time
parse_execution_output combined container =
    let out = separate_time_output combined in
    let exit = effective (parse_exit_code_from_time out.time_output) container in
    (out, record (classify_exit_code exit) { memory_kb = parse_peak_memory out.time_output })
