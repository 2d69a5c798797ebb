-- ===== src/Audio/Tests.antt =====
-- Runs of the audio buffer and of the silence detector.
use ai_interviewer.Prelude.{
  ℕ, ◌≤◌, map, false, String, ◌≡◌, refl, true, List, [], ◌∷◌, arith, length, all,
}
use ai_interviewer.Audio.Buffer.{flush}
use ai_interviewer.Audio.Buffer
use ai_interviewer.Audio.Silence.{
  steps, cancel, close_session, Step, chunk, calls, check, close, SilenceDetector,
}
use ai_interviewer.Audio.Silence
use ai_interviewer.Audio.Order.{from_ordered}
use ai_interviewer.Audio.Windows.{chunks_of, laid_out, add_chunks, flush_lem}
use ai_interviewer.Audio.Endings.{endings, is_end, built, due, detector_reports, cancel_silences}

-- Three chunks, the second one late.
abbrev fed : List (String × ℕ)
fed = ("b", 700) ∷ ("a", 100) ∷ ("c", 900) ∷ []

flush_example :
    let b = add_chunks fed (Buffer.new 500 30) in
    (from_ordered 0 b.chunks ≡ true)
    × (chunks_of ((flush b).0) ≡ b.chunks)
    × (laid_out 500 0 ((flush b).0) ≡ true)
    × ((flush b).1.chunks ≡ [])
flush_example = flush_lem 500 30 fed (omega arith)

-- A chunk, a timer that comes too early, one in time, and the end, with the callbacks at once.
abbrev heard : List (ℕ × Step)
heard =
    (1000, chunk 20)
    ∷ (2000, check)
    ∷ (4500, check)
    ∷ (4501, calls 0)
    ∷ (5000, close)
    ∷ (5001, calls 0)
    ∷ []

two_reports : length (steps heard (Silence.new 3000 9)).fired ≡ 2
unfolding steps
two_reports = refl

-- The timer's thread builds its event before the session ends, and calls the callbacks afterwards.
abbrev overtaken : List (ℕ × Step)
overtaken =
    (1000, chunk 20) ∷ (4500, check) ∷ (4501, close) ∷ (4502, calls 1) ∷ (4503, calls 0) ∷ []

silence_after_the_end : map is_end (steps overtaken (Silence.new 3000 9)).fired ≡ true ∷ false ∷ []
unfolding steps
silence_after_the_end = refl

detector_reports_example :
    let d = steps overtaken (Silence.new 3000 9) in
    (endings d.fired ≤ 1)
    × (all (due 3000 9) d.fired ≡ true)
    × (built (steps heard (close_session d)) ≡ built (close_session d))
detector_reports_example = detector_reports 3000 9 overtaken heard

silent_after_a_pause : built (steps heard (cancel (Silence.new 3000 9))) ≡ 0
silent_after_a_pause = cancel_silences heard (Silence.new 3000 9)
