-- ===== src/Audio/Endings.antt =====
-- What a silence detector reports, whatever the order of its threads' steps.
use ai_interviewer.Prelude.{
  ℕ, zero, suc, ◌+◌, ◌-◌, ◌≤◌, ◌≡◌, refl, ◌∙◌, inl, inr, Bool, true, false, ◌&&◌, ◌||◌, List, [],
  ◌∷◌, ◌++◌, some, arith, leb, ◌==◌, if◌then◌else◌, Bool-cases, Option-cases, all, length,
  length-append, get_elem?,
}
use mathlib.Core.Path.{subst}
use ai_interviewer.Audio.Silence.{
  threshold_reached, session_ended, SilenceDetectedEvent, SilenceDetector, new, event,
  on_audio_chunk, start_silence_timer, close_session, cancel, check_silence, fire_callbacks,
  without, Step, chunk, calls, timer_started, check, close, cancelled, step, steps,
}

abbrev pub is_end : SilenceDetectedEvent → Bool
is_end e = elim e.reason [ threshold_reached ↦ false | session_ended ↦ true ]

-- How often the end of the session is reported.
abbrev pub endings : List SilenceDetectedEvent → ℕ
endings [] = 0
endings (e ∷ es) = (if is_end e then 1 else 0) + endings es

-- Each report of silence is of at least the threshold, and for the detector's exchange.
abbrev pub due : ℕ → ℕ → SilenceDetectedEvent → Bool
due threshold exchange e =
    (e.exchange_id == exchange) && (is_end e || leb threshold e.silence_duration_ms)

-- All events that were built so far.
abbrev pub built : SilenceDetector → ℕ
built d = length d.fired + length d.raised

abbrev IsReported : SilenceDetector → Type 0
IsReported d =
    (endings d.fired + endings d.raised ≤ (if d.closed then 1 else 0))
    × (all (due d.threshold_ms d.exchange_id) d.fired ≡ true)
    × (all (due d.threshold_ms d.exchange_id) d.raised ≡ true)

endings_snoc :
    (es : List SilenceDetectedEvent) (e : SilenceDetectedEvent)
    → endings (es ++ e ∷ []) ≡ endings es + (if is_end e then 1 else 0)
endings_snoc [] e = omega arith
endings_snoc (f ∷ es) e = omega (arith, endings_snoc es e)

all_snoc :
    (p : SilenceDetectedEvent → Bool) (es : List SilenceDetectedEvent) (e : SilenceDetectedEvent)
    → all p (es ++ e ∷ []) ≡ all p es && p e
all_snoc p [] e = ground arith
all_snoc p (f ∷ es) e = ground (arith, all_snoc p es e)

length_snoc :
    (es : List SilenceDetectedEvent) (e : SilenceDetectedEvent)
    → length (es ++ e ∷ []) ≡ suc (length es)
length_snoc es e = omega (arith, length-append es (e ∷ []))

-- What taking out the event at a place leaves.
without_lem :
    (p : SilenceDetectedEvent → Bool) (i : ℕ) (es : List SilenceDetectedEvent)
    (e : SilenceDetectedEvent)
    → get_elem? es i ≡ some e
    → (endings es ≡ endings (without i es) + (if is_end e then 1 else 0))
      × (length es ≡ suc (length (without i es)))
      × (all p es ≡ p e && all p (without i es))
without_lem p i [] e h = cc
without_lem p zero (f ∷ es) e h = ground (arith, h)
without_lem p (suc i) (f ∷ es) e h =
    let (n, l, a) = without_lem p i es e h in ground (arith, n, l, a)

check-IsReported : (now : ℕ) (d : SilenceDetector) → IsReported d → IsReported (check_silence now d)
unfolding check_silence
check-IsReported now d h = elim (Bool-cases d.closed) [
  | inl c ↦ ground (arith, h, c)
  | inr c ↦ elim (Option-cases d.last_audio_wall_time) [
    | inl e ↦ ground (arith, h, c, e)
    | inr (t, e) ↦
        let silence = event d (now - t) threshold_reached in
        ground (
          arith,
          h,
          c,
          e,
          endings_snoc d.raised silence,
          all_snoc (due d.threshold_ms d.exchange_id) d.raised silence,
        )
  ]
]

close-IsReported : (d : SilenceDetector) → IsReported d → IsReported (close_session d)
unfolding close_session
close-IsReported d h = elim (Bool-cases d.closed) [
  | inl c ↦ ground (arith, h, c)
  | inr c ↦
      let end = event d 0 session_ended in
      ground (
        arith,
        h,
        c,
        endings_snoc d.raised end,
        all_snoc (due d.threshold_ms d.exchange_id) d.raised end,
      )
]

fire-IsReported : (i : ℕ) (d : SilenceDetector) → IsReported d → IsReported (fire_callbacks i d)
unfolding fire_callbacks
fire-IsReported i d (n, f, r) = elim (Option-cases (get_elem? d.raised i)) [
  | inl nothing ↦ rw nothing (n, f, r)
  | inr (e, there) ↦
      let p = due d.threshold_ms d.exchange_id in
      let (count, _, rest) = without_lem p i d.raised e there in
      rw there (
        omega (arith, n, count, endings_snoc d.fired e),
        ground (arith, f, r, rest, all_snoc p d.fired e),
        ground (arith, r, rest),
      )
]

step-IsReported :
    (now : ℕ) (s : Step) (d : SilenceDetector) → IsReported d → IsReported (step now s d)
unfolding step start_silence_timer cancel on_audio_chunk
step-IsReported now (chunk t) d h = ground (arith, h)
step-IsReported now (calls i) d h = fire-IsReported i d h
step-IsReported now timer_started d h = h
step-IsReported now check d h = check-IsReported now d h
step-IsReported now close d h = close-IsReported d h
step-IsReported now cancelled d h = ground (arith, h)

steps-IsReported :
    (ss : List (ℕ × Step)) (d : SilenceDetector) → IsReported d → IsReported (steps ss d)
unfolding steps
steps-IsReported [] d h = h
steps-IsReported ((now, s) ∷ rest) d h =
    steps-IsReported rest (step now s d) (step-IsReported now s d h)

-- The threshold and the exchange stay.
step_settings :
    (now : ℕ) (s : Step) (d : SilenceDetector)
    → ((step now s d).threshold_ms ≡ d.threshold_ms) × ((step now s d).exchange_id ≡ d.exchange_id)
unfolding step on_audio_chunk start_silence_timer check_silence fire_callbacks close_session cancel
step_settings now (chunk t) d = ground arith
step_settings now (calls i) d = ground arith
step_settings now timer_started d = ground arith
step_settings now check d = ground arith
step_settings now close d = ground arith
step_settings now cancelled d = ground arith

steps_settings :
    (ss : List (ℕ × Step)) (d : SilenceDetector)
    → ((steps ss d).threshold_ms ≡ d.threshold_ms) × ((steps ss d).exchange_id ≡ d.exchange_id)
unfolding steps
steps_settings [] d = (refl, refl)
steps_settings ((now, s) ∷ rest) d =
    let (a, b) = steps_settings rest (step now s d) in
    let (a', b') = step_settings now s d in (a ∙ a', b ∙ b')

fire-built : (i : ℕ) (d : SilenceDetector) → built (fire_callbacks i d) ≡ built d
unfolding fire_callbacks
fire-built i d = elim (Option-cases (get_elem? d.raised i)) [
  | inl nothing ↦ rw nothing refl
  | inr (e, there) ↦
      let (_, l, _) = without_lem is_end i d.raised e there in
      rw there (omega (arith, l, length_snoc d.fired e))
]

-- Once the detector is closed, it stays so, and no event is built any more.
closed_step :
    (now : ℕ) (s : Step) (d : SilenceDetector)
    → d.closed ≡ true
    → ((step now s d).closed ≡ true) × (built (step now s d) ≡ built d)
unfolding step on_audio_chunk start_silence_timer check_silence fire_callbacks close_session cancel
closed_step now (chunk t) d c = ground (arith, c)
closed_step now (calls i) d c = (ground (arith, c), fire-built i d)
closed_step now timer_started d c = ground (arith, c)
closed_step now check d c = ground (arith, c)
closed_step now close d c = ground (arith, c)
closed_step now cancelled d c = ground (arith, c)

closed_steps :
    (ss : List (ℕ × Step)) (d : SilenceDetector) → d.closed ≡ true → built (steps ss d) ≡ built d
unfolding steps
closed_steps [] d c = refl
closed_steps ((now, s) ∷ rest) d c =
    let (still, same) = closed_step now s d c in closed_steps rest (step now s d) still ∙ same

close_closes : (d : SilenceDetector) → (close_session d).closed ≡ true
unfolding close_session
close_closes d = ground arith

-- Whatever the steps of the threads, the times they come at and the order in which the threads call
-- the callbacks: the end of the session is reported at most once, and each report of silence is for
-- the detector's exchange and of at least the threshold; once the session is closed, whatever comes
-- then, no event is built beyond those there are, of which some may be reported only then.
pub detector_reports :
    (threshold exchange : ℕ) (ss more : List (ℕ × Step))
    → let d = steps ss (new threshold exchange) in
      (endings d.fired ≤ 1)
      × (all (due threshold exchange) d.fired ≡ true)
      × (built (steps more (close_session d)) ≡ built (close_session d))
detector_reports threshold exchange ss more =
    let d = steps ss (new threshold exchange) in
    let (few, fine, _) = steps-IsReported ss (new threshold exchange) (omega arith, refl, refl) in
    let (same, same') = steps_settings ss (new threshold exchange) in
    (
      ground (arith, few),
      subst (λ x. all (due threshold x) d.fired ≡ true) same'
          (subst (λ t. all (due t d.exchange_id) d.fired ≡ true) same fine),
      closed_steps more (close_session d) (close_closes d),
    )

-- After `cancel()`, which a pause calls, no event is built any more, that of the end of the session
-- included.
pub cancel_silences :
    (ss : List (ℕ × Step)) (d : SilenceDetector) → built (steps ss (cancel d)) ≡ built d
unfolding cancel
cancel_silences ss d = closed_steps ss (cancel d) refl
