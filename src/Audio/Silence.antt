-- ===== src/Audio/Silence.antt =====
-- app/audio/ingestion/silence_detector.py: when an answer has gone silent. Times are the
-- milliseconds of the monotonic clock. What a method does under the lock is one step; the callbacks
-- are called after the lock is released, which is a step of its own, and may come at any later time.
use ai_interviewer.Prelude.{
  ℕ, zero, suc, get_elem?, ◌+◌, ◌-◌, Bool, true, false, Option, none, some, List, [], ◌∷◌, ◌++◌,
  ltb, leb, if◌then◌else◌,
}

pub data SilenceReason : Type 0 where
  threshold_reached session_ended : SilenceReason

pub record SilenceDetectedEvent : Type 0 where
  pub exchange_id : ℕ
  pub silence_duration_ms : ℕ
  pub last_audio_timestamp_ms : ℕ
  pub should_evaluate : Bool
  pub reason : SilenceReason

-- `raised` are the events that were built under the lock and whose threads have yet to call the
-- callbacks; `fired` is what a callback has been given so far. A callback's exception is swallowed.
pub record SilenceDetector : Type 0 where
  pub threshold_ms : ℕ
  pub exchange_id : ℕ
  pub last_audio_timestamp_ms : Option ℕ
  pub last_audio_wall_time : Option ℕ
  -- when the running timer goes off
  pub timer : Option ℕ
  pub closed : Bool
  pub evaluation_triggered : Bool
  pub raised : List SilenceDetectedEvent
  pub fired : List SilenceDetectedEvent

abbrev pub new : ℕ → ℕ → SilenceDetector
new threshold exchange = record {
  threshold_ms = threshold;
  exchange_id = exchange;
  last_audio_timestamp_ms = none;
  last_audio_wall_time = none;
  timer = none;
  closed = false;
  evaluation_triggered = false;
  raised = [];
  fired = [];
}

abbrev pub or_zero : Option ℕ → ℕ
or_zero none = 0
or_zero (some t) = t

-- The events that the two callers build.
abbrev pub event : SilenceDetector → ℕ → SilenceReason → SilenceDetectedEvent
event d duration why = record {
  exchange_id = d.exchange_id;
  silence_duration_ms = duration;
  last_audio_timestamp_ms = or_zero d.last_audio_timestamp_ms;
  should_evaluate = true;
  reason = why;
}

unfoldable pub on_audio_chunk : ℕ → ℕ → SilenceDetector → SilenceDetector
on_audio_chunk now timestamp d = if d.closed then d else record d {
  last_audio_timestamp_ms = some timestamp;
  last_audio_wall_time = some now;
  evaluation_triggered = false;
  timer = some (now + d.threshold_ms);
}

unfoldable pub start_silence_timer : ℕ → SilenceDetector → SilenceDetector
start_silence_timer now d = record d { timer = some (now + d.threshold_ms) }

silent_since : ℕ → ℕ → Option ℕ → Bool
silent_since now threshold none = false
silent_since now threshold (some t) = leb threshold (now - t)

unfoldable pub is_silent : ℕ → SilenceDetector → Bool
unfolding silent_since
is_silent now d = silent_since now d.threshold_ms d.last_audio_wall_time

unfoldable pub close_session : SilenceDetector → SilenceDetector
close_session d =
    if d.closed
    then d
    else record d { closed = true; timer = none; raised = d.raised ++ event d 0 session_ended ∷ [] }

unfoldable pub cancel : SilenceDetector → SilenceDetector
cancel d = record d { closed = true; timer = none }

check_elapsed : ℕ → Option ℕ → SilenceDetector → SilenceDetector
check_elapsed now none d = d
check_elapsed now (some t) d = if ltb (now - t) d.threshold_ms then d else record d {
  evaluation_triggered = true;
  raised = d.raised ++ event d (now - t) threshold_reached ∷ [];
}

-- `_check_silence`, on the timer's thread: it may come later than the deadline, and also after a
-- `cancel()` of the timer that came too late.
unfoldable pub check_silence : ℕ → SilenceDetector → SilenceDetector
unfolding check_elapsed
check_silence now d = if d.closed then d else check_elapsed now d.last_audio_wall_time d

abbrev pub without : ℕ → List SilenceDetectedEvent → List SilenceDetectedEvent
without i [] = []
without zero (e ∷ es) = es
without (suc i) (e ∷ es) = e ∷ without i es

fire : ℕ → Option SilenceDetectedEvent → SilenceDetector → SilenceDetector
fire i none d = d
fire i (some e) d = record d { raised = without i d.raised; fired = d.fired ++ e ∷ [] }

-- `_fire_callbacks`, on the thread that has built the event at that place of `raised`.
unfoldable pub fire_callbacks : ℕ → SilenceDetector → SilenceDetector
unfolding fire
fire_callbacks i d = fire i (get_elem? d.raised i) d

-- The steps of the detector's threads, each with the clock's time.
pub data Step : Type 0 where
  chunk calls : ℕ → Step
  timer_started check close cancelled : Step

unfoldable pub step : ℕ → Step → SilenceDetector → SilenceDetector
unfolding on_audio_chunk start_silence_timer check_silence fire_callbacks close_session cancel
step now (chunk timestamp) d = on_audio_chunk now timestamp d
step now timer_started d = start_silence_timer now d
step now check d = check_silence now d
step now (calls i) d = fire_callbacks i d
step now close d = close_session d
step now cancelled d = cancel d

unfoldable pub steps : List (ℕ × Step) → SilenceDetector → SilenceDetector
unfolding step
steps [] d = d
steps ((now, s) ∷ rest) d = steps rest (step now s d)
