-- ===== src/Audio/Buffer.antt =====
-- app/audio/ingestion/buffer_manager.py: the chunks, in the order of their timestamps.
use ai_interviewer.Prelude.{
  ℕ, ◌+◌, ◌-◌, ◌*◌, Bool, true, false, List, [], ◌∷◌, ◌++◌, ltb, leb, ◌==◌, if◌then◌else◌, keep,
}

-- The samples are carried along, never looked into.
pub record BufferedChunk (A : Type 0) : Type 0 where
  pub audio_data : A
  pub timestamp_ms : ℕ

pub record AudioWindow (A : Type 0) : Type 0 where
  pub chunks : List (BufferedChunk A)
  pub start_ms : ℕ
  pub end_ms : ℕ

-- `max(0, end - start)`
abbrev pub duration_ms : {A : Type 0} → AudioWindow A → ℕ
duration_ms w = w.end_ms - w.start_ms

-- `AudioBufferManager`; its lock makes each method one step.
pub record Buffer (A : Type 0) : Type 0 where
  pub window_ms : ℕ
  pub max_duration_ms : ℕ
  pub chunks : List (BufferedChunk A)

abbrev pub new : {A : Type 0} → ℕ → ℕ → Buffer A
new window max_duration_s = record {
  window_ms = window;
  max_duration_ms = max_duration_s * 1000;
  chunks = [];
}

module _ {A : Type 0} where
  -- `list.sort` by the timestamp: stable.
  unfoldable pub insert : BufferedChunk A → List (BufferedChunk A) → List (BufferedChunk A)
  insert c [] = c ∷ []
  insert c (d ∷ ds) =
      let rest = insert c ds in if leb c.timestamp_ms d.timestamp_ms then c ∷ d ∷ ds else d ∷ rest

  unfoldable pub sort : List (BufferedChunk A) → List (BufferedChunk A)
  unfolding insert
  sort [] = []
  sort (c ∷ cs) = insert c (sort cs)

  unfoldable pub latest : ℕ → List (BufferedChunk A) → ℕ
  latest t [] = t
  latest t (c ∷ cs) = latest c.timestamp_ms cs

  -- `timestamp_ms >= latest - max_duration_ms`
  abbrev pub recent : ℕ → ℕ → BufferedChunk A → Bool
  recent max newest c = leb newest (c.timestamp_ms + max)

  unfoldable pub evict : ℕ → List (BufferedChunk A) → List (BufferedChunk A)
  unfolding latest
  evict max [] = []
  evict max (c ∷ cs) =
      if max == 0 then c ∷ cs else keep (recent max (latest c.timestamp_ms cs)) (c ∷ cs)

  unfoldable pub add_chunk : A → ℕ → Buffer A → Buffer A
  unfolding sort evict
  add_chunk samples t b = record b {
    chunks =
        evict b.max_duration_ms
          (sort (b.chunks ++ record { audio_data = samples; timestamp_ms = t } ∷ []));
  }

  abbrev pub fresh_window : ℕ → ℕ → List (BufferedChunk A) → AudioWindow A
  fresh_window size t cs = record { chunks = cs; start_ms = t; end_ms = t + size }

  unfoldable pub closed : AudioWindow A → List (AudioWindow A)
  closed w = elim w.chunks [ [] ↦ [] | _ ∷ _ ↦ w ∷ [] ]

  -- The loop of `_build_windows`: the windows from the current one on.
  unfoldable pub windows_from : ℕ → AudioWindow A → List (BufferedChunk A) → List (AudioWindow A)
  unfolding closed
  windows_from size w [] = closed w
  windows_from size w (c ∷ cs) =
      let same = windows_from size (record w { chunks = w.chunks ++ c ∷ [] }) cs in
      let next = windows_from size (fresh_window size c.timestamp_ms (c ∷ [])) cs in
      if ltb c.timestamp_ms w.end_ms then same else closed w ++ next

  unfoldable pub build_windows : ℕ → List (BufferedChunk A) → List (AudioWindow A)
  unfolding windows_from
  build_windows size [] = []
  build_windows size (c ∷ cs) = windows_from size (fresh_window size c.timestamp_ms []) (c ∷ cs)

  unfoldable pub get_windows : Buffer A → List (AudioWindow A)
  unfolding build_windows
  get_windows b = build_windows b.window_ms b.chunks

  unfoldable pub flush : Buffer A → List (AudioWindow A) × Buffer A
  unfolding build_windows
  flush b = (build_windows b.window_ms b.chunks, record b { chunks = [] })

  unfoldable pub is_empty : Buffer A → Bool
  is_empty b = elim b.chunks [ [] ↦ true | _ ∷ _ ↦ false ]
