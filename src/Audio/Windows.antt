-- ===== src/Audio/Windows.antt =====
-- What the windows of the audio buffer hold.
use ai_interviewer.Prelude.{
  ℕ, ◌+◌, ◌≤◌, ◌<◌, ◌≡◌, refl, sym, ap, ◌∙◌, ◌⊎◌, inl, inr, Bool, true, false, ◌&&◌, List, [], ◌∷◌,
  ◌++◌, arith, ltb, leb, ◌==◌, Bool-cases, all,
}
use mathlib.Core.List.{append_assoc, append-nil}
use ai_interviewer.Audio.Buffer.{
  BufferedChunk, AudioWindow, Buffer, new, sort, add_chunk, fresh_window, closed, windows_from,
  build_windows, flush,
}
use ai_interviewer.Audio.Order.{from_ordered, sort_ordered, evict_ordered}

module _ {A : Type 0} where
  abbrev pub chunks_of : List (AudioWindow A) → List (BufferedChunk A)
  chunks_of [] = []
  chunks_of (w ∷ ws) = w.chunks ++ chunks_of ws

  abbrev pub within : AudioWindow A → BufferedChunk A → Bool
  within w c = leb w.start_ms c.timestamp_ms && ltb c.timestamp_ms w.end_ms

  abbrev pub nonempty : List (BufferedChunk A) → Bool
  nonempty [] = false
  nonempty (_ ∷ _) = true

  -- Windows of the given size, none empty, each holding chunks of its own time, and each from the
  -- end of the one before it on.
  unfoldable pub laid_out : ℕ → ℕ → List (AudioWindow A) → Bool
  laid_out size t [] = true
  laid_out size t (w ∷ ws) =
      leb t w.start_ms
      && ((w.end_ms == w.start_ms + size)
          && (nonempty w.chunks && (all (within w) w.chunks && laid_out size w.end_ms ws)))

  List-cases :
      (cs : List (BufferedChunk A))
      → (cs ≡ []) ⊎ ((c : BufferedChunk A) × (ds : List (BufferedChunk A)) × (cs ≡ c ∷ ds))
  List-cases [] = inl refl
  List-cases (c ∷ ds) = inr (c, ds, refl)

  all_snoc :
      (p : BufferedChunk A → Bool) (xs : List (BufferedChunk A)) (c : BufferedChunk A)
      → all p xs ≡ true
      → p c ≡ true
      → all p (xs ++ c ∷ []) ≡ true
  all_snoc p [] c h k = ground arith
  all_snoc p (x ∷ xs) c h k = ground (arith, all_snoc p xs c)

  closed_chunks :
      (w : AudioWindow A) (ws : List (AudioWindow A))
      → chunks_of (closed w ++ ws) ≡ w.chunks ++ chunks_of ws
  unfolding closed
  closed_chunks w ws = elim (List-cases w.chunks) [
    | inl e ↦ rw (e, closed) refl
    | inr (c, cs, e) ↦ rw (e, closed) (ap (λ l. l ++ chunks_of ws) e)
  ]

  windows_from_chunks :
      (size : ℕ) (w : AudioWindow A) (cs : List (BufferedChunk A))
      → chunks_of (windows_from size w cs) ≡ w.chunks ++ cs
  unfolding windows_from
  windows_from_chunks size w [] = ap chunks_of (sym (append-nil (closed w))) ∙ closed_chunks w []
  windows_from_chunks size w (c ∷ cs) = elim (Bool-cases (ltb c.timestamp_ms w.end_ms)) [
    | inl e ↦
        rw (e, windows_from)
          (windows_from_chunks size (record w { chunks = w.chunks ++ c ∷ [] }) cs
            ∙ append_assoc w.chunks (c ∷ []) cs)
    | inr e ↦
        rw (e, windows_from)
          (closed_chunks w (windows_from size (fresh_window size c.timestamp_ms (c ∷ [])) cs)
            ∙ ap (λ l. w.chunks ++ l)
                (windows_from_chunks size (fresh_window size c.timestamp_ms (c ∷ [])) cs))
  ]

  earlier_laid_out :
      (size t t' : ℕ) (ws : List (AudioWindow A))
      → t ≤ t'
      → laid_out size t' ws ≡ true
      → laid_out size t ws ≡ true
  unfolding laid_out
  earlier_laid_out size t t' [] l h = refl
  earlier_laid_out size t t' (w ∷ ws) l h = ground arith

  closed_laid_out :
      (size t : ℕ) (w : AudioWindow A) (ws : List (AudioWindow A))
      → t ≤ w.start_ms
      → w.end_ms ≡ w.start_ms + size
      → all (within w) w.chunks ≡ true
      → laid_out size w.end_ms ws ≡ true
      → laid_out size t (closed w ++ ws) ≡ true
  unfolding closed laid_out
  closed_laid_out size t w ws low e inside rest = elim (List-cases w.chunks) [
    | inl none_yet ↦ rw (none_yet, closed) (earlier_laid_out size t w.end_ms ws (omega arith) rest)
    | inr (c, cs, some_yet) ↦
        rw (some_yet, closed) (ground (arith, low, e, inside, rest, ap nonempty some_yet))
  ]

  windows_from-laid_out :
      (size t u : ℕ) (w : AudioWindow A) (cs : List (BufferedChunk A))
      → 0 < size
      → t ≤ w.start_ms
      → w.end_ms ≡ w.start_ms + size
      → all (within w) w.chunks ≡ true
      → w.start_ms ≤ u
      → from_ordered u cs ≡ true
      → laid_out size t (windows_from size w cs) ≡ true
  unfolding windows_from from_ordered laid_out
  windows_from-laid_out size t u w [] pos low e inside later h =
      rw (← append-nil (closed w)) (closed_laid_out size t w [] low e inside refl)
  windows_from-laid_out size t u w (c ∷ cs) pos low e inside later h =
      elim (Bool-cases (ltb c.timestamp_ms w.end_ms)) [
        | inl same ↦
            rw (same, windows_from)
              (windows_from-laid_out size t c.timestamp_ms
                (record w { chunks = w.chunks ++ c ∷ [] }) cs pos low e
                (all_snoc (within w) w.chunks c inside (ground arith)) (ground arith)
                (ground arith))
        | inr next ↦
            rw (next, windows_from)
              (closed_laid_out size t w _ low e inside (
                windows_from-laid_out size w.end_ms c.timestamp_ms
                  (fresh_window size c.timestamp_ms (c ∷ [])) cs pos (ground arith) refl
                  (ground arith) (omega arith) (ground arith)))
      ]

  -- The state after any sequence of chunks.
  unfoldable pub add_chunks : List (A × ℕ) → Buffer A → Buffer A
  unfolding add_chunk
  add_chunks [] b = b
  add_chunks ((samples, t) ∷ rest) b = add_chunks rest (add_chunk samples t b)

  abbrev with_chunk : A → ℕ → Buffer A → List (BufferedChunk A)
  with_chunk samples t b = b.chunks ++ record { audio_data = samples; timestamp_ms = t } ∷ []

  add_chunks_ordered :
      (rest : List (A × ℕ)) (b : Buffer A)
      → from_ordered 0 b.chunks ≡ true
      → (from_ordered 0 ((add_chunks rest b).chunks) ≡ true)
        × ((add_chunks rest b).window_ms ≡ b.window_ms)
  unfolding add_chunks add_chunk
  add_chunks_ordered [] b h = (h, refl)
  add_chunks_ordered ((samples, t) ∷ rest) b h = add_chunks_ordered rest (add_chunk samples t b) (
      evict_ordered b.max_duration_ms (sort (with_chunk samples t b))
        (sort_ordered (with_chunk samples t b)))

  build_windows_lem :
      (size : ℕ) (cs : List (BufferedChunk A))
      → 0 < size
      → from_ordered 0 cs ≡ true
      → (chunks_of (build_windows size cs) ≡ cs) × (laid_out size 0 (build_windows size cs) ≡ true)
  unfolding build_windows from_ordered laid_out
  build_windows_lem size [] pos h = (refl, refl)
  build_windows_lem size (c ∷ cs) pos h = (
    windows_from_chunks size (fresh_window size c.timestamp_ms []) (c ∷ cs),
    windows_from-laid_out size 0 c.timestamp_ms (fresh_window size c.timestamp_ms []) (c ∷ cs) pos
        (omega arith) refl refl (omega arith) (ground arith),
  )

  -- Whatever the chunks and the order they come in, with windows of a positive size: the buffer is
  -- in the order of the timestamps; a flush hands out each of its chunks once, in that order, in
  -- windows of the size, none empty, none overlapping the next, each holding only chunks of its own
  -- time; and it leaves the buffer empty.
  pub flush_lem :
      (size limit : ℕ) (fed : List (A × ℕ))
      → 0 < size
      → let b = add_chunks fed (new size limit) in
        (from_ordered 0 b.chunks ≡ true)
        × (chunks_of ((flush b).0) ≡ b.chunks)
        × (laid_out size 0 ((flush b).0) ≡ true)
        × ((flush b).1.chunks ≡ [])
  unfolding flush from_ordered
  flush_lem size limit fed pos =
      let (ordered, same) = add_chunks_ordered fed (new size limit) refl in
      let u = build_windows_lem size (add_chunks fed (new size limit)).chunks pos ordered in
      (ordered, rw same u.0, rw same u.1, refl)
