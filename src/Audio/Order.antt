-- ===== src/Audio/Order.antt =====
-- The order of the chunks in the audio buffer.
use ai_interviewer.Prelude.{
  ℕ, ◌≤◌, ◌≡◌, refl, inl, inr, Bool, true, ◌&&◌, List, [], ◌∷◌, arith, leb, Bool-cases, keep,
}
use ai_interviewer.Audio.Buffer.{BufferedChunk, insert, sort, latest, recent, evict}

module _ {A : Type 0} where
  -- No chunk before the bound, and each at or after the one before it.
  unfoldable pub from_ordered : ℕ → List (BufferedChunk A) → Bool
  from_ordered t [] = true
  from_ordered t (c ∷ cs) = leb t c.timestamp_ms && from_ordered c.timestamp_ms cs

  insert_ordered :
      (c : BufferedChunk A) (cs : List (BufferedChunk A)) (t : ℕ)
      → t ≤ c.timestamp_ms
      → from_ordered t cs ≡ true
      → from_ordered t (insert c cs) ≡ true
  unfolding from_ordered insert
  insert_ordered c [] t low h = ground arith
  insert_ordered c (d ∷ ds) t low h =
      ground (arith, λ (l : d.timestamp_ms ≤ c.timestamp_ms). insert_ordered c ds d.timestamp_ms l)

  pub sort_ordered : (cs : List (BufferedChunk A)) → from_ordered 0 (sort cs) ≡ true
  unfolding sort from_ordered
  sort_ordered [] = refl
  sort_ordered (c ∷ cs) = insert_ordered c (sort cs) 0 (ground arith) (sort_ordered cs)

  keep_ordered :
      (f : BufferedChunk A → Bool) (cs : List (BufferedChunk A)) (t u : ℕ)
      → u ≤ t
      → from_ordered t cs ≡ true
      → from_ordered u (keep f cs) ≡ true
  unfolding from_ordered
  keep_ordered f [] t u l h = refl
  keep_ordered f (c ∷ cs) t u l h = elim (Bool-cases (f c)) [
    | inl e ↦ ground (arith, e, keep_ordered f cs c.timestamp_ms c.timestamp_ms)
    | inr e ↦ ground (arith, e, keep_ordered f cs c.timestamp_ms u)
  ]

  pub evict_ordered :
      (max : ℕ) (cs : List (BufferedChunk A))
      → from_ordered 0 cs ≡ true
      → from_ordered 0 (evict max cs) ≡ true
  unfolding evict
  evict_ordered max [] h = h
  evict_ordered max (c ∷ cs) h =
      ground
        (arith, keep_ordered (recent max (latest c.timestamp_ms cs)) (c ∷ cs) 0 0 (ground arith) h)
