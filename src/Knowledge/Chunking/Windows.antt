-- ===== src/Knowledge/Chunking/Windows.antt =====
-- The windows of kb_mcp/ingestion/chunking.py cover a section without a gap.
use superoffice_ai_support_m.Common.{
  ℕ, zero, suc, ◌+◌, ◌-◌, ◌≤◌, ◌<◌, ◌≡◌, refl, min, true, ◌&&◌, List, [], ◌∷◌, any, leb, ltb, ok,
  arith, Bool-cases, inl, inr, leb→le, not_leb→lt, lt→ltb,
}
use superoffice_ai_support_m.Knowledge.Chunking.{
  DeterministicChunker, new_chunker, step_of, token_windows,
}

-- Windows from `start` on: each but the last has the target size, and the next begins
-- overlap_tokens before its end; the last is not empty, is no longer than the target and ends with
-- the tokens.
abbrev pub Tiles : DeterministicChunker → (total start : ℕ) → List (ℕ × ℕ) → Type 0
Tiles chunker total start [] = ⊥
Tiles chunker total start (window ∷ []) =
    (window.0 ≡ start)
    × (window.1 ≡ total)
    × (start < total)
    × (total ≤ start + chunker.target_tokens)
Tiles chunker total start (window ∷ next ∷ windows) =
    ((window.0 ≡ start) × (window.1 ≡ start + chunker.target_tokens) × (window.1 < total))
    × Tiles chunker total (window.1 - chunker.overlap_tokens) (next ∷ windows)

Tiles-cons :
    (chunker : DeterministicChunker) (total start next : ℕ) (windows : List (ℕ × ℕ))
    → start + chunker.target_tokens < total
    → next ≡ start + chunker.target_tokens - chunker.overlap_tokens
    → Tiles chunker total next windows
    → Tiles chunker total start ((start, start + chunker.target_tokens) ∷ windows)
Tiles-cons chunker total start next [] below e t = absurd t
Tiles-cons chunker total start next (w ∷ windows) below e t = ((refl, refl, below), rw e at t)

-- What the constructor checked.
step_of-made :
    (chunker : DeterministicChunker)
    → new_chunker chunker ≡ ok chunker
    → (chunker.overlap_tokens < chunker.target_tokens)
      × (step_of chunker ≡ chunker.target_tokens - chunker.overlap_tokens)
unfolding new_chunker step_of
step_of-made chunker made =
    let below : chunker.overlap_tokens < chunker.target_tokens = ground arith in
    (below, omega (arith, below))

token_windows-loop :
    (chunker : DeterministicChunker) (total : ℕ)
    → chunker.overlap_tokens < chunker.target_tokens
    → step_of chunker ≡ chunker.target_tokens - chunker.overlap_tokens
    → (fuel start : ℕ) → start < total
    → total ≤ fuel + start
    → Tiles chunker total start (token_windows chunker total fuel start)
unfolding token_windows
token_windows-loop chunker total overlap stepped zero start below enough = absurd (omega arith)
token_windows-loop chunker total overlap stepped (suc fuel) start below enough =
    elim (Bool-cases (leb total (min (start + chunker.target_tokens) total))) [
      | inl last ↦
          rw (lt→ltb start total below, last)
            (refl, omega (arith, leb→le _ _ last), below, omega (arith, leb→le _ _ last))
      | inr more ↦
          let room = not_leb→lt _ _ more in
          let e : min (start + chunker.target_tokens) total ≡ start + chunker.target_tokens =
            omega (arith, room) in
          let next = start + step_of chunker in
          let rest =
            token_windows-loop chunker total overlap stepped fuel next
              (omega (arith, room, stepped, overlap)) (omega (arith, room, stepped, overlap)) in
          rw (lt→ltb start total below, more, e)
            (Tiles-cons chunker total start next (token_windows chunker total fuel next)
              (omega (arith, room)) (omega (arith, stepped, overlap)) rest)
    ]

-- For a chunker that was constructed and at least one token, the loop of the sliding window, given
-- as much fuel as there are tokens, ends with windows that tile the tokens from the first to the
-- last: each is not empty and has at most target_tokens tokens, and each but the last has exactly
-- that many and shares its last overlap_tokens tokens with the next.
pub token_windows-Tiles :
    (chunker : DeterministicChunker) (total : ℕ)
    → new_chunker chunker ≡ ok chunker
    → 0 < total
    → Tiles chunker total 0 (token_windows chunker total total 0)
token_windows-Tiles chunker total made some_token =
    let (overlap, stepped) = step_of-made chunker made in
    token_windows-loop chunker total overlap stepped total 0 some_token (omega arith)

-- Windows that tile the tokens leave none out.
Tiles-any :
    (chunker : DeterministicChunker) (total start i : ℕ) (windows : List (ℕ × ℕ))
    → Tiles chunker total start windows
    → start ≤ i
    → i < total
    → any (λ (w : ℕ × ℕ). leb w.0 i && ltb i w.1) windows ≡ true
Tiles-any chunker total start i [] t low high = absurd t
Tiles-any chunker total start i (w ∷ []) t low high = ground arith
Tiles-any chunker total start i (w ∷ next ∷ windows) t low high = elim (Bool-cases (ltb i w.1)) [
  | inl here ↦ ground arith
  | inr later ↦
      let rest =
        Tiles-any chunker total (w.1 - chunker.overlap_tokens) i (next ∷ windows) t.1 (ground arith)
          high in
      ground arith
]

-- Every token of an oversized section lies in a window, for a chunker that was constructed.
token_windows_cover :
    (chunker : DeterministicChunker) (total i : ℕ)
    → new_chunker chunker ≡ ok chunker
    → i < total
    → any (λ (w : ℕ × ℕ). leb w.0 i && ltb i w.1) (token_windows chunker total total 0) ≡ true
token_windows_cover chunker total i made below =
    Tiles-any chunker total 0 i (token_windows chunker total total 0)
      (token_windows-Tiles chunker total made (omega arith)) (omega arith) below
