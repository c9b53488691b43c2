-- ===== src/Knowledge/Chunking.antt =====
-- kb_mcp/ingestion/chunking.py: the limits of the chunker and the sliding window over the tokens of
-- an oversized section. The spans that the token pattern finds in a text are an argument, in the
-- order of the text. The loop runs on fuel, of which it is given the number of tokens.
pub mod Windows
use superoffice_ai_support_m.Common.{
  ℕ, zero, suc, ◌+◌, ◌-◌, min, max, Bool, true, false, ◌||◌, List, [], ◌∷◌, Text, strip, is_empty,
  leb, ltb, length, ◌==◌, Result, ok, err, if◌then◌else◌,
}

pub record DeterministicChunker : Type 0 where
  pub target_tokens : ℕ
  pub max_tokens : ℕ
  pub overlap_tokens : ℕ
  pub max_chunks : ℕ

pub data ChunkerError : Type 0 where
  target_not_positive max_below_target overlap_out_of_range chunks_not_positive : ChunkerError

-- __init__, for limits that are not negative
unfoldable pub new_chunker : DeterministicChunker → Result ChunkerError DeterministicChunker
new_chunker limits =
    if leb limits.target_tokens 0
    then err target_not_positive
    else if ltb limits.max_tokens limits.target_tokens
    then err max_below_target
    else if leb limits.target_tokens limits.overlap_tokens
    then err overlap_out_of_range
    else if leb limits.max_chunks 0
    then err chunks_not_positive
    else ok limits

unfoldable pub step_of : DeterministicChunker → ℕ
step_of chunker = max 1 (chunker.target_tokens - chunker.overlap_tokens)

-- The while loop, as the pairs (start_idx, end_idx) of its rounds.
unfoldable pub token_windows :
    DeterministicChunker → (total_tokens fuel start_idx : ℕ) → List (ℕ × ℕ)
unfolding step_of
token_windows chunker total_tokens zero start_idx = []
token_windows chunker total_tokens (suc fuel) start_idx =
    let end_idx = min (start_idx + chunker.target_tokens) total_tokens in
    let rest = token_windows chunker total_tokens fuel (start_idx + step_of chunker) in
    if ltb start_idx total_tokens
    then (start_idx, end_idx) ∷ (if leb total_tokens end_idx then [] else rest)
    else []

-- tokens[i]; the loop asks only for indexes in range.
unfoldable pub span_at : List (ℕ × ℕ) → ℕ → ℕ × ℕ
span_at [] i = (0, 0)
span_at (span ∷ spans) zero = span
span_at (span ∷ spans) (suc i) = span_at spans i

unfoldable pub drop_chars : ℕ → Text → Text
drop_chars zero text = text
drop_chars (suc n) [] = []
drop_chars (suc n) (c ∷ text) = drop_chars n text

unfoldable pub take_chars : ℕ → Text → Text
take_chars zero text = []
take_chars (suc n) [] = []
take_chars (suc n) (c ∷ text) = c ∷ take_chars n text

-- text[char_start:char_end].strip()
unfoldable pub window_text : Text → List (ℕ × ℕ) → ℕ × ℕ → Text
unfolding span_at drop_chars take_chars
window_text text tokens (start_idx, end_idx) =
    let char_start = (span_at tokens start_idx).0 in
    let char_end = (span_at tokens (end_idx - 1)).1 in
    strip (take_chars (char_end - char_start) (drop_chars char_start text))

-- A blank chunk is not appended.
unfoldable pub chunk_texts : Text → List (ℕ × ℕ) → List (ℕ × ℕ) → List Text
unfolding window_text
chunk_texts text tokens [] = []
chunk_texts text tokens (window ∷ windows) =
    let rest = chunk_texts text tokens windows in
    let chunk = window_text text tokens window in if is_empty chunk then rest else chunk ∷ rest

unfoldable pub split_token_window : (Text → List (ℕ × ℕ)) → DeterministicChunker → Text → List Text
unfolding token_windows chunk_texts
split_token_window find_tokens chunker text =
    let tokens = find_tokens text in
    if is_empty tokens
    then []
    else if leb (length tokens) chunker.max_tokens
    then (let clean = strip text in if is_empty clean then [] else clean ∷ [])
    else chunk_texts text tokens (token_windows chunker (length tokens) (length tokens) 0)
