-- ===== src/Knowledge/Normalization.antt =====
-- kb_mcp/ingestion/normalization.py: the normal form of a text.
pub mod Idempotence
use superoffice_ai_support_m.Common.{
  ℕ, Bool, true, false, not, ◌&&◌, ◌||◌, List, [], ◌∷◌, ◌++◌, keep, is_empty, Text, starts_with,
  ltb, ◌==◌, if◌then◌else◌,
}

-- text.replace("\r\n", "\n").replace("\r", "\n")
unfoldable pub line_endings : Text → Text
unfolding starts_with
line_endings [] = []
line_endings (c ∷ s) =
    let rest = line_endings s in
    if c == b'\r' then (if starts_with s (b'\n' ∷ []) then rest else b'\n' ∷ rest) else c ∷ rest

-- A character that is not filtered out.
unfoldable pub is_kept : ℕ → Bool
is_kept c = not ((ltb c 32 && not (c == b'\n' || c == b'\t')) || c == 127)

-- A character before the first line.
unfoldable pub prepend : ℕ → List Text → List Text
prepend c [] = (c ∷ []) ∷ []
prepend c (line ∷ lines) = (c ∷ line) ∷ lines

-- text.split("\n")
unfoldable pub split_lines : Text → List Text
unfolding prepend
split_lines [] = [] ∷ []
split_lines (c ∷ s) = let rest = split_lines s in if c == b'\n' then [] ∷ rest else prepend c rest

-- line.rstrip(" \t")
unfoldable pub rstrip_line : Text → Text
rstrip_line [] = []
rstrip_line (c ∷ s) =
    let rest = rstrip_line s in if is_empty rest && (c == b' ' || c == b'\t') then [] else c ∷ rest

unfoldable pub rstrip_lines : List Text → List Text
unfolding rstrip_line
rstrip_lines [] = []
rstrip_lines (line ∷ lines) = rstrip_line line ∷ rstrip_lines lines

-- while lines and not lines[0]: lines.pop(0)
unfoldable pub drop_leading : List Text → List Text
drop_leading [] = []
drop_leading (line ∷ lines) =
    let rest = drop_leading lines in if is_empty line then rest else line ∷ lines

-- while lines and not lines[-1]: lines.pop()
unfoldable pub drop_trailing : List Text → List Text
drop_trailing [] = []
drop_trailing (line ∷ lines) =
    let rest = drop_trailing lines in if is_empty rest && is_empty line then [] else line ∷ rest

-- "\n".join(lines)
unfoldable pub join_lines : List Text → Text
join_lines [] = []
join_lines (line ∷ []) = line
join_lines (line ∷ next ∷ lines) = line ++ b'\n' ∷ join_lines (next ∷ lines)

unfoldable pub normalize_text : Text → Text
unfolding line_endings is_kept split_lines rstrip_lines drop_leading drop_trailing join_lines
normalize_text text =
    join_lines
      (drop_trailing (drop_leading (rstrip_lines (split_lines (keep is_kept (line_endings text))))))
