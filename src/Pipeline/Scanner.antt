-- ===== src/Pipeline/Scanner.antt =====
-- `bufio.Scanner` with its default limits, as internal/pipeline/pipeline.go reads with it: lines end
-- at a newline, a carriage return before it goes too, and a line of 65536 bytes or more stops the
-- scan with an error.
pub mod Line
use mathlib.Core.List.{reverse}
use rdw.Common.{
  leb, ◌==◌, if◌then◌else◌, length, Text, is_empty, ℕ, ◌*◌, Bool, true, false, List, [], ◌∷◌,
}
use rdw.Control.{split_on}

abbrev pub max_token_size : ℕ
max_token_size = 64 * 1024

-- `dropCR` on a reversed line.
abbrev pub drop_cr_reversed : Text → Text
drop_cr_reversed [] = []
drop_cr_reversed (c ∷ s) = if c == b'\r' then s else c ∷ s

abbrev pub drop_cr : Text → Text
drop_cr s = reverse (drop_cr_reversed (reverse s))

-- The lines up to the end or to the first one that is too long, and whether there is such a one.
-- The last piece is a line only if it is not empty.
pub scan_pieces : List Text → List Text × Bool
scan_pieces [] = ([], false)
scan_pieces (l ∷ []) =
    if is_empty l
    then ([], false)
    else if leb max_token_size (length l)
    then ([], true)
    else (drop_cr l ∷ [], false)
scan_pieces (l ∷ m ∷ ls) =
    let (rest, long) = scan_pieces (m ∷ ls) in
    if leb max_token_size (length l) then ([], true) else (drop_cr l ∷ rest, long)

pub scan : Text → List Text × Bool
scan s = scan_pieces (split_on b'\n' s)
