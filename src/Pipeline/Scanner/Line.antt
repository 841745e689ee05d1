-- ===== src/Pipeline/Scanner/Line.antt =====
-- bufio.Scanner on one line with its newline.
use mathlib.Core.List.{reverse, reverse_aux, reverse-reverse}
use rdw.Common.{
  leb, if◌then◌else◌, length, All, Text, true, false, ◌≡◌, refl, ap, ◌∙◌, [], ◌∷◌, ◌++◌, arith,
}
use rdw.Base64.{is_line_end}
use rdw.Control.Pairs.{Lacks, split_on-append, split_on-last}
use rdw.Pipeline.Scanner.{max_token_size, drop_cr_reversed, drop_cr, scan_pieces, scan}

-- Neither a newline nor a carriage return.
abbrev pub HasNoLineEnd : Text → Type 0
HasNoLineEnd = All (λ c. is_line_end c ≡ false)

reverse_aux-HasNoLineEnd :
    (s t : Text) → HasNoLineEnd s → HasNoLineEnd t → HasNoLineEnd (reverse_aux s t)
reverse_aux-HasNoLineEnd [] t h k = k
reverse_aux-HasNoLineEnd (c ∷ s) t h k = reverse_aux-HasNoLineEnd s (c ∷ t) h.1 (h.0, k)

drop_cr_reversed-same : (s : Text) → HasNoLineEnd s → drop_cr_reversed s ≡ s
drop_cr_reversed-same [] h = refl
drop_cr_reversed-same (c ∷ s) h = ground (arith, h.0)

drop_cr-same : (s : Text) → HasNoLineEnd s → drop_cr s ≡ s
drop_cr-same s h =
    ap reverse (drop_cr_reversed-same (reverse s) (reverse_aux-HasNoLineEnd s [] h tt))
    ∙ reverse-reverse s

Lacks-newline : (s : Text) → HasNoLineEnd s → Lacks b'\n' s
Lacks-newline [] h = tt
Lacks-newline (c ∷ s) h = (ground (arith, h.0), Lacks-newline s h.1)

-- The line is read back, unless it is too long.
pub scan-line :
    (s : Text)
    → HasNoLineEnd s
    → scan (s ++ b'\n' ∷ [])
      ≡ (if leb max_token_size (length s) then ([], true) else (s ∷ [], false))
unfolding scan scan_pieces
scan-line s h =
    rw (split_on-append b'\n' s [] (Lacks-newline s h), split_on-last b'\n' [] tt)
      (ap (λ l. if leb max_token_size (length s) then ([], true) else (l ∷ [], false))
        (drop_cr-same s h))
