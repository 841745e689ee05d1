-- ===== src/Relay/Frames.antt =====
-- What internal/pipe/hybrid.go makes of image frames, up to the pane that shows them.
use rdw.Common.{
  lookup, insert, err, is_present, Option-cases, length, All, length-append, Text, codes, text_eq,
  text_eq_refl, after_prefix, after_prefix-append, ℕ, zero, suc, ◌≤◌, ◌<◌, ◌≡◌, refl, sym, ap, ◌∙◌,
  inl, inr, true, false, none, some, List, [], ◌∷◌, ◌++◌, arith,
}
use rdw.Relay.{
  accumulate, sentinel_image_end, sentinel_svg_end, accum_binary, accum_svg, next, logical_lines,
}
use rdw.Base64.{encode}
use rdw.Base64.RoundTrip.{IsBytes}
use rdw.Session.Scrollback.Ring.{IsValid}
use rdw.Session.TargetId.{TargetId}
use rdw.Pipeline.{Pipeline, line_too_long, apply_filters}
use rdw.Router.{Router, relay, route}
use rdw.Router.Content.{IsHandledBy, route-base64, route-too_long}

-- The lines of a frame, each with its newline.
unfoldable pub joined : List Text → Text
joined [] = []
joined (l ∷ ls) = l ++ b'\n' ∷ joined ls

abbrev IsFrameLine : Text → Text → Type 0
IsFrameLine sentinel l = text_eq l sentinel ≡ false

accumulate-frame :
    (sentinel : Text) (body rest : List Text)
    → All (IsFrameLine sentinel) body
    → accumulate sentinel (body ++ sentinel ∷ rest) ≡ (joined body, rest)
unfolding accumulate joined
accumulate-frame sentinel [] rest h = rw (text_eq_refl sentinel) refl
accumulate-frame sentinel (l ∷ body) rest h = rw (h.0, accumulate-frame sentinel body rest h.1) refl

accumulate-shorter :
    (sentinel : Text) (ls : List Text) → length (accumulate sentinel ls).1 ≤ length ls
unfolding accumulate
accumulate-shorter sentinel [] = omega arith
accumulate-shorter sentinel (l ∷ ls) = ground (arith, accumulate-shorter sentinel ls)

next-shorter : (ls rest : List Text) (l : Text) → next ls ≡ some (l, rest) → length rest < length ls
unfolding next accum_binary accum_svg
next-shorter [] rest l h = absurd (ground arith)
next-shorter (x ∷ ls) rest l h =
    ground (arith, accumulate-shorter sentinel_image_end ls, accumulate-shorter sentinel_svg_end ls)

logical_lines-none : (n : ℕ) (ls : List Text) → next ls ≡ none → logical_lines (suc n) ls ≡ []
unfolding logical_lines
logical_lines-none n ls h = ground arith

logical_lines-some :
    (n : ℕ) (ls rest : List Text) (l : Text)
    → next ls ≡ some (l, rest)
    → logical_lines (suc n) ls ≡ l ∷ logical_lines n rest
unfolding logical_lines
logical_lines-some n ls rest l h = ground arith

next-image :
    (l : Text) (ls : List Text)
    → is_present (after_prefix (codes "image:") l) ≡ true
    → text_eq l sentinel_image_end ≡ false
    → next (l ∷ ls) ≡ some (accum_binary ls)
unfolding next
next-image l ls h d = rw (h, d) refl

-- Fuel for as many rounds as there are lines is enough: more of it makes no other logical lines.
logical_lines-fuel :
    (n m : ℕ) (ls : List Text)
    → length ls ≤ n
    → length ls ≤ m
    → logical_lines n ls ≡ logical_lines m ls
unfolding logical_lines
logical_lines-fuel zero zero ls h k = refl
logical_lines-fuel zero (suc m) [] h k = unfold next in refl
logical_lines-fuel zero (suc m) (l ∷ ls) h k = absurd (omega arith)
logical_lines-fuel (suc n) zero [] h k = unfold next in refl
logical_lines-fuel (suc n) zero (l ∷ ls) h k = absurd (omega arith)
logical_lines-fuel (suc n) (suc m) ls h k = elim (Option-cases (next ls)) [
  | inl e ↦ logical_lines-none n ls e ∙ sym (logical_lines-none m ls e)
  | inr ((l, rest), e) ↦
      let shorter = next-shorter ls rest l e in
      logical_lines-some n ls rest l e
      ∙ ap (λ t. l ∷ t) (logical_lines-fuel n m rest (omega arith) (omega arith))
      ∙ sym (logical_lines-some m ls rest l e)
]

-- The lines of a client that begin with an image frame.
abbrev pub frame_of : Text → List Text → List Text → List Text
frame_of label body rest = (codes "image:" ++ label) ∷ body ++ sentinel_image_end ∷ rest

-- The line that is sent for a frame.
abbrev pub frame_line : List Text → Text
frame_line body = codes "b64:" ++ encode (joined body)

frame-logical :
    (label : Text) (body rest : List Text)
    → text_eq (codes "image:" ++ label) sentinel_image_end ≡ false
    → All (IsFrameLine sentinel_image_end) body
    → logical_lines (length (frame_of label body rest)) (frame_of label body rest)
      ≡ frame_line body ∷ logical_lines (length rest) rest
frame-logical label body rest d f =
    let framed : next (frame_of label body rest) ≡ some (frame_line body, rest) =
      next-image (codes "image:" ++ label) (body ++ sentinel_image_end ∷ rest)
        (ap is_present (after_prefix-append (codes "image:") label)) d
      ∙ (unfold accum_binary in rw (accumulate-frame sentinel_image_end body rest f) refl) in
    let enough : length rest ≤ length (body ++ sentinel_image_end ∷ rest) =
      omega (arith, length-append body (sentinel_image_end ∷ rest)) in
    logical_lines-some _ _ _ _ framed
    ∙ ap (λ t. frame_line body ∷ t)
        (logical_lines-fuel (length (body ++ sentinel_image_end ∷ rest)) (length rest) rest enough
          (omega arith))

-- An image frame, a line that begins with `image:` up to the line `image:end`, is one logical line. If
-- that has less than 65536 bytes and is routed to a registered identifier, the call returns no error
-- and the pipeline decodes the line to those of the frame, each with its newline, and passes them
-- through its filters to the pane. The lines after the frame are read as if it had not been.
pub image_frame-delivered :
    (clock : ℕ → Text) (id : TargetId) (label : Text) (body rest : List Text) (p : Pipeline)
    (r : Router)
    → text_eq (codes "image:" ++ label) sentinel_image_end ≡ false
    → All (IsFrameLine sentinel_image_end) body
    → IsBytes (joined body)
    → length (frame_line body) < 65536
    → lookup id r.pipes ≡ some p
    → IsValid p.scrollback
    → (logical_lines (length (frame_of label body rest)) (frame_of label body rest)
        ≡ frame_line body ∷ logical_lines (length rest) rest)
      × IsHandledBy
          (clock 0)
          id
          p
          r
          (apply_filters p.filters (joined body))
          (route clock id (frame_line body) r)
image_frame-delivered clock id label body rest p r d f b small found v =
    (frame-logical label body rest d f, route-base64 clock id (joined body) p r found v b small)

-- An image frame whose logical line has 65536 bytes or more is refused by the server's scanner: the call
-- returns its error, nothing is shown and no pane changes.
image_frame-refused :
    (clock : ℕ → Text) (id : TargetId) (label : Text) (body rest : List Text) (p : Pipeline)
    (r : Router)
    → text_eq (codes "image:" ++ label) sentinel_image_end ≡ false
    → All (IsFrameLine sentinel_image_end) body
    → IsBytes (joined body)
    → 65536 ≤ length (frame_line body)
    → lookup id r.pipes ≡ some p
    → (logical_lines (length (frame_of label body rest)) (frame_of label body rest)
        ≡ frame_line body ∷ logical_lines (length rest) rest)
      × (route clock id (frame_line body) r ≡ (
        record r { pipes = insert id p r.pipes },
        record { events = []; result = err (relay line_too_long) },
      ))
image_frame-refused clock id label body rest p r d f b large found =
    (frame-logical label body rest d f, route-too_long clock id (joined body) p r found b large)
