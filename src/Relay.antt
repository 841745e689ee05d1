-- ===== src/Relay.antt =====
-- internal/pipe/pipe.go and internal/pipe/hybrid.go: the client that sends its input's lines to the
-- server. What the network does is a parameter: `accepts n line` says whether attempt number n, which
-- sends that line, returns no error, and `takes n line` whether the server has taken the line by then;
-- it can have done so although the answer is lost and the attempt returns an error.
pub mod Queue
pub mod Frames
use rdw.Common.{
  if◌then◌else◌, is_present, length, ltb_ℤ, leb_ℤ, ℤ, pos, Text, codes, text_eq, after_prefix, ℕ,
  zero, suc, Bool, true, false, not, ◌&&◌, Option, none, some, List, [], ◌∷◌, ◌++◌,
}
use rdw.Base64.{encode}

-- The queue of `relay`. The other fields are not in the code and record what the attempts did: how many
-- there were, the lines whose attempt returned no error, those that were given up, and those that the
-- server has taken, in the order of the attempts.
pub record Relay : Type 0 where
  pub attempts : ℕ
  pub queue : List Text
  pub confirmed : List Text
  pub dropped : List Text
  pub received : List Text

abbrev pub new_relay : Relay
new_relay = record { attempts = 0; queue = []; confirmed = []; dropped = []; received = [] }

-- One round of the loop: the line, and whether the context is cancelled by then.
pub record Turn : Type 0 where
  pub line : Text
  pub is_cancelled : Bool

module _ (accepts takes : ℕ → Text → Bool) where
  -- `l`, if the server takes it in attempt `n`, and the lines that it takes later.
  abbrev with_taken : ℕ → Text → List Text → List Text
  with_taken n l got = if takes n l then l ∷ got else got

  -- The inner loop over the queue, up to the first failure: attempts, confirmed lines, the queue left,
  -- and the lines that the server took.
  pub flush : ℕ → List Text → ℕ × List Text × List Text × List Text
  flush n [] = (n, [], [], [])
  flush n (l ∷ ls) =
      let (m, sent, left, got) = flush (suc n) ls in
      if accepts n l
      then (m, l ∷ sent, left, with_taken n l got)
      else (suc n, [], l ∷ ls, with_taken n l [])

  -- `if err := send(line); err != nil { if len(queue) < queueLen { ... } }`
  pub send_line : ℤ → Text → Relay → Relay
  send_line queue_len line r =
      let n = r.attempts in
      let got = r.received ++ with_taken n line [] in
      if accepts n line
      then record r { attempts = suc n; confirmed = r.confirmed ++ line ∷ []; received = got }
      else if ltb_ℤ (pos (length r.queue)) queue_len
      then record r { attempts = suc n; queue = r.queue ++ line ∷ []; received = got }
      else record r { attempts = suc n; dropped = r.dropped ++ line ∷ []; received = got }

  pub relay_line : ℤ → Text → Relay → Relay
  relay_line queue_len line r =
      let (m, sent, left, got) = flush r.attempts r.queue in
      send_line queue_len line (record r {
        attempts = m;
        queue = left;
        confirmed = r.confirmed ++ sent;
        received = r.received ++ got;
      })

  -- `relay`: the state it ends in, and whether it ends with the context's error.
  pub relay : ℤ → List Turn → Relay → Relay × Bool
  relay queue_len [] r = (r, false)
  relay queue_len (t ∷ ts) r =
      let rest = relay queue_len ts (relay_line queue_len t.line r) in
      if t.is_cancelled then (r, true) else rest

-- `ReconnectQueueLen`, with the default of `Relay`.
abbrev queue_len_of : ℤ → ℤ
queue_len_of n = if leb_ℤ n (pos 0) && leb_ℤ (pos 0) n then pos 1000 else n

-- The loops of `accumBinary` and `accumSVG`: the bytes up to the sentinel, and the lines after it.
pub accumulate : Text → List Text → Text × List Text
accumulate sentinel [] = ([], [])
accumulate sentinel (l ∷ ls) =
    let (buf, rest) = accumulate sentinel ls in
    if text_eq l sentinel then ([], ls) else (l ++ b'\n' ∷ buf, rest)

abbrev pub sentinel_image_end : Text
sentinel_image_end = codes "image:end"

abbrev pub sentinel_svg_end : Text
sentinel_svg_end = codes "svg:end"

pub accum_binary : List Text → Text × List Text
accum_binary ls =
    let (buf, rest) = accumulate sentinel_image_end ls in (codes "b64:" ++ encode buf, rest)

pub accum_svg : List Text → Text × List Text
accum_svg ls =
    let (buf, rest) = accumulate sentinel_svg_end ls in (codes "svg-data:" ++ encode buf, rest)

-- `Next`: the logical line, and the scanner's lines that are left.
pub next : List Text → Option (Text × List Text)
next [] = none
next (l ∷ ls) =
    if is_present (after_prefix (codes "image:") l) && not (text_eq l sentinel_image_end)
    then some (accum_binary ls)
    else if is_present (after_prefix (codes "svg:") l) && not (text_eq l sentinel_svg_end)
    then some (accum_svg ls)
    else some (l, ls)

-- The loop over `Next` in `relay`, on fuel: each round takes at least one line.
pub logical_lines : ℕ → List Text → List Text
logical_lines zero ls = []
logical_lines (suc n) ls = elim (next ls) [ none ↦ [] | some (l, rest) ↦ l ∷ logical_lines n rest ]
