-- ===== src/Providers/Sse.antt =====
-- `consumeSseStream` of packages/kogg-providers/src/node/sse.ts. A text is the list of its UTF-16
-- code units. The reads that the body answers are given as the decoded chunks, then the way they
-- end: the body closes, a read fails, or a timer cancels the reader.
use kogg.Prelude.{
  inr, ◌⊎◌, inl, ℕ, zero, suc, Bool, true, false, ◌&&◌, ◌||◌, Option, none, some, List, [], ◌∷◌,
  ◌++◌, map, ◌==◌, ℕ-Eq, filter, length, drop, leb, if◌then◌else◌,
}
use kogg.Text.{codes}

-- What `onEvent` does: it returns, returns 'stop', or throws.
pub data Signal : Type 0 where
  proceeds stops throws : Signal

abbrev pub Handler : Type 0 → Type 0
Handler S = List ℕ → S → Signal × S

-- The promise that `consumeSseStream` returns, with what the handler left.
pub data Ended (S : Type 0) : Type 0 where
  resolved rejected : S → Ended S

-- A timer that fires rejects the promise and cancels the reader, whose pending read then ends as if the
-- body had closed.
pub data Closing : Type 0 where
  closes fails cancelled : Closing

abbrev pub newline : ℕ
newline = 10

-- The slices for a separator that stands further on.
abbrev pub further : ℕ → Option (List ℕ × List ℕ) → Option (List ℕ × List ℕ)
further c none = none
further c (some (frame, rest)) = some (c ∷ frame, rest)

-- `buffer.indexOf('\n\n')`, with what stands before and behind the separator.
unfoldable pub split_frame : List ℕ → Option (List ℕ × List ℕ)
split_frame [] = none
split_frame (c ∷ []) = none
split_frame (c ∷ d ∷ cs) =
    let later = split_frame (d ∷ cs) in
    if c == newline && d == newline then some ([], cs) else further c later

prepend : ℕ → List (List ℕ) → List (List ℕ)
prepend c [] = (c ∷ []) ∷ []
prepend c (line ∷ lines) = (c ∷ line) ∷ lines

-- `frame.split('\n')`.
unfoldable pub split_lines : List ℕ → List (List ℕ)
unfolding prepend
split_lines [] = [] ∷ []
split_lines (c ∷ cs) =
    let later = split_lines cs in if c == newline then [] ∷ later else prepend c later

starts_with : List ℕ → List ℕ → Bool
starts_with [] cs = true
starts_with (p ∷ ps) [] = false
starts_with (p ∷ ps) (c ∷ cs) = p == c && starts_with ps cs

-- The white space and line ends that `trimStart` takes off.
is_space : ℕ → Bool
is_space c =
    (leb 9 c && leb c 13)
    || ((c == 32 || c == 160)
        || (c == 5760
            || ((leb 8192 c && leb c 8202)
                || ((c == 8232 || c == 8233)
                    || ((c == 8239 || c == 8287) || (c == 12288 || c == 65279))))))

unfoldable pub trim_start : List ℕ → List ℕ
unfolding is_space
trim_start [] = []
trim_start (c ∷ cs) = let later = trim_start cs in if is_space c then later else c ∷ cs

join_lines : List (List ℕ) → List ℕ
join_lines [] = []
join_lines (line ∷ []) = line
join_lines (line ∷ next ∷ lines) = line ++ newline ∷ join_lines (next ∷ lines)

-- The `data:` lines of a frame, joined.
unfoldable pub frame_data : List ℕ → List ℕ
unfolding starts_with join_lines split_lines trim_start
frame_data frame = join_lines (
    map (λ line. trim_start (drop 5 line))
      (filter (starts_with (codes "data:")) (split_lines frame)))

-- Reading goes on, or the promise is settled.
abbrev pub respond : {S R : Type 0} → (S → Ended S ⊎ R) → Signal × S → Ended S ⊎ R
respond next (Signal.proceeds, s) = next s
respond next (Signal.stops, s) = inl (resolved s)
respond next (Signal.throws, s) = inl (rejected s)

module _ {S : Type 0} (on_event : Handler S) where
  -- `if (data) options.onEvent(data)`.
  unfoldable pub emit : List ℕ → S → Signal × S
  emit [] s = (Signal.proceeds, s)
  emit (c ∷ cs) s = on_event (c ∷ cs) s

  -- The inner loop: the frames of the buffer are handed on until the handler stops or throws.
  unfoldable pub drain : ℕ → List ℕ → S → (Ended S) ⊎ (List ℕ × S)
  drain zero buffer s = inr (buffer, s)
  drain (suc fuel) buffer s = elim (split_frame buffer) [
    | none ↦ inr (buffer, s)
    | some (frame, rest) ↦ respond (drain fuel rest) (emit (frame_data frame) s)
  ]

  -- The last frame, which the end of the stream closes; its 'stop' makes no difference. Where a timer
  -- ended it, the promise is rejected already and stays so.
  unfoldable pub finish : Closing → List ℕ → S → Ended S
  finish fails buffer s = rejected s
  finish cancelled buffer s = let (signal, s') = emit (frame_data buffer) s in rejected s'
  finish closes buffer s =
      let (signal, s') = emit (frame_data buffer) s in
      elim signal [ proceeds ↦ resolved s' | stops ↦ resolved s' | throws ↦ rejected s' ]

  -- `pump`, with the buffer that earlier reads left.
  unfoldable pub pump : Closing → List ℕ → List (List ℕ) → S → Ended S
  pump closing buffer [] s = finish closing buffer s
  pump closing buffer (chunk ∷ chunks) s =
      elim (drain (length (buffer ++ chunk)) (buffer ++ chunk) s) [
        | inl ended ↦ ended
        | inr (rest, s') ↦ pump closing rest chunks s'
      ]

  unfoldable pub consume_sse_stream : Closing → List (List ℕ) → S → Ended S
  consume_sse_stream closing chunks s = pump closing [] chunks s
