-- ===== src/Providers/Chunks.antt =====
-- The stream of a provider, read in chunks and read as a whole:
-- packages/kogg-providers/src/node/sse.ts.
use kogg.Prelude.{
  ℕ, zero, suc, ◌≤◌, ◌<◌, Option, none, some, List, [], ◌∷◌, ◌++◌, length, ◌≡◌, refl, sym, ap, ◌∙◌,
  ◌⊎◌, arith, inl, inr,
}
use kogg.Providers.Sse.{
  respond, split_frame, Handler, Signal, Ended, Closing, emit, frame_data, drain, finish, pump,
  consume_sse_stream,
}
use kogg.Providers.Frames.{Splits, frames, split_frame-Splits, tail-unsplit, frames-append}

-- The chunks, one behind the other.
abbrev pub concat : List (List ℕ) → List ℕ
concat [] = []
concat (chunk ∷ chunks) = chunk ++ concat chunks

append_nil : (xs : List ℕ) → xs ++ [] ≡ xs
append_nil [] = refl
append_nil (x ∷ xs) = ap (λ l. x ∷ l) (append_nil xs)

append_assoc : (xs ys zs : List ℕ) → (xs ++ ys) ++ zs ≡ xs ++ (ys ++ zs)
append_assoc [] ys zs = refl
append_assoc (x ∷ xs) ys zs = ap (λ l. x ∷ l) (append_assoc xs ys zs)

module _ {S : Type 0} (on_event : Handler S) where
  -- The frames handed on in turn, until the handler stops or throws.
  unfoldable pub deliver : List (List ℕ) → S → Ended S ⊎ S
  deliver [] s = inr s
  deliver (f ∷ fs) s = respond (deliver fs) (emit on_event (frame_data f) s)

  -- The whole text read at once.
  unfoldable pub read_whole : Closing → List ℕ → S → Ended S
  read_whole closing text s = elim (deliver (frames text).0 s) [
    | inl ended ↦ ended
    | inr s' ↦ finish on_event closing (frames text).1 s'
  ]

  abbrev left_with : List ℕ → Ended S ⊎ S → Ended S ⊎ (List ℕ × S)
  left_with tail (inl ended) = inl ended
  left_with tail (inr s) = inr (tail, s)

  respond-left :
      (tail : List ℕ) (next : S → Ended S ⊎ (List ℕ × S)) (next' : S → Ended S ⊎ S) (x : Signal × S)
      → ((s : S) → next s ≡ left_with tail (next' s))
      → respond next x ≡ left_with tail (respond next' x)
  respond-left tail next next' (Signal.proceeds, s) h = h s
  respond-left tail next next' (Signal.stops, s) h = refl
  respond-left tail next next' (Signal.throws, s) h = refl

  drain-step :
      (fuel : ℕ) (b : List ℕ) (s : S) (o : Option (List ℕ × List ℕ))
      → split_frame b ≡ o
      → Splits b o
      → ((rest : List ℕ) (s' : S)
          → length rest < length b
          → drain on_event fuel rest s' ≡ left_with (frames rest).1 (deliver (frames rest).0 s'))
      → drain on_event (suc fuel) b s ≡ left_with (frames b).1 (deliver (frames b).0 s)
  unfolding drain deliver
  drain-step fuel b s none e k ih = rw (e, drain) (rw k refl)
  drain-step fuel b s (some (f, rest)) e (k, shorter) ih =
      rw (e, drain)
        (rw k (
          respond-left (frames rest).1 (drain on_event fuel rest) (deliver (frames rest).0) _
            (λ s'. ih rest s' shorter)))

  -- The inner loop hands on the frames of its buffer, and leaves what is behind them.
  drain-deliver :
      (fuel : ℕ) (b : List ℕ) (s : S)
      → length b ≤ fuel
      → drain on_event fuel b s ≡ left_with (frames b).1 (deliver (frames b).0 s)
  unfolding drain deliver
  drain-deliver zero [] s h = unfold frames in refl
  drain-deliver zero (c ∷ cs) s h = absurd (omega arith)
  drain-deliver (suc fuel) b s h =
      drain-step fuel b s (split_frame b) refl (split_frame-Splits b)
        (λ rest s' shorter. drain-deliver fuel rest s' (omega (arith, h, shorter)))

  abbrev and_then : Ended S ⊎ S → (S → Ended S ⊎ S) → Ended S ⊎ S
  and_then (inl ended) next = inl ended
  and_then (inr s) next = next s

  respond-and_then :
      (next next' later : S → Ended S ⊎ S) (x : Signal × S)
      → ((s : S) → next s ≡ and_then (next' s) later)
      → respond next x ≡ and_then (respond next' x) later
  respond-and_then next next' later (Signal.proceeds, s) h = h s
  respond-and_then next next' later (Signal.stops, s) h = refl
  respond-and_then next next' later (Signal.throws, s) h = refl

  deliver-append :
      (fs gs : List (List ℕ)) (s : S) → deliver (fs ++ gs) s ≡ and_then (deliver fs s) (deliver gs)
  unfolding deliver
  deliver-append [] gs s = refl
  deliver-append (f ∷ fs) gs s =
      respond-and_then (deliver (fs ++ gs)) (deliver fs) (deliver gs)
        (emit on_event (frame_data f) s) (λ s'. deliver-append fs gs s')

  abbrev settle : Closing → List ℕ → Ended S ⊎ S → Ended S
  settle closing tail (inl ended) = ended
  settle closing tail (inr s) = finish on_event closing tail s

  read_whole-settle :
      (closing : Closing) (text : List ℕ) (s : S)
      → read_whole closing text s ≡ settle closing (frames text).1 (deliver (frames text).0 s)
  unfolding read_whole
  read_whole-settle closing text s = go (deliver (frames text).0 s) refl
    where
      go :
          (o : Ended S ⊎ S)
          → deliver (frames text).0 s ≡ o
          → read_whole closing text s ≡ settle closing (frames text).1 o
      go (inl ended) e = rw (e, read_whole) refl
      go (inr s') e = rw (e, read_whole) refl

  -- One more chunk behind an unsplit buffer.
  settle-later :
      (closing : Closing) (tail text : List ℕ) (o : Ended S ⊎ S)
      → settle closing (frames (tail ++ text)).1 (and_then o (deliver (frames (tail ++ text)).0))
        ≡ (elim (left_with tail o) as (λ _. Ended S) [
          | inl ended ↦ ended
          | inr (rest, s') ↦ read_whole closing (rest ++ text) s'
        ])
  settle-later closing tail text (inl ended) = refl
  settle-later closing tail text (inr s) = sym (read_whole-settle closing (tail ++ text) s)

  -- Two ways to go on behind the same buffer.
  continue-same :
      (tail : List ℕ) (next next' : List ℕ → S → Ended S) (o : Ended S ⊎ S)
      → ((s : S) → next tail s ≡ next' tail s)
      → (elim (left_with tail o) as (λ _. Ended S) [
        | inl ended ↦ ended
        | inr (rest, s') ↦ next rest s'
      ])
        ≡ (elim (left_with tail o) as (λ _. Ended S) [
          | inl ended ↦ ended
          | inr (rest, s') ↦ next' rest s'
        ])
  continue-same tail next next' (inl ended) h = refl
  continue-same tail next next' (inr s) h = h s

  pump-read_whole :
      (closing : Closing) (buffer : List ℕ) (chunks : List (List ℕ)) (s : S)
      → frames buffer ≡ ([], buffer)
      → pump on_event closing buffer chunks s ≡ read_whole closing (buffer ++ concat chunks) s
  unfolding pump
  pump-read_whole closing buffer [] s h =
      rw (append_nil buffer)
        (sym (read_whole-settle closing buffer s ∙ rw h (unfold deliver in refl)))
  pump-read_whole closing buffer (chunk ∷ chunks) s h =
      let b = buffer ++ chunk in
      let tail = (frames b).1 in
      let text = concat chunks in
      rw (drain-deliver (length b) b s (omega arith), pump)
        (continue-same tail (λ rest s'. pump on_event closing rest chunks s')
            (λ rest s'. read_whole closing (rest ++ text) s') (deliver (frames b).0 s)
            (λ s'. pump-read_whole closing tail chunks s' (tail-unsplit b))
          ∙ sym (settle-later closing tail text (deliver (frames b).0 s))
          ∙ sym (
              ap (settle closing (frames (tail ++ text)).1)
                (deliver-append (frames b).0 (frames (tail ++ text)).0 s))
          ∙ sym (
              ap (λ (p : List (List ℕ) × List ℕ). settle closing p.1 (deliver p.0 s))
                (frames-append b text))
          ∙ sym (read_whole-settle closing (b ++ text) s)
          ∙ ap (λ t. read_whole closing t s) (append_assoc buffer chunk text))

  -- However a text is cut into chunks, and wherever a cut falls, reading the stream hands the same
  -- data on in the same order, and settles its promise alike, as splitting the whole text would.
  pub consume_sse_stream-whole :
      (closing : Closing) (chunks : List (List ℕ)) (s : S)
      → consume_sse_stream on_event closing chunks s ≡ read_whole closing (concat chunks) s
  unfolding consume_sse_stream
  consume_sse_stream-whole closing chunks s =
      pump-read_whole closing [] chunks s (unfold frames in refl)
