-- ===== src/Providers/Frames.antt =====
-- The frames of a whole text, which `consumeSseStream` is compared with:
-- packages/kogg-providers/src/node/sse.ts.
use kogg.Prelude.{
  ℕ, ◌<◌, true, false, ◌&&◌, Option, none, some, List, [], ◌∷◌, ◌++◌, ◌==◌, ℕ-Eq, length,
  if◌then◌else◌, ◌≡◌, refl, sym, ap, ◌∙◌, arith, Bool-cases, inl, inr,
}
use kogg.Providers.Sse.{further, newline, split_frame}

-- A character in front of the first frame, or of what no separator ends.
abbrev pub cons_frame : ℕ → List (List ℕ) × List ℕ → List (List ℕ) × List ℕ
cons_frame c ([], tail) = ([], c ∷ tail)
cons_frame c (frame ∷ frames, tail) = ((c ∷ frame) ∷ frames, tail)

-- The frames that blank lines end, from left to right, and what is left behind the last of them.
unfoldable pub frames : List ℕ → List (List ℕ) × List ℕ
frames [] = ([], [])
frames (c ∷ []) = ([], c ∷ [])
frames (c ∷ d ∷ cs) =
    let behind = frames cs in
    let later = frames (d ∷ cs) in
    if c == newline && d == newline then ([] ∷ behind.0, behind.1) else cons_frame c later

abbrev pub Splits : List ℕ → Option (List ℕ × List ℕ) → Type 0
Splits b none = frames b ≡ ([], b)
Splits b (some (frame, rest)) =
    (frames b ≡ (frame ∷ (frames rest).0, (frames rest).1)) × (length rest < length b)

split_frame-sep :
    (c d : ℕ) (cs : List ℕ)
    → (c == newline && d == newline) ≡ true
    → split_frame (c ∷ d ∷ cs) ≡ some ([], cs)
unfolding split_frame
split_frame-sep c d cs e = rw e refl

split_frame-further :
    (c d : ℕ) (cs : List ℕ)
    → (c == newline && d == newline) ≡ false
    → split_frame (c ∷ d ∷ cs) ≡ further c (split_frame (d ∷ cs))
unfolding split_frame
split_frame-further c d cs e = rw e refl

frames-sep :
    (c d : ℕ) (cs : List ℕ)
    → (c == newline && d == newline) ≡ true
    → frames (c ∷ d ∷ cs) ≡ ([] ∷ (frames cs).0, (frames cs).1)
unfolding frames
frames-sep c d cs e = rw e refl

frames-further :
    (c d : ℕ) (cs : List ℕ)
    → (c == newline && d == newline) ≡ false
    → frames (c ∷ d ∷ cs) ≡ cons_frame c (frames (d ∷ cs))
unfolding frames
frames-further c d cs e = rw e refl

Splits-further :
    (c d : ℕ) (cs : List ℕ) (o : Option (List ℕ × List ℕ))
    → (c == newline && d == newline) ≡ false
    → Splits (d ∷ cs) o
    → Splits (c ∷ d ∷ cs) (further c o)
Splits-further c d cs none e h = frames-further c d cs e ∙ ap (cons_frame c) h
Splits-further c d cs (some (frame, rest)) e h =
    (frames-further c d cs e ∙ ap (cons_frame c) h.0, omega (arith, h.1))

frames_short : frames [] ≡ ([], [])
unfolding frames
frames_short = refl

frames_one : (c : ℕ) → frames (c ∷ []) ≡ ([], c ∷ [])
unfolding frames
frames_one c = refl

-- The search for the first separator finds the first frame.
pub split_frame-Splits : (b : List ℕ) → Splits b (split_frame b)
split_frame-Splits [] = unfold split_frame in frames_short
split_frame-Splits (c ∷ []) = unfold split_frame in frames_one c
split_frame-Splits (c ∷ d ∷ cs) = elim (Bool-cases (c == newline && d == newline)) [
  | inl e ↦ rw (split_frame-sep c d cs e) (frames-sep c d cs e, omega arith)
  | inr e ↦
      rw (split_frame-further c d cs e)
        (Splits-further c d cs (split_frame (d ∷ cs)) e (split_frame-Splits (d ∷ cs)))
]

cons_frame-whole :
    (c : ℕ) (p : List (List ℕ) × List ℕ) (b : List ℕ)
    → (p.0 ≡ [] → p.1 ≡ b)
    → (cons_frame c p).0 ≡ []
    → (cons_frame c p).1 ≡ c ∷ b
cons_frame-whole c ([], t) b k h = ap (λ l. c ∷ l) (k refl)
cons_frame-whole c (f ∷ fs, t) b k h = cc

-- Where there is no frame, all of the text is left.
whole_tail : (b : List ℕ) → (frames b).0 ≡ [] → (frames b).1 ≡ b
whole_tail [] h = unfold frames in refl
whole_tail (c ∷ []) h = unfold frames in refl
whole_tail (c ∷ d ∷ cs) h = elim (Bool-cases (c == newline && d == newline)) [
  | inl e ↦ let h' : ([] ∷ (frames cs).0) ≡ [] = rw (frames-sep c d cs e) at h in absurd (cc)
  | inr e ↦
      let h' : (cons_frame c (frames (d ∷ cs))).0 ≡ [] = rw (frames-further c d cs e) at h in
      rw (frames-further c d cs e)
        (cons_frame-whole c (frames (d ∷ cs)) (d ∷ cs) (λ k. whole_tail (d ∷ cs) k) h')
]

cons_frame-unsplit :
    (c d : ℕ) (cs : List ℕ) (p : List (List ℕ) × List ℕ)
    → (c == newline && d == newline) ≡ false
    → (p.0 ≡ [] → p.1 ≡ d ∷ cs)
    → frames p.1 ≡ ([], p.1)
    → frames (cons_frame c p).1 ≡ ([], (cons_frame c p).1)
cons_frame-unsplit c d cs ([], t) e whole h =
    let same : t ≡ d ∷ cs = whole refl in
    let h' : frames (d ∷ cs) ≡ ([], d ∷ cs) = rw same at h in
    rw same (frames-further c d cs e ∙ ap (cons_frame c) h')
cons_frame-unsplit c d cs (f ∷ fs, t) e whole h = h

-- What no separator ends is not split.
pub tail-unsplit : (b : List ℕ) → frames (frames b).1 ≡ ([], (frames b).1)
tail-unsplit [] = unfold frames in refl
tail-unsplit (c ∷ []) = unfold frames in refl
tail-unsplit (c ∷ d ∷ cs) = elim (Bool-cases (c == newline && d == newline)) [
  | inl e ↦ rw (frames-sep c d cs e) (tail-unsplit cs)
  | inr e ↦
      rw (frames-further c d cs e) (
        cons_frame-unsplit c d cs (frames (d ∷ cs)) e (whole_tail (d ∷ cs)) (tail-unsplit (d ∷ cs)))
]

-- The frames that are there, then those of what is left with more text behind it.
abbrev pub continued : List (List ℕ) × List ℕ → List ℕ → List (List ℕ) × List ℕ
continued p b = (p.0 ++ (frames (p.1 ++ b)).0, (frames (p.1 ++ b)).1)

cons_frame-continued :
    (c d : ℕ) (cs b : List ℕ) (p : List (List ℕ) × List ℕ)
    → (c == newline && d == newline) ≡ false
    → (p.0 ≡ [] → p.1 ≡ d ∷ cs)
    → cons_frame c (continued p b) ≡ continued (cons_frame c p) b
cons_frame-continued c d cs b ([], t) e whole =
    rw (whole refl) (sym (frames-further c d (cs ++ b) e))
cons_frame-continued c d cs b (f ∷ fs, t) e whole = refl

-- A text can be split up to any point, and the rest later.
pub frames-append : (a b : List ℕ) → frames (a ++ b) ≡ continued (frames a) b
frames-append [] b = unfold frames in refl
frames-append (c ∷ []) b = rw (frames_one c) refl
frames-append (c ∷ d ∷ cs) b = elim (Bool-cases (c == newline && d == newline)) [
  | inl e ↦
      rw (frames-sep c d cs e)
        (frames-sep c d (cs ++ b) e ∙ ap (λ p. ([] ∷ p.0, p.1)) (frames-append cs b))
  | inr e ↦ rw (frames-further c d cs e) (
      frames-further c d (cs ++ b) e
      ∙ ap (cons_frame c) (frames-append (d ∷ cs) b)
      ∙ cons_frame-continued c d cs b (frames (d ∷ cs)) e (whole_tail (d ∷ cs)))
]
