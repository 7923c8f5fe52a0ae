-- ===== src/Protocol/Blank.antt =====
-- Reading the next line that is not blank: when the loop ends, and when it never does.
use madkv.Prelude.{
  ℕ, zero, suc, ◌<◌, ◌≡◌, ◌≢◌, refl, sym, ap, ◌∙◌, true, false, Bool-cases, inl, inr, ◌∷◌, [], ◌++◌,
  arith, none, length, length-append,
}
use madkv.Prelude.Results.{ok, done, spin}
use madkv.Text.{Text, byte_len, is_empty, trim, split_whitespace}
use madkv.Text.Split.{split_whitespace-blank, blank-first}
use madkv.Text.Trim.{is_empty-trim_iff}
use madkv.Io.{Reader, take_line, read_line}
use madkv.Runner.Resp.{read_next_line, skip_blank}

take_line-append : (s : Text) → (take_line s).0 ++ (take_line s).1 ≡ s
unfolding take_line
take_line-append [] = refl
take_line-append (c ∷ s) = ground (arith, take_line-append s)

take_line-ended : (s : Text) → (take_line s).2 ≡ true → 0 < length (take_line s).0
unfolding take_line
take_line-ended [] h = cc
take_line-ended (c ∷ s) h = ground arith

take_line-rest : (s : Text) → (take_line s).2 ≡ false → (take_line s).0 ≡ s
unfolding take_line
take_line-rest [] h = refl
take_line-rest (c ∷ s) h = ground (arith, take_line-rest s)

take_line-unended : (s : Text) → (take_line s).2 ≡ false → (take_line s).1 ≡ []
unfolding take_line
take_line-unended [] h = refl
take_line-unended (c ∷ s) h = ground (arith, take_line-unended s)

-- A reader whose input ends without an error.
abbrev pub input : Text → Reader
input pending = record { pending = pending; fault = none }

read_line-input :
    (pending buffer : Text)
    → read_line (input pending) buffer
      ≡ ok (
        byte_len (take_line pending).0,
        input (take_line pending).1,
        buffer ++ (take_line pending).0,
      )
unfolding read_line
read_line-input pending buffer = ground (arith, take_line-unended pending)

-- One round of the loop: the line read, and the input and the buffer after it.
module _ (pending buffer : Text) (blank : split_whitespace buffer ≡ []) where
  abbrev line : Text
  line = (take_line pending).0

  abbrev rest : Text
  rest = (take_line pending).1

  segments_line : split_whitespace (buffer ++ line) ≡ split_whitespace line
  segments_line = split_whitespace-blank buffer line blank

  segments_rest : split_whitespace line ≡ [] → split_whitespace rest ≡ split_whitespace pending
  segments_rest h =
      sym (split_whitespace-blank line rest h) ∙ ap split_whitespace (take_line-append pending)

  round_blank :
      (fuel : ℕ)
      → split_whitespace line ≡ []
      → skip_blank (suc fuel) (input pending) buffer ≡ skip_blank fuel (input rest) (buffer ++ line)
  unfolding skip_blank
  round_blank fuel h = ground (
    arith,
    read_line-input pending buffer,
    (is_empty-trim_iff (buffer ++ line)).1 (segments_line ∙ h),
  )

  round_segment :
      (fuel : ℕ)
      → split_whitespace line ≢ []
      → skip_blank (suc fuel) (input pending) buffer
        ≡ done (byte_len line, input rest, buffer ++ line)
  unfolding skip_blank
  round_segment fuel h = elim (Bool-cases (is_empty (trim (buffer ++ line)))) [
    | inl e ↦ absurd (h (sym segments_line ∙ (is_empty-trim_iff (buffer ++ line)).0 e))
    | inr e ↦ ground (arith, read_line-input pending buffer)
  ]

  line_blank : split_whitespace pending ≡ [] → split_whitespace line ≡ []
  line_blank h = blank-first line rest (ap split_whitespace (take_line-append pending) ∙ h)

  rest_shorter :
      split_whitespace line ≡ [] → split_whitespace pending ≢ [] → length rest < length pending
  rest_shorter h k = elim (Bool-cases (take_line pending).2) [
    | inl e ↦ omega (
      arith,
      take_line-ended pending e,
      length-append line rest,
      ap (λ (t : Text). length t) (take_line-append pending),
    )
    | inr e ↦ absurd (k (sym (ap split_whitespace (take_line-rest pending e)) ∙ h))
  ]

  buffer_blank : split_whitespace line ≡ [] → split_whitespace (buffer ++ line) ≡ []
  buffer_blank h = segments_line ∙ h

hangs :
    (fuel : ℕ) (pending buffer : Text)
    → split_whitespace pending ≡ []
    → split_whitespace buffer ≡ []
    → skip_blank fuel (input pending) buffer ≡ spin
hangs zero pending buffer h k = unfold skip_blank in refl
hangs (suc fuel) pending buffer h k =
    let l = line_blank pending buffer k h in
    round_blank pending buffer k fuel l
    ∙ hangs fuel (rest pending buffer k) (buffer ++ line pending buffer k)
        (segments_rest pending buffer k l ∙ h) (buffer_blank pending buffer k l)

-- If nothing but blank text is left before the end of the input, `read_next_line` is still in its
-- loop after any number of rounds: it never returns.
pub read_next_line-hangs :
    (fuel : ℕ) (pending buffer : Text)
    → split_whitespace pending ≡ []
    → read_next_line fuel (input pending) buffer ≡ spin
unfolding read_next_line
read_next_line-hangs fuel pending buffer h =
    hangs fuel pending [] h (unfold split_whitespace in refl)

-- What the loop returns: a text with a segment, and the input after it.
abbrev Returned : ℕ → Text → Text → Type 0
Returned fuel pending buffer =
    (size : ℕ) × (after text : Text) × (skip_blank fuel (input pending) buffer
      ≡ done (size, input after, text))
    × (split_whitespace text ≢ [])

Returned-later :
    (fuel : ℕ) (pending buffer : Text) (p b : Text)
    → skip_blank (suc fuel) (input pending) buffer ≡ skip_blank fuel (input p) b
    → Returned fuel p b
    → Returned (suc fuel) pending buffer
Returned-later fuel pending buffer p b e (size, after, text, r, s) = (size, after, text, e ∙ r, s)

halts :
    (fuel : ℕ) (pending buffer : Text)
    → length pending < fuel
    → split_whitespace pending ≢ []
    → split_whitespace buffer ≡ []
    → Returned fuel pending buffer
halts zero pending buffer f h k = absurd (omega arith)
halts (suc fuel) pending buffer f h k =
    elim (Bool-cases (is_empty (trim (line pending buffer k)))) [
      | inl e ↦
          let l = (is_empty-trim_iff (line pending buffer k)).0 e in
          Returned-later fuel pending buffer _ _ (round_blank pending buffer k fuel l) (
            halts fuel (rest pending buffer k) (buffer ++ line pending buffer k)
              (omega (arith, rest_shorter pending buffer k l h))
              (λ n. h (sym (segments_rest pending buffer k l) ∙ n))
              (buffer_blank pending buffer k l))
      | inr e ↦
          let l : split_whitespace (line pending buffer k) ≢ [] =
            λ n. ground (arith, (is_empty-trim_iff (line pending buffer k)).1 n) in
          (
            byte_len (line pending buffer k),
            rest pending buffer k,
            buffer ++ line pending buffer k,
            round_segment pending buffer k fuel l,
            λ n. l (sym (segments_line pending buffer k) ∙ n),
          )
    ]

-- If there is a segment before the end of the input, `read_next_line` returns a text with a
-- segment, if it has a round for each character that is left and one more.
pub read_next_line-halts :
    (fuel : ℕ) (pending buffer : Text)
    → length pending < fuel
    → split_whitespace pending ≢ []
    → (size : ℕ) × (after text : Text) × (read_next_line fuel (input pending) buffer
        ≡ done (size, input after, text))
      × (split_whitespace text ≢ [])
unfolding read_next_line
read_next_line-halts fuel pending buffer f h =
    halts fuel pending [] f h (unfold split_whitespace in refl)
