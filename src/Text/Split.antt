-- ===== src/Text/Split.antt =====
-- What `split_whitespace` and `trim` yield on texts built from words.
use madkv.Prelude.{
  if◌then◌else◌, ℕ, ◌≡◌, refl, true, ◌∷◌, [], ◌++◌, arith, List, ap, All, Bool-cases, inl, inr, sym,
  ◌∙◌,
}
use madkv.Text.{
  Text, is_whitespace, is_empty, no_space, is_word, push_segment, segments, split_whitespace,
}

segments-word :
    (w s : Text) (c : ℕ)
    → no_space w ≡ true
    → is_whitespace c ≡ true
    → segments (w ++ (c ∷ s)) ≡ (w, split_whitespace s)
unfolding segments split_whitespace no_space
segments-word [] s c h k = ground arith
segments-word (b ∷ w) s c h k = ground (arith, segments-word w s c)

-- A word before a space is the first segment.
pub split_whitespace-word :
    (w s : Text) (c : ℕ)
    → is_word w ≡ true
    → is_whitespace c ≡ true
    → split_whitespace (w ++ (c ∷ s)) ≡ w ∷ split_whitespace s
unfolding split_whitespace is_word
split_whitespace-word [] s c h k = cc
split_whitespace-word (b ∷ w) s c h k = ground (arith, segments-word (b ∷ w) s c)

-- A space in front changes nothing.
pub split_whitespace-space :
    (s : Text) (c : ℕ) → is_whitespace c ≡ true → split_whitespace (c ∷ s) ≡ split_whitespace s
unfolding split_whitespace
split_whitespace-space s c h = ground arith

-- Words separated by one space each, and the newline.
unfoldable pub line_of : Text → List Text → Text
line_of w [] = w ++ (10 ∷ [])
line_of w (v ∷ vs) = w ++ (32 ∷ line_of v vs)

pub space : is_whitespace 32 ≡ true
unfolding is_whitespace
space = refl

pub newline : is_whitespace 10 ≡ true
unfolding is_whitespace
newline = refl

pub split_whitespace-line_of :
    (w : Text) (ws : List Text)
    → is_word w ≡ true
    → All (λ v. is_word v ≡ true) ws
    → split_whitespace (line_of w ws) ≡ w ∷ ws
unfolding line_of
split_whitespace-line_of w [] h k =
    rw (split_whitespace-word w [] 10 h newline) (unfold split_whitespace in refl)
split_whitespace-line_of w (v ∷ vs) h k =
    rw (split_whitespace-word w (line_of v vs) 32 h space)
      (ap (◌∷◌ w) (split_whitespace-line_of v vs k.0 k.1))

-- The first character of a blank text is whitespace, and the rest is blank.
pub blank-cons :
    (c : ℕ) (s : Text)
    → split_whitespace (c ∷ s) ≡ []
    → (is_whitespace c ≡ true) × (split_whitespace s ≡ [])
blank-cons c s h = elim (Bool-cases (is_whitespace c)) [
  | inl e ↦ (e, sym (split_whitespace-space s c e) ∙ h)
  | inr e ↦ absurd (unfold split_whitespace segments push_segment in ground arith)
]

pub split_whitespace-blank :
    (a b : Text) → split_whitespace a ≡ [] → split_whitespace (a ++ b) ≡ split_whitespace b
split_whitespace-blank [] b h = refl
split_whitespace-blank (c ∷ a) b h =
    let k = blank-cons c a h in
    split_whitespace-space (a ++ b) c k.0 ∙ split_whitespace-blank a b k.1

pub blank-first : (a b : Text) → split_whitespace (a ++ b) ≡ [] → split_whitespace a ≡ []
blank-first [] b h = unfold split_whitespace in refl
blank-first (c ∷ a) b h =
    let k = blank-cons c (a ++ b) h in split_whitespace-space a c k.0 ∙ blank-first a b k.1

push_segment-All :
    (w : Text) (ws : List Text)
    → no_space w ≡ true
    → All (λ s. is_word s ≡ true) ws
    → All (λ s. is_word s ≡ true) (push_segment w ws)
unfolding push_segment is_word is_empty
push_segment-All [] ws h k = k
push_segment-All (c ∷ w) ws h k = (ground arith, k)

segments-All :
    (s : Text) → (no_space (segments s).0 ≡ true) × All (λ w. is_word w ≡ true) (segments s).1
unfolding segments no_space
segments-All [] = (refl, tt)
segments-All (c ∷ s) =
    let (h, k) = segments-All s in
    elim (Bool-cases (is_whitespace c)) [
      | inl e ↦ rw (e, if◌then◌else◌) (refl, push_segment-All (segments s).0 (segments s).1 h k)
      | inr e ↦ rw (e, if◌then◌else◌) (ground (arith, h), k)
    ]

-- Every segment is a word.
pub split_whitespace-All : (s : Text) → All (λ w. is_word w ≡ true) (split_whitespace s)
unfolding split_whitespace
split_whitespace-All s =
    push_segment-All (segments s).0 (segments s).1 (segments-All s).0 (segments-All s).1
