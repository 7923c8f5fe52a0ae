-- ===== src/Text/Trim.antt =====
-- `trim` changes no segment, so a text is blank after `trim` exactly when it has no segment.
use madkv.Prelude.{
  ◌≡◌, refl, true, false, ◌∷◌, [], arith, List, Bool-cases, inl, inr, ◌↔◌, sym, ◌∙◌, if◌then◌else◌,
}
use madkv.Text.{
  Text, is_whitespace, is_empty, push_segment, segments, split_whitespace, trim, trim_start,
  trim_end,
}
use madkv.Text.Split.{split_whitespace-space}

split_whitespace-trim_start : (s : Text) → split_whitespace (trim_start s) ≡ split_whitespace s
unfolding trim_start
split_whitespace-trim_start [] = refl
split_whitespace-trim_start (c ∷ s) =
    ground (arith, split_whitespace-trim_start s, split_whitespace-space s c)

segments-trim_end : (s : Text) → segments (trim_end s) ≡ segments s
unfolding trim_end segments is_empty push_segment
segments-trim_end [] = refl
segments-trim_end (c ∷ s) = ground (arith, segments-trim_end s)

split_whitespace-trim_end : (s : Text) → split_whitespace (trim_end s) ≡ split_whitespace s
unfolding split_whitespace
split_whitespace-trim_end s = rw segments-trim_end

pub split_whitespace-trim : (s : Text) → split_whitespace (trim s) ≡ split_whitespace s
unfolding trim
split_whitespace-trim s = split_whitespace-trim_end (trim_start s) ∙ split_whitespace-trim_start s

-- A trimmed text with no segment is empty.
empty_of_no_segment : (s : Text) → split_whitespace (trim s) ≡ [] → is_empty (trim s) ≡ true
unfolding trim trim_start trim_end is_empty
empty_of_no_segment [] h = refl
empty_of_no_segment (c ∷ s) h = elim (Bool-cases (is_whitespace c)) [
  | inl e ↦ rw (e, if◌then◌else◌) (empty_of_no_segment s (rw (e, if◌then◌else◌) at h))
  | inr e ↦ unfold split_whitespace segments push_segment in ground arith
]

no_segment_of_empty : (s : Text) → is_empty s ≡ true → split_whitespace s ≡ []
unfolding is_empty split_whitespace
no_segment_of_empty [] h = refl
no_segment_of_empty (c ∷ s) h = cc

-- Blank: nothing is left by `trim`.
pub is_empty-trim_iff : (s : Text) → (is_empty (trim s) ≡ true) ↔ (split_whitespace s ≡ [])
is_empty-trim_iff s = (
  λ h. sym (split_whitespace-trim s) ∙ no_segment_of_empty (trim s) h,
  λ h. empty_of_no_segment s (split_whitespace-trim s ∙ h),
)

-- A text with a segment is not blank.
pub not_blank_of_segment :
    (s w : Text) (ws : List Text) → split_whitespace s ≡ w ∷ ws → is_empty (trim s) ≡ false
not_blank_of_segment s w ws h = elim (Bool-cases (is_empty (trim s))) [
  | inl e ↦ absurd (cons_not_nil (sym h ∙ (is_empty-trim_iff s).0 e))
  | inr e ↦ e
]
  where
    cons_not_nil : w ∷ ws ≡ [] → ⊥
    cons_not_nil e = cc
