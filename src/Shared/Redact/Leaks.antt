-- ===== src/Shared/Redact/Leaks.antt =====
-- What the masking of fragments hides and what it leaves.
use script_jail.Base.{
  ℕ, ◌<◌, true, false, List, [], ◌∷◌, ◌++◌, some, Text, contains, length, starts_with, includes,
  ltb, ◌≡◌, refl, sym, ◌∙◌, ap, inl, inr, arith, Bool-cases, Option-cases, starts_with_sound,
  dedupe,
}
use script_jail.Shared.Redact.{
  window, has_gram, replacement, mask_grams, mask_value_fragments_with, build_fragment_matcher,
  is_too_long, mask_value_fragments,
}
use script_jail.Shared.Redact.Fragments.{
  Masked, NoGram, IsSpan, window-append, window_short, mask_from-Masked,
}
use script_jail.Shared.Redact.Parts.{IsValueSpan, IsSpan-IsValueSpan}
use script_jail.Shared.Redact.Grams.{window_exact, build-part}

Masked-imp :
    (by : Text) (Kept Kept' Hidden Hidden' : Text → Type 0) {text out : Text}
    → ((s : Text) → Kept s → Kept' s)
    → ((s : Text) → Hidden s → Hidden' s)
    → Masked by Kept Hidden text out
    → Masked by Kept' Hidden' text out
Masked-imp by Kept Kept' Hidden Hidden' f g (Masked.kept {text} k) = Masked.kept (f text k)
Masked-imp by Kept Kept' Hidden Hidden' f g (Masked.span {run = run} {hidden = hidden} k h m) =
    Masked.span (f run k) (g hidden h) (Masked-imp by Kept Kept' Hidden Hidden' f g m)

module _ (grams : List Text) (n : ℕ) where
  short-NoGram : (s : Text) → length s < n → NoGram grams n s
  short-NoGram [] h = tt
  short-NoGram (c ∷ s) h = (none_there, short-NoGram s (omega arith))
    where
      none_there : has_gram grams (window n (c ∷ s)) ≡ false
      none_there = elim (Option-cases (window n (c ∷ s))) [
        | inl e ↦ rw e refl
        | inr (g, e) ↦ absurd (omega (arith, h, window_short n (c ∷ s) g e))
      ]

  -- A text without grams does not include any.
  NoGram-includes :
      (s g : Text)
      → 0 < n
      → length g ≡ n
      → contains grams g ≡ true
      → NoGram grams n s
      → includes s g ≡ false
  unfolding includes starts_with
  NoGram-includes [] [] pos l m _ = absurd (omega (arith, pos, l))
  NoGram-includes [] (x ∷ g) pos l m _ = refl
  NoGram-includes (c ∷ s) g pos l m (here, later) = elim (Bool-cases (starts_with (c ∷ s) g)) [
    | inr e ↦ rw e (NoGram-includes s g pos l m later)
    | inl e ↦
        let (r, split) = starts_with_sound (c ∷ s) g e in
        let found : window n (c ∷ s) ≡ some g =
          ap (window n) split ∙ window-append n g r g (window_exact n g l) in
        let there : contains grams g ≡ false = sym (ap (has_gram grams) found) ∙ here in cc
  ]

mask_grams-Masked :
    (grams : List Text) (n : ℕ) (by text g : Text)
    → 0 < n
    → contains grams g ≡ true
    → Masked by (NoGram grams n) (IsSpan grams n) text (mask_grams grams n by text)
mask_grams-Masked [] n by text g pos m =
    let absent : contains [] g ≡ false = unfold contains in refl in cc
mask_grams-Masked (x ∷ grams) n by text g pos m = mask_from-Masked (x ∷ grams) n by pos text

build_min_fragment :
    (values : List Text) (n : ℕ) → (build_fragment_matcher values n).min_fragment ≡ n
unfolding build_fragment_matcher
build_min_fragment values n = elim (Bool-cases (is_too_long 0 (dedupe values))) [
  | inl e ↦ rw e refl
  | inr e ↦ rw e refl
]

-- If the values were indexed in full, the output is the text with spans replaced by the label, and
-- no run that is kept between two spans includes a part, as long as a fragment, of a longer value.
-- A span is at least as long as a fragment, and wherever it has room for one, a part of a longer value
-- stands in it.
pub mask_value_fragments-Masked :
    (text : Text) (values : List Text) (label : Text) (n : ℕ) (a g b : Text)
    → 0 < n
    → (build_fragment_matcher values n).capped ≡ false
    → contains values (a ++ (g ++ b)) ≡ true
    → n < length (a ++ (g ++ b))
    → length g ≡ n
    → Masked
        (replacement label)
        (λ run. includes run g ≡ false)
        (IsValueSpan values n)
        text
        (mask_value_fragments text values label n)
unfolding mask_value_fragments_with
mask_value_fragments-Masked text values label n a g b pos h m long l =
    let grams = (build_fragment_matcher values n).grams in
    let listed = build-part values n a g b pos h m long l in
    Masked-imp (replacement label) (NoGram grams n) (λ run. includes run g ≡ false) (IsSpan grams n)
      (IsValueSpan values n) (λ s k. NoGram-includes grams n s g pos l listed k)
      (λ s k. IsSpan-IsValueSpan values n s pos h k)
      (elim (Bool-cases (ltb (length text) n)) [
        | inl e ↦
            rw (build_min_fragment values n, e)
              (Masked.kept (short-NoGram grams n text (ground arith)))
        | inr e ↦
            rw (build_min_fragment values n, e, h)
              (mask_grams-Masked grams n (replacement label) text g pos listed)
      ])
