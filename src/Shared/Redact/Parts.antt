-- ===== src/Shared/Redact/Parts.antt =====
-- Which texts the matcher of declared values holds.
use script_jail.Base.{
  ℕ, zero, suc, ◌<◌, ◌≤◌, true, false, List, [], ◌∷◌, ◌++◌, none, some, Text, text_eq, text_eq_self,
  eq_of_text_eq, contains, length, dedupe, contains-dedupe, ◌≡◌, refl, sym, ◌∙◌, ap, subst, inl,
  inr, ◌⊎◌, arith, Bool-cases, Option-cases, or-eq-true,
}
use script_jail.Shared.Redact.{
  window, Grams, add_gram, add_windows, add_values, fragment_max_grams, is_too_long,
  build_fragment_matcher,
}
use script_jail.Shared.Redact.Fragments.{OnlyGrams, IsSpan, window_short}
use script_jail.Shared.Redact.Grams.{
  add_window-inv, add_windows_nil, add_windows_cons, add_values-inv,
}

-- A window is the front of the text.
window_sound :
    (n : ℕ) (s g : Text) → window n s ≡ some g → (r : Text) × (s ≡ g ++ r) × (length g ≡ n)
unfolding window
window_sound zero s [] h = (s, refl, refl)
window_sound zero s (c ∷ g) h = cc
window_sound (suc n) [] g h = cc
window_sound (suc n) (c ∷ s) g h = elim (Option-cases (window n s)) [
  | inl e ↦ let never : none ≡ some g = rw e at h in cc
  | inr (w, e) ↦
      let found : some (c ∷ w) ≡ some g = rw e at h in
      let (r, split, l) = window_sound n s w e in
      subst (λ t. (r : Text) × (c ∷ s ≡ t ++ r) × (length t ≡ suc n)) (unwrap (c ∷ w) g found)
        (r, ap (◌∷◌ c) split, ap suc l)
]
  where
    unwrap : (a b : Text) → some a ≡ some b → a ≡ b
    unwrap a b e = cc

-- A part, of some length, of a longer one of the values.
pub data IsPart (values : List Text) (n : ℕ) (g : Text) : Type 0 where
  part :
      (a b : Text)
      → contains values (a ++ (g ++ b)) ≡ true
      → n < length (a ++ (g ++ b))
      → length g ≡ n
      → IsPart values n g

-- Wherever a text has room for a part of a value, one stands.
abbrev pub OnlyParts : List Text → ℕ → Text → Type 0
OnlyParts values n [] = Unit
OnlyParts values n (c ∷ s) =
    ((length (c ∷ s) < n) ⊎ ((g r : Text) × (c ∷ s ≡ g ++ r) × IsPart values n g))
    × OnlyParts values n s

-- At least one part of a value, and parts of values throughout.
abbrev pub IsValueSpan : List Text → ℕ → Text → Type 0
IsValueSpan values n s = (n ≤ length s) × OnlyParts values n s

contains-add_gram-inv :
    (g t : Text) (grams : List Text)
    → contains (add_gram g grams) t ≡ true
    → (g ≡ t) ⊎ (contains grams t ≡ true)
unfolding contains
contains-add_gram-inv g t grams h = elim (Bool-cases (contains grams g)) [
  | inl e ↦ inr (rw e at h)
  | inr e ↦
      let split : contains (g ∷ grams) t ≡ true = rw e at h in
      elim (or-eq-true (text_eq g t) (contains grams t) split) [
        | inl same ↦ inl (eq_of_text_eq g t same)
        | inr m ↦ inr m
      ]
]

module _ (P : Text → Type 0) (limit n : ℕ) (pos : 0 < n) where
  abbrev Holds : List Text → Type 0
  Holds grams = (t : Text) → contains grams t ≡ true → P t

  Holds-add_gram : (g : Text) (grams : List Text) → P g → Holds grams → Holds (add_gram g grams)
  Holds-add_gram g grams p h t m = elim (contains-add_gram-inv g t grams m) [
    | inl same ↦ subst P same p
    | inr m' ↦ h t m'
  ]

  -- What holds of the parts of a value holds of its grams.
  Holds-add_windows :
      (s : Text) (grams out : List Text)
      → ((a g b : Text) → s ≡ a ++ (g ++ b) → length g ≡ n → P g)
      → Holds grams
      → add_windows limit n s grams ≡ (out, false)
      → Holds out
  Holds-add_windows [] grams out parts h e =
      elim (add_window-inv limit (window n []) grams out _
        (sym (add_windows_nil limit n pos grams) ∙ e)) [
          | inl (_, same) ↦ subst Holds same h
          | inr (w, there, last) ↦ absurd (omega (arith, pos, window_short n [] w there))
        ]
  Holds-add_windows (c ∷ s) grams out parts h e =
      elim (add_window-inv limit (window n (c ∷ s)) grams out _
        (sym (add_windows_cons limit n pos c s grams) ∙ e)) [
          | inl (_, same) ↦ subst Holds same h
          | inr (w, there, later) ↦
              let (r, split, l) = window_sound n (c ∷ s) w there in
              Holds-add_windows s (add_gram w grams) out
                (λ a g b e' l'. parts (c ∷ a) g b (ap (◌∷◌ c) e') l')
                (Holds-add_gram w grams (parts [] w r split l) h) later
        ]

  Holds-add_values :
      (values : List Text) (grams out : List Text)
      → ((a g b : Text)
          → contains values (a ++ (g ++ b)) ≡ true
          → n < length (a ++ (g ++ b))
          → length g ≡ n
          → P g)
      → Holds grams
      → add_values limit n values grams ≡ (out, false)
      → Holds out
  unfolding contains
  Holds-add_values [] grams out parts h e =
      let same : grams ≡ out = unfold add_values in ap (λ (p : Grams). p.0) e in subst Holds same h
  Holds-add_values (v ∷ values) grams out parts h e =
      let later_parts : (a g b : Text)
          → contains values (a ++ (g ++ b)) ≡ true
          → n < length (a ++ (g ++ b))
          → length g ≡ n
          → P g =
        λ a g b m. parts a g b (ground arith) in
      elim (add_values-inv limit n pos v values grams out e) [
        | inl (short, rest) ↦ Holds-add_values values grams out later_parts h rest
        | inr (mid, long, first, rest) ↦
            let first_parts : (a g b : Text) → v ≡ a ++ (g ++ b) → length g ≡ n → P g =
              λ a g b split l.
                parts a g b (rw (← split, text_eq_self v) refl)
                  (subst (λ t. n < length t) split long) l in
            Holds-add_values values mid out later_parts
              (Holds-add_windows v grams mid first_parts h first) rest
      ]

nothing_there : (t : Text) → contains [] t ≡ true → ⊥
unfolding contains
nothing_there t there = cc

-- Where the values were indexed in full, a gram of the matcher is a part of a longer value.
grams-IsPart :
    (values : List Text) (n : ℕ) (g : Text)
    → 0 < n
    → (build_fragment_matcher values n).capped ≡ false
    → contains (build_fragment_matcher values n).grams g ≡ true
    → IsPart values n g
unfolding build_fragment_matcher
grams-IsPart values n g pos h m = elim (Bool-cases (is_too_long 0 (dedupe values))) [
  | inl e ↦ let wrong : true ≡ false = rw e at h in cc
  | inr e ↦
      let whole : (add_values fragment_max_grams n (dedupe values) []).1 ≡ false = rw e at h in
      let listed : contains (add_values fragment_max_grams n (dedupe values) []).0 g ≡ true =
        rw e at m in
      Holds-add_values (IsPart values n) fragment_max_grams n pos (dedupe values) []
        (add_values fragment_max_grams n (dedupe values) []).0
        (λ a g' b there. part a b (sym (contains-dedupe values (a ++ (g' ++ b))) ∙ there))
        (λ t there. absurd (nothing_there t there))
        (λ i. ((add_values fragment_max_grams n (dedupe values) []).0, whole i)) g listed
]

-- A span of grams is a span of parts of values.
pub IsSpan-IsValueSpan :
    (values : List Text) (n : ℕ) (s : Text)
    → 0 < n
    → (build_fragment_matcher values n).capped ≡ false
    → IsSpan (build_fragment_matcher values n).grams n s
    → IsValueSpan values n s
IsSpan-IsValueSpan values n s pos h (long, only) = (long, parts s only)
  where
    parts :
        (s : Text) → OnlyGrams (build_fragment_matcher values n).grams n s → OnlyParts values n s
    parts [] _ = tt
    parts (c ∷ s) (inl short, later) = (inl short, parts s later)
    parts (c ∷ s) (inr there, later) = (
      elim (Option-cases (window n (c ∷ s))) [
        | inl e ↦ let never : false ≡ true = rw e at there in cc
        | inr (g, e) ↦
            let listed : contains (build_fragment_matcher values n).grams g ≡ true =
              rw e at there in
            let (r, split, _) = window_sound n (c ∷ s) g e in
            inr (g, r, split, grams-IsPart values n g pos h listed)
      ],
      parts s later,
    )
