-- ===== src/Shared/Redact/Grams.antt =====
-- The matcher of declared values, and the masking by it.
use script_jail.Base.{
  ℕ, zero, suc, ◌+◌, ◌<◌, ◌≤◌, true, false, List, [], ◌∷◌, ◌++◌, Option, none, some, Text, text_eq,
  text_eq_self, eq_of_text_eq, contains, length, dedupe, contains-dedupe, leb, if◌then◌else◌, ◌≡◌,
  refl, sym, ◌∙◌, ap, subst, inl, inr, ◌⊎◌, arith, Bool-cases, length-append, or-eq-true,
}
use script_jail.Shared.Redact.{
  window, Grams, add_gram, over_limit, add_window, add_windows, then_values, add_values,
  fragment_max_grams, is_too_long, build_fragment_matcher,
}
use script_jail.Shared.Redact.Fragments.{window-append, window_short, window_total}

contains-add_gram :
    (g t : Text) (grams : List Text)
    → contains grams t ≡ true
    → contains (add_gram g grams) t ≡ true
unfolding contains
contains-add_gram g t grams h = ground arith

added_gram : (g : Text) (grams : List Text) → contains (add_gram g grams) g ≡ true
unfolding contains
added_gram g grams = elim (Bool-cases (contains grams g)) [
  | inl e ↦ rw e e
  | inr e ↦ rw (e, text_eq_self g) refl
]

pub window_exact : (n : ℕ) (g : Text) → length g ≡ n → window n g ≡ some g
unfolding window
window_exact zero [] h = refl
window_exact zero (c ∷ g) h = absurd (omega (arith, h))
window_exact (suc n) [] h = absurd (omega (arith, h))
window_exact (suc n) (c ∷ g) h = rw (window_exact n g (omega (arith, h))) refl

not_capped : (gs out : List Text) {P : Type 0} → ◌≡◌ {A = Grams} (gs, true) (out, false) → P
not_capped gs out h = let wrong : true ≡ false = ap (λ (p : Grams). p.1) h in cc

-- A gram added, or the end of the value.
pub add_window-inv :
    (limit : ℕ) (o : Option Text) (grams out : List Text) (next : List Text → Grams)
    → add_window limit o grams next ≡ (out, false)
    → ((o ≡ none) × (grams ≡ out))
      ⊎ ((w : Text) × (o ≡ some w) × (next (add_gram w grams) ≡ (out, false)))
add_window-inv limit none grams out next h = inl (refl, ap (λ p. p.0) h)
add_window-inv limit (some w) grams out next h =
    elim (Bool-cases (over_limit limit (add_gram w grams))) [
      | inl e ↦ not_capped (add_gram w grams) out (rw e at h)
      | inr e ↦
          let later : next (add_gram w grams) ≡ (out, false) = rw e at h in inr (w, refl, later)
    ]

module _ (limit n : ℕ) (pos : 0 < n) where
  pub add_windows_nil :
      (grams : List Text)
      → add_windows limit n [] grams ≡ add_window limit (window n []) grams (λ gs. (gs, false))
  unfolding add_windows
  add_windows_nil grams = refl

  pub add_windows_cons :
      (c : ℕ) (s : Text) (grams : List Text)
      → add_windows limit n (c ∷ s) grams
        ≡ add_window limit (window n (c ∷ s)) grams (add_windows limit n s)
  unfolding add_windows
  add_windows_cons c s grams = refl

  add_windows-grows :
      (s : Text) (grams out : List Text) (t : Text)
      → add_windows limit n s grams ≡ (out, false)
      → contains grams t ≡ true
      → contains out t ≡ true
  add_windows-grows [] grams out t h m =
      elim (add_window-inv limit (window n []) grams out _ (sym (add_windows_nil grams) ∙ h)) [
        | inl (e, same) ↦ subst (λ g. contains g t ≡ true) same m
        | inr (w, e, last) ↦ absurd (omega (arith, pos, window_short n [] w e))
      ]
  add_windows-grows (c ∷ s) grams out t h m =
      elim (add_window-inv limit (window n (c ∷ s)) grams out _
        (sym (add_windows_cons c s grams) ∙ h)) [
          | inl (e, same) ↦ subst (λ g. contains g t ≡ true) same m
          | inr (w, e, later) ↦
              add_windows-grows s (add_gram w grams) out t later (contains-add_gram w t grams m)
        ]

  -- Every part of the value that is as long as a gram is a gram.
  add_windows-part :
      (a g b : Text) (s : Text) (grams out : List Text)
      → s ≡ a ++ (g ++ b)
      → length g ≡ n
      → add_windows limit n s grams ≡ (out, false)
      → contains out g ≡ true
  add_windows-part [] [] b s grams out e l h = absurd (omega (arith, pos, l))
  add_windows-part [] (x ∷ g) b [] grams out e l h = cc
  add_windows-part [] (x ∷ g) b (c ∷ s) grams out e l h =
      let found : window n (c ∷ s) ≡ some (x ∷ g) =
        ap (window n) e ∙ window-append n (x ∷ g) b (x ∷ g) (window_exact n (x ∷ g) l) in
      elim (add_window-inv limit (window n (c ∷ s)) grams out _
        (sym (add_windows_cons c s grams) ∙ h)) [
          | inl (none_there, same) ↦ cc
          | inr (w, there, later) ↦
              let same : w ≡ x ∷ g = cc in
              subst (λ t. contains out t ≡ true) same
                (add_windows-grows s (add_gram w grams) out w later (added_gram w grams))
        ]
  add_windows-part (y ∷ a) g b [] grams out e l h = cc
  add_windows-part (y ∷ a) g b (c ∷ s) grams out e l h =
      let tail : s ≡ a ++ (g ++ b) = cc in
      elim (add_window-inv limit (window n (c ∷ s)) grams out _
        (sym (add_windows_cons c s grams) ∙ h)) [
          | inl (none_there, same) ↦ let (w, there) = window_total n (c ∷ s) (room tail) in cc
          | inr (w, there, later) ↦ add_windows-part a g b s (add_gram w grams) out tail l later
        ]
    where
      room : s ≡ a ++ (g ++ b) → n ≤ length (c ∷ s)
      room tail =
          let total : length s ≡ length a + (length g + length b) =
            ap length tail
            ∙ length-append a (g ++ b)
            ∙ ap (λ k. length a + k) (length-append g b) in
          omega (arith, l, total)

  add_values_cons :
      (v : Text) (values grams : List Text)
      → add_values limit n (v ∷ values) grams ≡ (
          if leb (length v) n
          then add_values limit n values grams
          else then_values (add_windows limit n v grams) (add_values limit n values))
  unfolding add_values
  add_values_cons v values grams = refl

  then_values-inv :
      (r : Grams) (out : List Text) (next : List Text → Grams)
      → then_values r next ≡ (out, false)
      → (mid : List Text) × (r ≡ (mid, false)) × (next mid ≡ (out, false))
  then_values-inv (mid, true) out next h = not_capped mid out h
  then_values-inv (mid, false) out next h = (mid, refl, h)

  -- A value is passed over, or its grams are added.
  pub add_values-inv :
      (v : Text) (values grams out : List Text)
      → add_values limit n (v ∷ values) grams ≡ (out, false)
      → ((length v ≤ n) × (add_values limit n values grams ≡ (out, false)))
        ⊎ ((mid : List Text) × (n < length v)
            × (add_windows limit n v grams ≡ (mid, false))
            × (add_values limit n values mid ≡ (out, false)))
  add_values-inv v values grams out h = elim (Bool-cases (leb (length v) n)) [
    | inl e ↦
        let rest : add_values limit n values grams ≡ (out, false) =
          rw (add_values_cons v values grams, e) at h in
        inl (ground arith, rest)
    | inr e ↦
        let rest : then_values (add_windows limit n v grams) (add_values limit n values)
            ≡ (out, false) =
          rw (add_values_cons v values grams, e) at h in
        let (mid, first, later) =
          then_values-inv (add_windows limit n v grams) out (add_values limit n values) rest in
        inr (mid, ground arith, first, later)
  ]

  add_values-grows :
      (values grams out : List Text) (t : Text)
      → add_values limit n values grams ≡ (out, false)
      → contains grams t ≡ true
      → contains out t ≡ true
  add_values-grows [] grams out t h m =
      let same : grams ≡ out = unfold add_values in ap (λ (p : Grams). p.0) h in
      subst (λ g. contains g t ≡ true) same m
  add_values-grows (v ∷ values) grams out t h m = elim (add_values-inv v values grams out h) [
    | inl (short, rest) ↦ add_values-grows values grams out t rest m
    | inr (mid, _, first, rest) ↦
        add_values-grows values mid out t rest (add_windows-grows v grams mid t first m)
  ]

  -- Every part of a longer value that is as long as a gram is a gram, if the loops were not left.
  add_values-part :
      (a g b : Text) (values grams out : List Text)
      → contains values (a ++ (g ++ b)) ≡ true
      → n < length (a ++ (g ++ b))
      → length g ≡ n
      → add_values limit n values grams ≡ (out, false)
      → contains out g ≡ true
  add_values-part a g b [] grams out m long l h =
      let absent : contains [] (a ++ (g ++ b)) ≡ false = unfold contains in refl in cc
  add_values-part a g b (v ∷ values) grams out m long l h =
      elim (add_values-inv v values grams out h) [
        | inl (short, rest) ↦
            elim (or-eq-true (text_eq v (a ++ (g ++ b))) (contains values (a ++ (g ++ b)))
              (unfold contains in m)) [
                | inl e ↦
                    let same : length v ≡ length (a ++ (g ++ b)) =
                      ap length (eq_of_text_eq v (a ++ (g ++ b)) e) in
                    absurd (omega (arith, short, long, same))
                | inr k ↦ add_values-part a g b values grams out k long l rest
              ]
        | inr (mid, _, first, rest) ↦
            elim (or-eq-true (text_eq v (a ++ (g ++ b))) (contains values (a ++ (g ++ b)))
              (unfold contains in m)) [
                | inl e ↦
                    add_values-grows values mid out g rest (
                      add_windows-part a g b v grams mid (eq_of_text_eq v (a ++ (g ++ b)) e) l
                        first)
                | inr k ↦ add_values-part a g b values mid out k long l rest
              ]
      ]

pub build-part :
    (values : List Text) (n : ℕ) (a g b : Text)
    → 0 < n
    → (build_fragment_matcher values n).capped ≡ false
    → contains values (a ++ (g ++ b)) ≡ true
    → n < length (a ++ (g ++ b))
    → length g ≡ n
    → contains (build_fragment_matcher values n).grams g ≡ true
unfolding build_fragment_matcher
build-part values n a g b pos h m long l = elim (Bool-cases (is_too_long 0 (dedupe values))) [
  | inl e ↦ let wrong : true ≡ false = rw e at h in cc
  | inr e ↦
      let whole : (add_values fragment_max_grams n (dedupe values) []).1 ≡ false = rw e at h in
      rw e (
        add_values-part fragment_max_grams n pos a g b (dedupe values) []
          (add_values fragment_max_grams n (dedupe values) []).0
          (contains-dedupe values (a ++ (g ++ b)) ∙ m) long l
          (λ i. ((add_values fragment_max_grams n (dedupe values) []).0, whole i)))
]
