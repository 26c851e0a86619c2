-- ===== src/Shared/Redact/Fragments.antt =====
-- What the masking of fragments leaves of a text.
use script_jail.Base.{
  ℕ, zero, suc, ◌<◌, ◌≤◌, Bool, true, false, List, [], ◌∷◌, ◌++◌, none, some, Text, length, ◌≡◌,
  refl, sym, ◌∙◌, ap, subst, inl, inr, ◌⊎◌, arith, Bool-cases, Option-cases,
}
use script_jail.Shared.Redact.{
  window, has_gram, LoopPlace, in_span, outside, end_span, pass_unit, mask_from,
}

-- A text of which some spans were replaced; what holds of the runs that were kept and of the spans.
pub data Masked (by : Text) (Kept : Text → Type 0) (Hidden : Text → Type 0)
    : Text → Text → Type 0 where
  kept : {text : Text} → Kept text → Masked by Kept Hidden text text
  span :
      {run hidden after out : Text}
      → Kept run
      → Hidden hidden
      → Masked by Kept Hidden after out
      → Masked by Kept Hidden (run ++ (hidden ++ after)) (run ++ (by ++ out))

pub window-append : (n : ℕ) (a b g : Text) → window n a ≡ some g → window n (a ++ b) ≡ some g
unfolding window
window-append zero a b g h = h
window-append (suc n) [] b g h = cc
window-append (suc n) (c ∷ a) b g h = elim (Option-cases (window n a)) [
  | inl e ↦ let never : none ≡ some g = rw e at h in cc
  | inr (w, e) ↦ let found : some (c ∷ w) ≡ some g = rw e at h in rw (window-append n a b w e) found
]

pub window_total : (n : ℕ) (a : Text) → n ≤ length a → (g : Text) × (window n a ≡ some g)
unfolding window
window_total zero a h = ([], refl)
window_total (suc n) [] h = absurd (omega arith)
window_total (suc n) (c ∷ a) h = let (g, e) = window_total n a (omega arith) in (c ∷ g, rw e refl)

pub window_short : (n : ℕ) (a g : Text) → window n a ≡ some g → n ≤ length a
unfolding window
window_short zero a g h = omega arith
window_short (suc n) [] g h = cc
window_short (suc n) (c ∷ a) g h = elim (Option-cases (window n a)) [
  | inl e ↦ let never : none ≡ some g = rw e at h in cc
  | inr (w, e) ↦ omega (arith, window_short n a w e)
]

-- Of a longer text the front has the same window.
window_front : (n : ℕ) (a b : Text) → n ≤ length a → window n (a ++ b) ≡ window n a
window_front n a b h = let (g, e) = window_total n a h in window-append n a b g e ∙ sym e

module _ (grams : List Text) (n : ℕ) where
  abbrev starts : Text → Bool
  starts s = has_gram grams (window n s)

  -- No gram stands in the text.
  abbrev pub NoGram : Text → Type 0
  NoGram [] = Unit
  NoGram (c ∷ s) = (starts (c ∷ s) ≡ false) × NoGram s

  -- Wherever there is room for a gram, one stands.
  abbrev pub OnlyGrams : Text → Type 0
  OnlyGrams [] = Unit
  OnlyGrams (c ∷ s) = ((length (c ∷ s) < n) ⊎ (starts (c ∷ s) ≡ true)) × OnlyGrams s

  -- A span: at least one gram, and grams throughout.
  abbrev pub IsSpan : Text → Type 0
  IsSpan s = (n ≤ length s) × OnlyGrams s

  starts_front : (a b : Text) → starts (a ++ b) ≡ false → starts a ≡ false
  starts_front a b h = elim (Option-cases (window n a)) [
    | inl e ↦ rw e refl
    | inr (g, e) ↦ rw e (ap (has_gram grams) (sym (window-append n a b g e)) ∙ h)
  ]

  short-OnlyGrams : (s : Text) → length s < n → OnlyGrams s
  short-OnlyGrams [] h = tt
  short-OnlyGrams (c ∷ s) h = (inl h, short-OnlyGrams s (omega arith))

  module _ (by : Text) where
    abbrev IsMasked : Text → Text → Type 0
    IsMasked = Masked by NoGram IsSpan

    Masked-cons :
        (c : ℕ) {text out : Text}
        → starts (c ∷ text) ≡ false
        → IsMasked text out
        → IsMasked (c ∷ text) (c ∷ out)
    Masked-cons c h (Masked.kept k) = Masked.kept (h, k)
    Masked-cons c h (Masked.span {run = run} {hidden = hidden} {after = after} k s m) =
        Masked.span {run = c ∷ run} (starts_front (c ∷ run) (hidden ++ after) h, k) s m

    -- What is skipped, and what is masked behind it.
    data Skipped (text out : Text) (skip : ℕ) : Type 0 where
      skipped :
          (front back : Text)
          → text ≡ front ++ back
          → length front ≡ skip
          → IsMasked back out
          → Skipped text out skip

    data Spanned (text out : Text) : Type 0 where
      spanned :
          (front back : Text)
          → text ≡ front ++ back
          → n ≤ suc (length front)
          → OnlyGrams front
          → IsMasked back out
          → Spanned text out

    mask_cons :
        (place : LoopPlace) (c : ℕ) (text : Text)
        → mask_from grams n by place (c ∷ text) ≡ (
            let (out, next) = pass_unit n by place (starts (c ∷ text)) c in
            out ++ mask_from grams n by next text)
    unfolding mask_from
    mask_cons place c text = refl

    -- What is masked from each place.
    record Laws (text : Text) : Type 0 where
      scan : IsMasked text (mask_from grams n by (outside 0) text)
      skip : (k : ℕ) → k ≤ length text → Skipped text (mask_from grams n by (outside k) text) k
      extend : n ≤ suc (length text) → Spanned text (mask_from grams n by in_span text)

    Skipped-cons :
        (c : ℕ) {text out : Text} {k : ℕ} → Skipped text out k → Skipped (c ∷ text) out (suc k)
    Skipped-cons c (skipped front back e l m) =
        skipped (c ∷ front) back (ap (λ t. c ∷ t) e) (ap suc l) m

    starts_in_front :
        (c : ℕ) (front back text : Text)
        → text ≡ front ++ back
        → n ≤ suc (length front)
        → starts (c ∷ text) ≡ true
        → starts (c ∷ front) ≡ true
    starts_in_front c front back text e l h =
        ap (has_gram grams)
          (sym (window_front n (c ∷ front) back l) ∙ ap (λ t. window n (c ∷ t)) (sym e))
        ∙ h

    Spanned-cons :
        (c : ℕ) {text out : Text}
        → starts (c ∷ text) ≡ true
        → Spanned text out
        → Spanned (c ∷ text) out
    Spanned-cons c {text} h (spanned front back e l g m) =
        spanned (c ∷ front) back (ap (λ t. c ∷ t) e) (omega arith)
          (inr (starts_in_front c front back text e l h), g) m

    -- A span that ends behind its last window.
    end-Spanned :
        (m c : ℕ) (text : Text)
        → m ≡ n
        → 0 < m
        → m ≤ suc (suc (length text))
        → starts (c ∷ text) ≡ false
        → Laws text
        → Spanned
            (c ∷ text)
            (let (out, next) = end_span m c in out ++ mask_from grams n by next text)
    end-Spanned zero c text e pos room h laws = absurd (omega arith)
    end-Spanned (suc zero) c text e pos room h laws =
        spanned [] (c ∷ text) refl (omega (arith, e)) tt (Masked-cons c h laws.scan)
    end-Spanned (suc (suc k)) c text e pos room h laws = elim (laws.skip k (omega arith)) [
      | skipped front back same l m ↦
          spanned (c ∷ front) back (ap (λ t. c ∷ t) same) (omega (arith, e, l))
            (short-OnlyGrams (c ∷ front) (omega (arith, e, l))) m
    ]

    begin-span :
        (c : ℕ) {text out : Text}
        → starts (c ∷ text) ≡ true
        → Spanned text out
        → IsMasked (c ∷ text) (by ++ out)
    begin-span c {text} {out} h (spanned front back e l g m) =
        subst (λ t. IsMasked (c ∷ t) (by ++ out)) (sym e)
          (Masked.span {run = []} {hidden = c ∷ front} tt
            (l, (inr (starts_in_front c front back text e l h), g)) m)

    room_of_start : (c : ℕ) (text : Text) → starts (c ∷ text) ≡ true → n ≤ suc (length text)
    room_of_start c text h = elim (Option-cases (window n (c ∷ text))) [
      | inl e ↦ let never : false ≡ true = rw e at h in cc
      | inr (g, e) ↦ window_short n (c ∷ text) g e
    ]

    scan_cons :
        (c : ℕ) (text : Text)
        → Laws text
        → IsMasked (c ∷ text) (mask_from grams n by (outside 0) (c ∷ text))
    scan_cons c text laws = elim (Bool-cases (starts (c ∷ text))) [
      | inl e ↦
          let put : mask_from grams n by (outside 0) (c ∷ text)
              ≡ by ++ mask_from grams n by in_span text =
            mask_cons (outside 0) c text ∙ (rw e refl) in
          subst (IsMasked (c ∷ text)) (sym put)
            (begin-span c e (laws.extend (room_of_start c text e)))
      | inr e ↦
          let put : mask_from grams n by (outside 0) (c ∷ text)
              ≡ c ∷ mask_from grams n by (outside 0) text =
            mask_cons (outside 0) c text ∙ (rw e refl) in
          subst (IsMasked (c ∷ text)) (sym put) (Masked-cons c e laws.scan)
    ]

    skip_cons :
        (c : ℕ) (text : Text)
        → Laws text
        → (k : ℕ) → k ≤ suc (length text)
        → Skipped (c ∷ text) (mask_from grams n by (outside k) (c ∷ text)) k
    skip_cons c text laws zero h = skipped [] (c ∷ text) refl refl (scan_cons c text laws)
    skip_cons c text laws (suc k) h =
        subst (λ o. Skipped (c ∷ text) o (suc k)) (sym (mask_cons (outside (suc k)) c text))
          (Skipped-cons c (laws.skip k (omega arith)))

    extend_cons :
        0 < n
        → (c : ℕ) (text : Text) → Laws text
        → n ≤ suc (suc (length text))
        → Spanned (c ∷ text) (mask_from grams n by in_span (c ∷ text))
    extend_cons pos c text laws h = elim (Bool-cases (starts (c ∷ text))) [
      | inl e ↦
          let put : mask_from grams n by in_span (c ∷ text) ≡ mask_from grams n by in_span text =
            mask_cons in_span c text ∙ (rw e refl) in
          subst (Spanned (c ∷ text)) (sym put)
            (Spanned-cons c e (laws.extend (room_of_start c text e)))
      | inr e ↦
          let put : mask_from grams n by in_span (c ∷ text)
              ≡ (let (out, next) = end_span n c in out ++ mask_from grams n by next text) =
            mask_cons in_span c text ∙ (rw e refl) in
          subst (Spanned (c ∷ text)) (sym put) (end-Spanned n c text refl pos h e laws)
    ]

    mask-Laws : 0 < n → (text : Text) → Laws text
    mask-Laws pos [] =
        unfold mask_from in
        record {
          scan = Masked.kept tt;
          skip = λ k h. skipped [] [] refl (omega arith) (Masked.kept tt);
          extend = λ h. spanned [] [] refl h tt (Masked.kept tt);
        }
    mask-Laws pos (c ∷ text) =
        let laws = mask-Laws pos text in
        record {
          scan = scan_cons c text laws;
          skip = λ k h. skip_cons c text laws k h;
          extend = λ h. extend_cons pos c text laws h;
        }

    -- The loop keeps runs in which no gram stands and replaces spans of grams.
    pub mask_from-Masked :
        0 < n → (text : Text) → Masked by NoGram IsSpan text (mask_from grams n by (outside 0) text)
    mask_from-Masked pos text = (mask-Laws pos text).scan
