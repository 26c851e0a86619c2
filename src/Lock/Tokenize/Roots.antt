-- ===== src/Lock/Tokenize/Roots.antt =====
-- Roots are stripped of the slashes at their end, and of nothing else.
use mathlib.Core.Option
use script_jail.Base.{
  true, false, [], ◌∷◌, ◌++◌, ℕ, zero, suc, ◌≤◌, Option, none, some, Text, length, take, drop,
  get_elem?, ◌==◌, ==_iff, ◌≡◌, refl, sym, ap, ◌∙◌, arith, Bool-cases, ◌⊎◌, inl, inr, All,
}
use script_jail.Lock.Tokenize.{
  TokenizeRoots, is_unit, strip_end, strip_trailing_slashes, canonicalize_tokenize_roots,
}

abbrev pub Slashes : Text → Type 0
Slashes = All (λ c. c ≡ b'/')

-- The last unit is no slash.
abbrev pub EndsClean : Text → Type 0
EndsClean [] = Unit
EndsClean (c ∷ []) = (c == b'/') ≡ false
EndsClean (c ∷ d ∷ s) = EndsClean (d ∷ s)

drop_at_slash :
    (p : Text) (n : ℕ)
    → is_unit (get_elem? p n) b'/' ≡ true
    → Slashes (drop (suc n) p)
    → Slashes (drop n p)
drop_at_slash [] n h _ = cc
drop_at_slash (c ∷ p) zero h s = ((==_iff c b'/').0 h, s)
drop_at_slash (c ∷ p) (suc n) h s = drop_at_slash p n h s

strip_end-Slashes : (p : Text) (n : ℕ) → Slashes (drop n p) → Slashes (drop (strip_end p n) p)
unfolding strip_end
strip_end-Slashes p zero s = s
strip_end-Slashes p (suc zero) s = s
strip_end-Slashes p (suc (suc n)) s = elim (Bool-cases (is_unit (get_elem? p (suc n)) b'/')) [
  | inl e ↦ rw e (strip_end-Slashes p (suc n) (drop_at_slash p (suc n) e s))
  | inr e ↦ rw e s
]

take-EndsClean :
    (p : Text) (n : ℕ)
    → suc n ≤ length p
    → is_unit (get_elem? p n) b'/' ≡ false
    → EndsClean (take (suc n) p)
take-EndsClean [] n h _ = elim h [ ]
take-EndsClean (c ∷ p) zero h e = e
take-EndsClean (c ∷ []) (suc n) h e = absurd (omega arith)
take-EndsClean (c ∷ d ∷ p) (suc n) h e = take-EndsClean (d ∷ p) n (omega arith) e

strip_end-le : (p : Text) (n : ℕ) → strip_end p n ≤ n
unfolding strip_end
strip_end-le p zero = omega arith
strip_end-le p (suc zero) = omega arith
strip_end-le p (suc (suc n)) = ground (arith, strip_end-le p (suc n))

strip_end-EndsClean :
    (p : Text) (n : ℕ) → n ≤ length p → (strip_end p n ≤ 1) ⊎ EndsClean (take (strip_end p n) p)
unfolding strip_end
strip_end-EndsClean p zero h = inl (omega arith)
strip_end-EndsClean p (suc zero) h = inl (omega arith)
strip_end-EndsClean p (suc (suc n)) h = elim (Bool-cases (is_unit (get_elem? p (suc n)) b'/')) [
  | inl e ↦ rw e (strip_end-EndsClean p (suc n) (omega arith))
  | inr e ↦ rw e (inr (take-EndsClean p (suc n) h e))
]

take_all : (p : Text) → take (length p) p ≡ p
take_all [] = refl
take_all (c ∷ p) = ap (◌∷◌ c) (take_all p)

drop_all : (p : Text) → drop (length p) p ≡ []
drop_all [] = refl
drop_all (c ∷ p) = drop_all p

take-drop : (n : ℕ) (p : Text) → p ≡ take n p ++ drop n p
take-drop zero p = refl
take-drop (suc n) [] = refl
take-drop (suc n) (c ∷ p) = ap (◌∷◌ c) (take-drop n p)

length-take_le : (n : ℕ) (p : Text) → length (take n p) ≤ n
length-take_le zero p = omega arith
length-take_le (suc n) [] = omega arith
length-take_le (suc n) (c ∷ p) = omega (arith, length-take_le n p)

strip_lem : (p : Text) → strip_trailing_slashes p ≡ take (strip_end p (length p)) p
unfolding strip_trailing_slashes
strip_lem p = elim (Bool-cases (strip_end p (length p) == length p)) [
  | inl e ↦ rw e (sym (take_all p) ∙ ap (λ n. take n p) (sym ((==_iff _ (length p)).0 e)))
  | inr e ↦ rw e refl
]

-- A root is what is left of it and slashes; what is left does not end in a slash, unless it is a
-- single unit.
strip_trailing_slashes_lem :
    (p : Text)
    → (slashes : Text) × (p ≡ strip_trailing_slashes p ++ slashes)
      × Slashes slashes
      × ((length (strip_trailing_slashes p) ≤ 1) ⊎ EndsClean (strip_trailing_slashes p))
strip_trailing_slashes_lem p =
    let end = strip_end p (length p) in
    let none_left : Slashes (drop (length p) p) = rw (drop_all p) tt in
    let clean : (length (strip_trailing_slashes p) ≤ 1) ⊎ EndsClean (strip_trailing_slashes p) =
      rw (strip_lem p) (elim (strip_end-EndsClean p (length p) (omega arith)) [
        | inl h ↦ inl (omega (arith, length-take_le end p))
        | inr c ↦ inr c
      ]) in
    (
      drop end p,
      take-drop end p ∙ ap (λ s. s ++ drop end p) (sym (strip_lem p)),
      strip_end-Slashes p (length p) none_left,
      clean,
    )

last_unit :
    (c : ℕ) (p : Text) → EndsClean (c ∷ p) → is_unit (get_elem? (c ∷ p) (length p)) b'/' ≡ false
last_unit c [] e = e
last_unit c (d ∷ p) e = last_unit d p e

strip_end_of_clean : (p : Text) → (length p ≤ 1) ⊎ EndsClean p → strip_end p (length p) ≡ length p
unfolding strip_end
strip_end_of_clean [] h = refl
strip_end_of_clean (c ∷ []) h = refl
strip_end_of_clean (c ∷ d ∷ p) (inl h) = absurd (omega arith)
strip_end_of_clean (c ∷ d ∷ p) (inr h) = rw (last_unit c (d ∷ p) h) refl

strip_idem :
    (p : Text) → strip_trailing_slashes (strip_trailing_slashes p) ≡ strip_trailing_slashes p
strip_idem p =
    let q = strip_trailing_slashes p in
    let (_, _, _, clean) = strip_trailing_slashes_lem p in
    strip_lem q ∙ ap (λ n. take n q) (strip_end_of_clean q clean) ∙ take_all q

legacy_idem :
    (o : Option Text)
    → Option.map strip_trailing_slashes (Option.map strip_trailing_slashes o)
      ≡ Option.map strip_trailing_slashes o
legacy_idem none = refl
legacy_idem (some p) = ap some (strip_idem p)

-- Roots that are canonical already stay as they are: the matcher of protected paths and the
-- normalisation, which both canonicalise, work with the same roots.
pub canonicalize_tokenize_roots_idem :
    (roots : TokenizeRoots)
    → canonicalize_tokenize_roots (canonicalize_tokenize_roots roots)
      ≡ canonicalize_tokenize_roots roots
unfolding canonicalize_tokenize_roots
canonicalize_tokenize_roots_idem roots = λ i. record {
  repo = strip_idem roots.repo i;
  node_modules = strip_idem roots.node_modules i;
  home = strip_idem roots.home i;
  tmp = strip_idem roots.tmp i;
  tmp_legacy = legacy_idem roots.tmp_legacy i;
  cache = strip_idem roots.cache i;
}
