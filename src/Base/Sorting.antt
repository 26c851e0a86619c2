-- ===== src/Base/Sorting.antt =====
-- `xs.sort(cmp)`, which the language defines as stable: insertion of each element, from the last, in
-- front of those that do not come before it.
use mathlib.Core.Path.{◌≡◌}
use mathlib.Core.Logic.{inl, inr}
use mathlib.Core.Bool.{Bool, true, false}
use mathlib.Core.List.{List, [], ◌∷◌}
use script_jail.Base.Tests.{if◌then◌else◌, Bool-cases}
use script_jail.Base.Lists.{All}

module _ {ℓ} {A : Type ℓ} (before : A → A → Bool) where
  unfoldable pub insert_by : A → List A → List A
  insert_by x [] = x ∷ []
  insert_by x (y ∷ ys) = let rest = insert_by x ys in if before y x then y ∷ rest else x ∷ y ∷ ys

  unfoldable pub sort_by : List A → List A
  unfolding insert_by
  sort_by [] = []
  sort_by (x ∷ xs) = insert_by x (sort_by xs)

  -- No later element comes before an earlier one.
  abbrev pub IsSortedBy : List A → Type 0
  IsSortedBy [] = Unit
  IsSortedBy (x ∷ xs) = All (λ y. before y x ≡ false) xs × IsSortedBy xs

  module _ {κ} (P : A → Type κ) where
    pub All-insert_by : (x : A) (ys : List A) → P x → All P ys → All P (insert_by x ys)
    unfolding insert_by
    All-insert_by x [] px _ = (px, tt)
    All-insert_by x (y ∷ ys) px (py, h) = elim (Bool-cases (before y x)) [
      | inl e ↦ rw e (py, All-insert_by x ys px h)
      | inr e ↦ rw e (px, (py, h))
    ]

    pub All-sort_by : (xs : List A) → All P xs → All P (sort_by xs)
    unfolding sort_by
    All-sort_by [] _ = tt
    All-sort_by (x ∷ xs) (px, h) = All-insert_by x (sort_by xs) px (All-sort_by xs h)

    -- An element of the sorted list stood in the list.
    pub All-of_insert_by : (x : A) (ys : List A) → All P (insert_by x ys) → P x × All P ys
    unfolding insert_by
    All-of_insert_by x [] (px, _) = (px, tt)
    All-of_insert_by x (y ∷ ys) h = elim (Bool-cases (before y x)) [
      | inl e ↦
          let (py, rest) : P y × All P (insert_by x ys) = rw e at h in
          let (px, hs) = All-of_insert_by x ys rest in (px, (py, hs))
      | inr e ↦ let (px, hs) : P x × All P (y ∷ ys) = rw e at h in (px, hs)
    ]

    pub All-of_sort_by : (xs : List A) → All P (sort_by xs) → All P xs
    unfolding sort_by
    All-of_sort_by [] _ = tt
    All-of_sort_by (x ∷ xs) h =
        let (px, rest) = All-of_insert_by x (sort_by xs) h in (px, All-of_sort_by xs rest)

-- A sort by an order in which what is not before is before-or-equal gives a sorted list.
module _ {ℓ} {A : Type ℓ} (before : A → A → Bool)
    (asym : (x y : A) → before x y ≡ true → before y x ≡ false)
    (trans : (x y z : A) → before y x ≡ false → before z y ≡ false → before z x ≡ false) where
  All-not-before :
      (x y : A) (ys : List A)
      → before y x ≡ false
      → All (λ z. before z y ≡ false) ys
      → All (λ z. before z x ≡ false) ys
  All-not-before x y [] h _ = tt
  All-not-before x y (z ∷ ys) h (k, ks) = (trans x y z h k, All-not-before x y ys h ks)

  insert_by-IsSortedBy :
      (x : A) (ys : List A) → IsSortedBy before ys → IsSortedBy before (insert_by before x ys)
  unfolding insert_by
  insert_by-IsSortedBy x [] _ = (tt, tt)
  insert_by-IsSortedBy x (y ∷ ys) (low, rest) = elim (Bool-cases (before y x)) [
    | inl e ↦ rw e (
      All-insert_by before (λ z. before z y ≡ false) x ys (asym y x e) low,
      insert_by-IsSortedBy x ys rest,
    )
    | inr e ↦ rw e ((e, All-not-before x y ys e low), (low, rest))
  ]

  pub sort_by-IsSortedBy : (xs : List A) → IsSortedBy before (sort_by before xs)
  unfolding sort_by
  sort_by-IsSortedBy [] = tt
  sort_by-IsSortedBy (x ∷ xs) = insert_by-IsSortedBy x (sort_by before xs) (sort_by-IsSortedBy xs)
