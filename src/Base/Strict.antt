-- ===== src/Base/Strict.antt =====
-- `[...new Set(xs)].sort(…)` over texts: duplicates go, and what is left ascends by code units.
-- Ascending lists with the same members are equal, so the result depends on the members alone.
use mathlib.Core.Path.{◌≡◌, refl, ◌∙◌, sym, subst}
use mathlib.Core.Logic.{inl, inr}
use mathlib.Core.Bool.{true, false, not, ◌&&◌, ◌||◌}
use mathlib.Core.List.{List, [], ◌∷◌}
use native.Mathlib.Omega.{arith}
use script_jail.Base.Tests.{if◌then◌else◌, Bool-cases}
use script_jail.Base.Lists.{All}
use script_jail.Base.Texts.{Text, text_eq, text_lt, contains, text_eq_self, text_eq_iff}
use script_jail.Base.Sorting.{insert_by, sort_by}

-- `[...new Set(xs)]`, in the order of first occurrence
dedupe_from : List Text → List Text → List Text
dedupe_from seen [] = []
dedupe_from seen (x ∷ xs) =
    let rest = dedupe_from (if contains seen x then seen else x ∷ seen) xs in
    if contains seen x then rest else x ∷ rest

unfoldable pub dedupe : List Text → List Text
unfolding dedupe_from contains
dedupe xs = dedupe_from [] xs

-- `[...new Set(xs)].sort((a, b) => (a < b ? -1 : a > b ? 1 : 0))`
unfoldable pub canonical : List Text → List Text
unfolding dedupe sort_by text_lt
canonical xs = sort_by text_lt (dedupe xs)

-- Every element is below all that follow.
abbrev pub IsAscending : List Text → Type 0
IsAscending [] = Unit
IsAscending (x ∷ xs) = All (λ y. text_lt x y ≡ true) xs × IsAscending xs

pub text_lt_irrefl : (s : Text) → text_lt s s ≡ false
unfolding text_lt
text_lt_irrefl [] = refl
text_lt_irrefl (a ∷ s) = ground (arith, text_lt_irrefl s)

pub text_lt_trans : (s t u : Text) → text_lt s t ≡ true → text_lt t u ≡ true → text_lt s u ≡ true
unfolding text_lt
text_lt_trans [] [] u p q = cc
text_lt_trans [] (b ∷ t) [] p q = cc
text_lt_trans [] (b ∷ t) (c ∷ u) p q = refl
text_lt_trans (a ∷ s) [] u p q = cc
text_lt_trans (a ∷ s) (b ∷ t) [] p q = cc
text_lt_trans (a ∷ s) (b ∷ t) (c ∷ u) p q = ground (arith, text_lt_trans s t u)

-- Of two texts that differ one is below the other.
pub text_lt_total : (s t : Text) → text_lt t s ≡ false → text_eq s t ≡ false → text_lt s t ≡ true
unfolding text_lt text_eq
text_lt_total [] [] p q = cc
text_lt_total [] (b ∷ t) p q = refl
text_lt_total (a ∷ s) [] p q = cc
text_lt_total (a ∷ s) (b ∷ t) p q = ground (arith, text_lt_total s t)

pub contains_here : (x : Text) (xs : List Text) → contains (x ∷ xs) x ≡ true
unfolding contains
contains_here x xs = rw (text_eq_self x)

contains-insert_by :
    (x : Text) (ys : List Text) (t : Text)
    → contains (insert_by text_lt x ys) t ≡ (text_eq x t || contains ys t)
unfolding insert_by contains
contains-insert_by x [] t = refl
contains-insert_by x (y ∷ ys) t = ground (arith, contains-insert_by x ys t)

pub contains-sort_by : (xs : List Text) (t : Text) → contains (sort_by text_lt xs) t ≡ contains xs t
unfolding sort_by contains
contains-sort_by [] t = refl
contains-sort_by (x ∷ xs) t =
    rw (contains-insert_by x (sort_by text_lt xs) t, contains-sort_by xs t)

contains-dedupe_from :
    (seen xs : List Text) (t : Text)
    → contains (dedupe_from seen xs) t ≡ (contains xs t && not (contains seen t))
unfolding dedupe_from contains
contains-dedupe_from seen [] t = refl
contains-dedupe_from seen (x ∷ xs) t =
    ground
      (arith, text_eq_iff x t, contains-dedupe_from seen xs t, contains-dedupe_from (x ∷ seen) xs t)

pub contains-dedupe : (xs : List Text) (t : Text) → contains (dedupe xs) t ≡ contains xs t
unfolding dedupe contains
contains-dedupe xs t = ground (arith, contains-dedupe_from [] xs t)

-- The result has the members of the list.
pub contains-canonical : (xs : List Text) (t : Text) → contains (canonical xs) t ≡ contains xs t
unfolding canonical dedupe contains
contains-canonical xs t =
    ground (arith, contains-sort_by (dedupe_from [] xs) t, contains-dedupe_from [] xs t)

-- No element stands twice.
abbrev pub IsNodup : List Text → Type 0
IsNodup [] = Unit
IsNodup (x ∷ xs) = (contains xs x ≡ false) × IsNodup xs

dedupe_from-IsNodup : (seen xs : List Text) → IsNodup (dedupe_from seen xs)
unfolding dedupe_from contains
dedupe_from-IsNodup seen [] = tt
dedupe_from-IsNodup seen (x ∷ xs) = ground (
  arith,
  dedupe_from-IsNodup seen xs,
  dedupe_from-IsNodup (x ∷ seen) xs,
  contains-dedupe_from (x ∷ seen) xs x,
  text_eq_self x,
)

All-lt_trans :
    (x y : Text) (ys : List Text)
    → text_lt x y ≡ true
    → All (λ z. text_lt y z ≡ true) ys
    → All (λ z. text_lt x z ≡ true) ys
All-lt_trans x y [] h _ = tt
All-lt_trans x y (z ∷ ys) h (k, ks) = (text_lt_trans x y z h k, All-lt_trans x y ys h ks)

All-lt-insert_by :
    (x y : Text) (ys : List Text)
    → text_lt y x ≡ true
    → All (λ z. text_lt y z ≡ true) ys
    → All (λ z. text_lt y z ≡ true) (insert_by text_lt x ys)
unfolding insert_by
All-lt-insert_by x y [] h _ = (h, tt)
All-lt-insert_by x y (z ∷ ys) h (k, ks) = ground (arith, All-lt-insert_by x y ys h ks)

insert_by-IsAscending :
    (x : Text) (ys : List Text)
    → contains ys x ≡ false
    → IsAscending ys
    → IsAscending (insert_by text_lt x ys)
unfolding insert_by contains
insert_by-IsAscending x [] _ _ = (tt, tt)
insert_by-IsAscending x (y ∷ ys) new (low, rest) = elim (Bool-cases (text_lt y x)) [
  | inl lt ↦ rw lt (All-lt-insert_by x y ys lt low, insert_by-IsAscending x ys (ground arith) rest)
  | inr ge ↦
      let differ : text_eq x y ≡ false = ground (arith, text_eq_iff x y, text_eq_self y) in
      let lt = text_lt_total x y ge differ in rw ge ((lt, All-lt_trans x y ys lt low), (low, rest))
]

pub sort_by-IsAscending : (xs : List Text) → IsNodup xs → IsAscending (sort_by text_lt xs)
unfolding sort_by
sort_by-IsAscending [] _ = tt
sort_by-IsAscending (x ∷ xs) (new, h) =
    insert_by-IsAscending x (sort_by text_lt xs) (contains-sort_by xs x ∙ new)
      (sort_by-IsAscending xs h)

-- The result ascends strictly: it is sorted and nothing stands in it twice.
pub canonical-IsAscending : (xs : List Text) → IsAscending (canonical xs)
unfolding canonical dedupe
canonical-IsAscending xs = sort_by-IsAscending (dedupe_from [] xs) (dedupe_from-IsNodup [] xs)

-- What is above every element is none of them.
contains-below :
    (x : Text) (xs : List Text) → All (λ y. text_lt x y ≡ true) xs → contains xs x ≡ false
unfolding contains
contains-below x [] _ = refl
contains-below x (y ∷ ys) (h, hs) =
    ground (arith, contains-below x ys hs, text_eq_iff y x, text_lt_irrefl x)

All-lt-contains :
    (x t : Text) (xs : List Text)
    → All (λ y. text_lt x y ≡ true) xs
    → contains xs t ≡ true
    → text_lt x t ≡ true
unfolding contains
All-lt-contains x t [] _ m = cc
All-lt-contains x t (y ∷ ys) (h, hs) m = ground (arith, All-lt-contains x t ys hs, text_eq_iff y t)

-- The heads of two ascending lists with the same members are equal.
same_head :
    (x y : Text) (xs ys : List Text)
    → IsAscending (x ∷ xs)
    → IsAscending (y ∷ ys)
    → contains (y ∷ ys) x ≡ true
    → contains (x ∷ xs) y ≡ true
    → x ≡ y
unfolding contains
same_head x y xs ys (lx, _) (ly, _) hx hy = ground (
  arith,
  text_eq_iff x y,
  text_eq_iff y x,
  All-lt-contains x y xs lx,
  All-lt-contains y x ys ly,
  text_lt_trans x y x,
  text_lt_irrefl x,
)

same_tail :
    (x t : Text) (xs ys : List Text)
    → IsAscending (x ∷ xs)
    → IsAscending (x ∷ ys)
    → contains (x ∷ xs) t ≡ contains (x ∷ ys) t
    → contains xs t ≡ contains ys t
unfolding contains
same_tail x t xs ys (lx, _) (ly, _) h =
    ground (arith, text_eq_iff x t, contains-below x xs lx, contains-below x ys ly)

-- Ascending lists with the same members are equal.
pub IsAscending-unique :
    (xs ys : List Text)
    → IsAscending xs
    → IsAscending ys
    → ((t : Text) → contains xs t ≡ contains ys t)
    → xs ≡ ys
IsAscending-unique [] [] _ _ h = refl
IsAscending-unique [] (y ∷ ys) _ _ h =
    let absent : contains [] y ≡ false = unfold contains in refl in
    cc (h y, absent, contains_here y ys)
IsAscending-unique (x ∷ xs) [] _ _ h =
    let absent : contains [] x ≡ false = unfold contains in refl in
    cc (h x, absent, contains_here x xs)
IsAscending-unique (x ∷ xs) (y ∷ ys) ax ay h =
    let e = same_head x y xs ys ax ay (sym (h x) ∙ contains_here x xs) (h y ∙ contains_here y ys) in
    let ay' : IsAscending (x ∷ ys) = rw e ay in
    let h' : (t : Text) → contains (x ∷ xs) t ≡ contains (x ∷ ys) t =
      λ t. subst (λ u. contains (x ∷ xs) t ≡ contains (u ∷ ys) t) (sym e) (h t) in
    let tails = IsAscending-unique xs ys ax.1 ay.1 (λ t. same_tail x t xs ys ax ay' (h' t)) in cc

-- The result depends on the members alone: not on their order, nor on how often they stand.
pub canonical-eq :
    (xs ys : List Text) → ((t : Text) → contains xs t ≡ contains ys t) → canonical xs ≡ canonical ys
canonical-eq xs ys h =
    IsAscending-unique (canonical xs) (canonical ys) (canonical-IsAscending xs)
      (canonical-IsAscending ys)
      (λ t. contains-canonical xs t ∙ h t ∙ sym (contains-canonical ys t))
