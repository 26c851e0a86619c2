-- ===== src/Lock/Tokenize/Prefix.antt =====
-- Which root `tokenize` picks: a longest one of those that hold the path.
use mathlib.Core.List.{Memᴰ}
use script_jail.Base.{
  true, false, List, [], ◌∷◌, ◌++◌, ◌≤◌, Option, none, some, Text, length, starts_with,
  starts_with_sound, if◌then◌else◌, ◌≡◌, refl, sym, ap, ◌∙◌, subst, arith, Bool-cases, Option-cases,
  ◌↔◌, inl, inr, All, All-Memᴰ, drop-append, and-eq-true, sort_by, IsSortedBy, sort_by-IsSortedBy,
  All-sort_by, All-of_sort_by,
}
use script_jail.Lock.Tokenize.{
  TokenizeRoots, slash, path_has_prefix, candidates, longer, find_prefix, render_token, rewrite_by,
  or_slash, tokenize,
}
use script_jail.Lock.Tokenize.Collapse.{at_boundary}

path_has_prefix-append : (p rest : Text) → path_has_prefix (p ++ rest) p ≡ at_boundary rest
unfolding path_has_prefix
path_has_prefix-append [] [] = refl
path_has_prefix-append [] (c ∷ rest) = ground arith
path_has_prefix-append (a ∷ p) rest = ground (arith, path_has_prefix-append p rest)

-- A prefix holds a path exactly when the path is the prefix and a rest that is empty or begins with
-- a slash.
pub path_has_prefix_iff :
    (path p : Text)
    → (path_has_prefix path p ≡ true)
      ↔ ((rest : Text) × (path ≡ p ++ rest) × (at_boundary rest ≡ true))
path_has_prefix_iff path p = (to, from)
  where
    to :
        path_has_prefix path p ≡ true
        → (rest : Text) × (path ≡ p ++ rest) × (at_boundary rest ≡ true)
    to h =
        let starts : starts_with path p ≡ true =
          unfold path_has_prefix in (and-eq-true (starts_with path p) _ h).0 in
        let (rest, e) = starts_with_sound path p starts in
        (rest, e, sym (path_has_prefix-append p rest) ∙ subst (λ s. path_has_prefix s p ≡ true) e h)

    from :
        (rest : Text) × (path ≡ p ++ rest) × (at_boundary rest ≡ true)
        → path_has_prefix path p ≡ true
    from (rest, e, b) = rw e (path_has_prefix-append p rest ∙ b)

longer_asym : (a b : Text × Text) → longer a b ≡ true → longer b a ≡ false
longer_asym a b h = ground arith

longer_trans : (a b c : Text × Text) → longer b a ≡ false → longer c b ≡ false → longer c a ≡ false
longer_trans a b c h k = ground arith

-- What `find_prefix` returns holds the path, and no longer candidate does.
abbrev IsLongest : Text → Text → List (Text × Text) → Type 0
IsLongest path prefix = All (λ c. path_has_prefix path c.0 ≡ true → length c.0 ≤ length prefix)

le-of_sorted :
    (path : Text) (c : Text × Text) (cs : List (Text × Text))
    → All (λ d. longer d c ≡ false) cs
    → IsLongest path c.0 cs
le-of_sorted path c [] _ = tt
le-of_sorted path c (d ∷ cs) (h, hs) = (λ _. ground arith, le-of_sorted path c cs hs)

find_prefix-IsLongest :
    (path : Text) (cs : List (Text × Text)) (c : Text × Text)
    → IsSortedBy longer cs
    → find_prefix path cs ≡ some c
    → (path_has_prefix path c.0 ≡ true) × IsLongest path c.0 cs
unfolding find_prefix
find_prefix-IsLongest path [] c _ h = cc
find_prefix-IsLongest path ((p, t) ∷ cs) c (low, rest) h =
    elim (Bool-cases (path_has_prefix path p)) [
      | inl holds ↦
          let e : (p, t) ≡ c = ground arith in
          subst
            (λ (d : Text × Text).
              (path_has_prefix path d.0 ≡ true) × IsLongest path d.0 ((p, t) ∷ cs))
            e (holds, (λ _. omega arith, le-of_sorted path (p, t) cs low))
      | inr other ↦
          let (holds, best) = find_prefix-IsLongest path cs c rest (ground arith) in
          (holds, (λ h. absurd (cc), best))
    ]

find_prefix-none :
    (path : Text) (cs : List (Text × Text))
    → find_prefix path cs ≡ none
    → All (λ c. path_has_prefix path c.0 ≡ false) cs
unfolding find_prefix
find_prefix-none path [] _ = tt
find_prefix-none path ((p, t) ∷ cs) h = elim (Bool-cases (path_has_prefix path p)) [
  | inl holds ↦ absurd (ground arith)
  | inr other ↦ (other, find_prefix-none path cs (ground arith))
]

find_prefix-All :
    (P : Text × Text → Type 0) (path : Text) (cs : List (Text × Text)) (c : Text × Text)
    → All P cs
    → find_prefix path cs ≡ some c
    → P c
unfolding find_prefix
find_prefix-All P path [] c _ h = cc
find_prefix-All P path ((p, t) ∷ cs) c (here, later) h =
    elim (Bool-cases (path_has_prefix path p)) [
      | inl holds ↦ let e : (p, t) ≡ c = ground arith in subst P e here
      | inr other ↦ find_prefix-All P path cs c later (ground arith)
    ]

-- What `tokenize` promises, with no word of sorting: a relative path stays, so does one that no root
-- holds, and any other is rewritten by a longest of the roots that hold it.
pub data Tokenizes (roots : TokenizeRoots) (pkg_dir : Option Text) (path : Text)
    : Text → Type 0 where
  relative : starts_with path slash ≡ false → Tokenizes roots pkg_dir path path
  outside :
      starts_with path slash ≡ true
      → All (λ (c : Text × Text). path_has_prefix path c.0 ≡ false) (candidates roots pkg_dir)
      → Tokenizes roots pkg_dir path path
  below :
      (prefix token rest : Text)
      → starts_with path slash ≡ true
      → Memᴰ (prefix, token) (candidates roots pkg_dir)
      → path ≡ prefix ++ rest
      → at_boundary rest ≡ true
      → All
          (λ (c : Text × Text). path_has_prefix path c.0 ≡ true → length c.0 ≤ length prefix)
          (candidates roots pkg_dir)
      → Tokenizes roots pkg_dir path (render_token token (or_slash rest))

-- The candidates in the order in which the loop tries them.
abbrev pub sorted : TokenizeRoots → Option Text → List (Text × Text)
sorted roots pkg_dir = sort_by longer (candidates roots pkg_dir)

pub tokenize_lem :
    (path : Text) (roots : TokenizeRoots) (pkg_dir : Option Text)
    → tokenize path roots pkg_dir ≡ (
        if starts_with path slash
        then rewrite_by path (find_prefix path (sorted roots pkg_dir))
        else path)
unfolding tokenize
tokenize_lem path roots pkg_dir = refl

pub rewrite_by-some :
    (prefix token rest : Text)
    → rewrite_by (prefix ++ rest) (some (prefix, token)) ≡ render_token token (or_slash rest)
unfolding rewrite_by
rewrite_by-some prefix token rest =
    ap (λ s. render_token token (or_slash s)) (drop-append prefix rest)

module _ (path : Text) (roots : TokenizeRoots) (pkg_dir : Option Text) where
  -- What is found holds the path and is a longest such candidate.
  pub found-IsLongest :
      (c : Text × Text)
      → find_prefix path (sorted roots pkg_dir) ≡ some c
      → (path_has_prefix path c.0 ≡ true) × IsLongest path c.0 (candidates roots pkg_dir)
  found-IsLongest c h =
      let (holds, best) =
        find_prefix-IsLongest path (sorted roots pkg_dir) c
          (sort_by-IsSortedBy longer longer_asym longer_trans (candidates roots pkg_dir)) h in
      (
        holds,
        All-of_sort_by longer (λ d. path_has_prefix path d.0 ≡ true → length d.0 ≤ length c.0)
            (candidates roots pkg_dir) best,
      )

  pub found_mem :
      (c : Text × Text)
      → find_prefix path (sorted roots pkg_dir) ≡ some c
      → Memᴰ c (candidates roots pkg_dir)
  found_mem c h =
      let cs = candidates roots pkg_dir in
      find_prefix-All (λ d. Memᴰ d cs) path (sorted roots pkg_dir) c
        (All-sort_by longer (λ d. Memᴰ d cs) cs (All-Memᴰ cs)) h

  pub found_none :
      find_prefix path (sorted roots pkg_dir) ≡ none
      → All (λ (c : Text × Text). path_has_prefix path c.0 ≡ false) (candidates roots pkg_dir)
  found_none h =
      All-of_sort_by longer (λ c. path_has_prefix path c.0 ≡ false) (candidates roots pkg_dir)
        (find_prefix-none path (sorted roots pkg_dir) h)

  -- `tokenize` does what it promises, on every path.
  pub tokenize-Tokenizes : Tokenizes roots pkg_dir path (tokenize path roots pkg_dir)
  tokenize-Tokenizes = elim (Bool-cases (starts_with path slash)) [
    | inr e ↦ rw (tokenize_lem path roots pkg_dir, e) (relative e)
    | inl e ↦ elim (Option-cases (find_prefix path (sorted roots pkg_dir))) [
      | inl missed ↦
          let same : tokenize path roots pkg_dir ≡ path =
            tokenize_lem path roots pkg_dir ∙ rw (e, missed) (unfold rewrite_by in refl) in
          rw same (outside e (found_none missed))
      | inr ((prefix, token), found) ↦
          let (holds, best) = found-IsLongest (prefix, token) found in
          let (rest, split, b) = (path_has_prefix_iff path prefix).0 holds in
          let same : tokenize path roots pkg_dir ≡ render_token token (or_slash rest) =
            tokenize_lem path roots pkg_dir
            ∙ rw (e, found)
                (ap (λ s. rewrite_by s (some (prefix, token))) split
                  ∙ rewrite_by-some prefix token rest) in
          rw same (below prefix token rest e (found_mem (prefix, token) found) split b best)
    ]
  ]
