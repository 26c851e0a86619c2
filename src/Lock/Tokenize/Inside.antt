-- ===== src/Lock/Tokenize/Inside.antt =====
-- When a tokenised path counts as the package's own.
use mathlib.Core.List.{Memᴰ}
use mathlib.Core.Option
use script_jail.Base.{
  true, false, ◌||◌, [], ◌∷◌, ◌++◌, ℕ, ◌≤◌, ◌<◌, Option, none, some, Text, codes, length,
  starts_with, text_eq, if◌then◌else◌, ◌≡◌, ◌≢◌, refl, sym, ap, ◌∙◌, subst, arith, Bool-cases,
  Option-cases, inl, inr, All, All-get,
}
use script_jail.Lock.Tokenize.{
  TokenizeRoots, slash, path_has_prefix, candidates, find_prefix, render_token, rewrite_by,
  or_slash, to_list, tokenize, is_inside_pkg,
}
use script_jail.Lock.Tokenize.Prefix.{
  path_has_prefix_iff, sorted, tokenize_lem, rewrite_by-some, found-IsLongest, found_mem,
  found_none,
}
use script_jail.Lock.Tokenize.Collapse.{at_boundary, collapse_unstable}
use script_jail.Lock.Tokenize.Collapse.Token.{StaysBelow, tmpdir-StaysBelow, cache-StaysBelow}

-- `tail === '/' ? '' : tail`
tail_text : Text → Text
tail_text rest = if text_eq (or_slash rest) slash then [] else or_slash rest

tail_text-boundary : (rest : Text) → at_boundary rest ≡ true → at_boundary (tail_text rest) ≡ true
unfolding tail_text
tail_text-boundary [] _ = unfold text_eq in refl
tail_text-boundary (c ∷ s) b = elim (Bool-cases (text_eq (c ∷ s) slash)) [
  | inl e ↦ rw e refl
  | inr e ↦ rw e b
]

-- The tokens of `tokenize`.
pub data IsToken : Text → Type 0 where
  pkg : {t : Text} → t ≡ codes "$PKG" → IsToken t
  node_modules : {t : Text} → t ≡ codes "$NODE_MODULES" → IsToken t
  repo : {t : Text} → t ≡ codes "$REPO" → IsToken t
  home : {t : Text} → t ≡ codes "$HOME" → IsToken t
  cache : {t : Text} → t ≡ codes "$CACHE" → IsToken t
  tmpdir : {t : Text} → t ≡ codes "$TMPDIR" → IsToken t

render_token_lem :
    (token rest : Text)
    → render_token token (or_slash rest) ≡ (
        if text_eq token (codes "$TMPDIR") || text_eq token (codes "$CACHE")
        then collapse_unstable (token ++ tail_text rest)
        else token ++ tail_text rest)
unfolding render_token tail_text
render_token_lem token rest = refl

render_plain :
    (token rest : Text)
    → (text_eq token (codes "$TMPDIR") || text_eq token (codes "$CACHE")) ≡ false
    → at_boundary rest ≡ true
    → StaysBelow token (render_token token (or_slash rest))
render_plain token rest plain b =
    (tail_text rest, render_token_lem token rest ∙ rw plain, tail_text-boundary rest b)

-- A rewritten path is its token and a rest that is empty or begins with a slash.
pub render_token-StaysBelow :
    (token rest : Text)
    → IsToken token
    → at_boundary rest ≡ true
    → StaysBelow token (render_token token (or_slash rest))
render_token-StaysBelow token rest (pkg e) b =
    render_plain token rest (rw e (unfold text_eq in refl)) b
render_token-StaysBelow token rest (node_modules e) b =
    render_plain token rest (rw e (unfold text_eq in refl)) b
render_token-StaysBelow token rest (repo e) b =
    render_plain token rest (rw e (unfold text_eq in refl)) b
render_token-StaysBelow token rest (home e) b =
    render_plain token rest (rw e (unfold text_eq in refl)) b
render_token-StaysBelow token rest (cache e) b =
    let test : (text_eq (codes "$CACHE") (codes "$TMPDIR")
          || text_eq (codes "$CACHE") (codes "$CACHE"))
        ≡ true =
      unfold text_eq in refl in
    let (r, same, br) = cache-StaysBelow (tail_text rest) (tail_text-boundary rest b) in
    (r, rw e (render_token_lem (codes "$CACHE") rest ∙ rw test same), br)
render_token-StaysBelow token rest (tmpdir e) b =
    let test : (text_eq (codes "$TMPDIR") (codes "$TMPDIR")
          || text_eq (codes "$TMPDIR") (codes "$CACHE"))
        ≡ true =
      unfold text_eq in refl in
    let (r, same, br) = tmpdir-StaysBelow (tail_text rest) (tail_text-boundary rest b) in
    (r, rw e (render_token_lem (codes "$TMPDIR") rest ∙ rw test same), br)

inside-below : (r : Text) → at_boundary r ≡ true → is_inside_pkg (codes "$PKG" ++ r) ≡ true
unfolding is_inside_pkg
inside-below [] _ = refl
inside-below (c ∷ r) b = ground arith

pub data IsOther : Text → Type 0 where
  other : {t : Text} (c : ℕ) (s : Text) → t ≡ b'$' ∷ c ∷ s → c ≢ b'P' → IsOther t

not_inside : (t r : Text) → IsOther t → is_inside_pkg (t ++ r) ≡ false
unfolding is_inside_pkg
not_inside t r (other c s e d) = rw e (ground arith)

abbrev pub IsOtherToken : Text → Type 0
IsOtherToken t = IsToken t × IsOther t

legacy_other :
    (legacy : Option Text)
    → All
        (λ (c : Text × Text). IsOtherToken c.1)
        (to_list (Option.map (λ (p : Text). (p, codes "$TMPDIR")) legacy))
legacy_other none = tt
legacy_other (some p) = ((tmpdir refl, other b'T' _ refl (omega arith)), tt)

-- No other root has the token `$PKG`.
pub others :
    (roots : TokenizeRoots) → All (λ (c : Text × Text). IsOtherToken c.1) (candidates roots none)
unfolding candidates
others roots = (
  (node_modules refl, other b'N' _ refl (omega arith)),
  (
    (repo refl, other b'R' _ refl (omega arith)),
    (
      (cache refl, other b'C' _ refl (omega arith)),
      (
        (home refl, other b'H' _ refl (omega arith)),
        ((tmpdir refl, other b'T' _ refl (omega arith)), legacy_other roots.tmp_legacy),
      ),
    ),
  ),
)

pub candidates-some :
    (roots : TokenizeRoots) (c : ℕ) (s : Text)
    → candidates roots (some (c ∷ s)) ≡ (c ∷ s, codes "$PKG") ∷ candidates roots none
unfolding candidates
candidates-some roots c s = refl

pub absolute_not_inside : (path : Text) → starts_with path slash ≡ true → is_inside_pkg path ≡ false
unfolding is_inside_pkg
absolute_not_inside [] h = cc
absolute_not_inside (c ∷ s) h = ground arith

-- The directory of the package is deeper than every other root.
abbrev pub IsDeepest : Text → TokenizeRoots → Type 0
IsDeepest dir roots = All (λ (c : Text × Text). length c.0 < length dir) (candidates roots none)

module _ (path : Text) (roots : TokenizeRoots) (c : ℕ) (s : Text)
    (absolute : starts_with path slash ≡ true) (deepest : IsDeepest (c ∷ s) roots) where
  abbrev dir : Text
  dir = c ∷ s

  not_found :
      find_prefix path (sorted roots (some dir)) ≡ none
      → is_inside_pkg (tokenize path roots (some dir)) ≡ path_has_prefix path dir
  not_found h =
      let none_holds = found_none path roots (some dir) h in
      let outside : path_has_prefix path dir ≡ false =
        (subst (All (λ (d : Text × Text). path_has_prefix path d.0 ≡ false))
          (candidates-some roots c s) none_holds).0 in
      let same : tokenize path roots (some dir) ≡ path =
        tokenize_lem path roots (some dir) ∙ rw (absolute, h) (unfold rewrite_by in refl) in
      rw (same, outside) (absolute_not_inside path absolute)

  found_as :
      (prefix token rest : Text)
      → find_prefix path (sorted roots (some dir)) ≡ some (prefix, token)
      → path ≡ prefix ++ rest
      → tokenize path roots (some dir) ≡ render_token token (or_slash rest)
  found_as prefix token rest found split =
      tokenize_lem path roots (some dir)
      ∙ rw (absolute, found)
          (ap (λ t. rewrite_by t (some (prefix, token))) split ∙ rewrite_by-some prefix token rest)

  found_it :
      (prefix token : Text)
      → find_prefix path (sorted roots (some dir)) ≡ some (prefix, token)
      → Memᴰ (prefix, token) ((dir, codes "$PKG") ∷ candidates roots none)
      → is_inside_pkg (tokenize path roots (some dir)) ≡ path_has_prefix path dir
  found_it prefix token found (Memᴰ.head e) =
      let (holds, _) = found-IsLongest path roots (some dir) (prefix, token) found in
      let (rest, split, b) = (path_has_prefix_iff path prefix).0 holds in
      let is_pkg : token ≡ codes "$PKG" = ap (λ (p : Text × Text). p.1) e in
      let is_dir : prefix ≡ dir = ap (λ (p : Text × Text). p.0) e in
      let (r, below, br) = render_token-StaysBelow token rest (pkg is_pkg) b in
      let inside : is_inside_pkg (tokenize path roots (some dir)) ≡ true =
        ap is_inside_pkg (found_as prefix token rest found split ∙ below)
        ∙ ap (λ t. is_inside_pkg (t ++ r)) is_pkg
        ∙ inside-below r br in
      inside ∙ sym (subst (λ p. path_has_prefix path p ≡ true) is_dir holds)
  found_it prefix token found (Memᴰ.tail m) =
      let (holds, best) = found-IsLongest path roots (some dir) (prefix, token) found in
      let (rest, split, b) = (path_has_prefix_iff path prefix).0 holds in
      let (is_token, is_other) =
        All-get (λ (d : Text × Text). IsOtherToken d.1) (candidates roots none) (others roots) m in
      let shorter : length prefix < length dir =
        All-get (λ (d : Text × Text). length d.0 < length dir) (candidates roots none) deepest m in
      let (r, below, _) = render_token-StaysBelow token rest is_token b in
      let inside : is_inside_pkg (tokenize path roots (some dir)) ≡ false =
        ap is_inside_pkg (found_as prefix token rest found split ∙ below)
        ∙ not_inside token r is_other in
      let longest : path_has_prefix path dir ≡ true → length dir ≤ length prefix =
        (subst
          (All (λ (d : Text × Text). path_has_prefix path d.0 ≡ true → length d.0 ≤ length prefix))
          (candidates-some roots c s) best).0 in
      elim (Bool-cases (path_has_prefix path dir)) [
        | inl h ↦ absurd (omega (arith, longest h))
        | inr h ↦ inside ∙ sym h
      ]

  -- An absolute path is rewritten to `$PKG` or below it exactly when the directory of the package
  -- holds it, as long as every other root is shorter than that directory.
  pub is_inside_pkg-tokenize :
      is_inside_pkg (tokenize path roots (some dir)) ≡ path_has_prefix path dir
  is_inside_pkg-tokenize = elim (Option-cases (find_prefix path (sorted roots (some dir)))) [
    | inl missed ↦ not_found missed
    | inr ((prefix, token), found) ↦ found_it prefix token found (
        subst (Memᴰ (prefix, token)) (candidates-some roots c s)
          (found_mem path roots (some dir) (prefix, token) found))
  ]
