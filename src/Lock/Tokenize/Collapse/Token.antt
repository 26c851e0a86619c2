-- ===== src/Lock/Tokenize/Collapse/Token.antt =====
-- Collapsing a path below a token leaves the token.
use script_jail.Base.{
  true, [], ◌∷◌, ◌++◌, Text, codes, drop, starts_with, if◌then◌else◌, ◌≡◌, refl, ap, ◌∙◌, arith,
  Bool-cases, inl, inr,
}
use script_jail.Lock.Tokenize.Collapse.{
  collapse_runs, collapse_temp, hex_segment, collapse_launcher, collapse_unstable, at_boundary,
}
use script_jail.Lock.Tokenize.Collapse.Runs.{
  collapse_runs-append, collapse_temp-slash, collapse_unstable_lem, slash_not_word,
}
use script_jail.Lock.Tokenize.Collapse.Stable.{launcher-cache}

abbrev tmpdir : Text
tmpdir = codes "$TMPDIR"

abbrev cache : Text
cache = codes "$CACHE"

launcher_cases :
    (p : Text)
    → collapse_launcher (tmpdir ++ b'/' ∷ p) ≡ (
        let rest = drop 4 p in
        if starts_with p (codes "xfs-")
        then (if hex_segment 9 rest
            then tmpdir ++ b'/' ∷ (codes "<hash>" ++ drop 9 rest)
            else if hex_segment 8 rest
            then tmpdir ++ b'/' ∷ (codes "<hash>" ++ drop 8 rest)
            else tmpdir ++ b'/' ∷ p)
        else tmpdir ++ b'/' ∷ p)
unfolding collapse_launcher
launcher_cases p = refl

launcher-tmpdir :
    (p : Text) → (q : Text) × (collapse_launcher (tmpdir ++ b'/' ∷ p) ≡ tmpdir ++ b'/' ∷ q)
launcher-tmpdir p = elim (Bool-cases (starts_with p (codes "xfs-"))) [
  | inl yarn ↦ elim (Bool-cases (hex_segment 9 (drop 4 p))) [
    | inl nine ↦ (codes "<hash>" ++ drop 9 (drop 4 p), rw (launcher_cases p, yarn, nine))
    | inr less ↦ elim (Bool-cases (hex_segment 8 (drop 4 p))) [
      | inl eight ↦ (codes "<hash>" ++ drop 8 (drop 4 p), rw (launcher_cases p, yarn, less, eight))
      | inr other ↦ (p, rw (launcher_cases p, yarn, less, other))
    ]
  ]
  | inr other ↦ (p, rw (launcher_cases p, other))
]

runs-below :
    (token p : Text)
    → collapse_runs [] token ≡ token
    → collapse_runs [] (token ++ b'/' ∷ p) ≡ token ++ b'/' ∷ collapse_runs [] p
runs-below token p e = collapse_runs-append [] token p b'/' slash_not_word ∙ rw e

-- What stays below a token: the token, and a rest that is empty or begins with a slash.
abbrev pub StaysBelow : Text → Text → Type 0
StaysBelow token path = (r : Text) × (path ≡ token ++ r) × (at_boundary r ≡ true)

tmpdir_runs : collapse_runs [] tmpdir ≡ tmpdir
unfolding collapse_runs
tmpdir_runs = refl

cache_runs : collapse_runs [] cache ≡ cache
unfolding collapse_runs
cache_runs = refl

pub tmpdir-StaysBelow :
    (rest : Text) → at_boundary rest ≡ true → StaysBelow tmpdir (collapse_unstable (tmpdir ++ rest))
tmpdir-StaysBelow [] _ = ([], unfold collapse_unstable in refl, refl)
tmpdir-StaysBelow (c ∷ p) b =
    let e : c ≡ b'/' = ground arith in
    let (q, launched) = launcher-tmpdir (collapse_temp p) in
    (
      b'/' ∷ collapse_runs [] q,
      rw e (
          collapse_unstable_lem (tmpdir ++ b'/' ∷ p)
          ∙ ap (λ s. collapse_runs [] (collapse_launcher s)) (collapse_temp-slash tmpdir p)
          ∙ ap (collapse_runs []) launched
          ∙ runs-below tmpdir q tmpdir_runs),
      refl,
    )

pub cache-StaysBelow :
    (rest : Text) → at_boundary rest ≡ true → StaysBelow cache (collapse_unstable (cache ++ rest))
cache-StaysBelow [] _ = ([], unfold collapse_unstable in refl, refl)
cache-StaysBelow (c ∷ p) b =
    let e : c ≡ b'/' = ground arith in
    (
      b'/' ∷ collapse_runs [] (collapse_temp p),
      rw e (
          collapse_unstable_lem (cache ++ b'/' ∷ p)
          ∙ ap (λ s. collapse_runs [] (collapse_launcher s)) (collapse_temp-slash cache p)
          ∙ ap (collapse_runs []) (launcher-cache (b'/' ∷ collapse_temp p))
          ∙ runs-below cache (collapse_temp p) cache_runs),
      refl,
    )
