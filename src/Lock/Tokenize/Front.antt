-- ===== src/Lock/Tokenize/Front.antt =====
-- The front of a tokenised absolute path is a slash, or the `$` of a token.
use script_jail.Base.{
  true, List, [], ◌∷◌, ◌++◌, Option, none, some, Text, codes, starts_with, ◌≡◌, refl, sym, ap, ◌∙◌,
  subst, ◌⊎◌, inl, inr, All, All-get, All-imp,
}
use script_jail.Lock.Tokenize.{TokenizeRoots, slash, candidates, tokenize}
use script_jail.Lock.Tokenize.Prefix.{Tokenizes, relative, outside, below, tokenize-Tokenizes}
use script_jail.Lock.Tokenize.Inside.{
  IsToken, pkg, node_modules, repo, home, cache, tmpdir, IsOtherToken, others, candidates-some,
  render_token-StaysBelow,
}

abbrev AllTokens : List (Text × Text) → Type 0
AllTokens = All (λ (c : Text × Text). IsToken c.1)

other_tokens : (roots : TokenizeRoots) → AllTokens (candidates roots none)
other_tokens roots =
    All-imp (λ (c : Text × Text). IsOtherToken c.1) (λ (c : Text × Text). IsToken c.1)
      (candidates roots none) (λ c h. h.0) (others roots)

candidates_empty : (roots : TokenizeRoots) → candidates roots (some []) ≡ candidates roots none
unfolding candidates
candidates_empty roots = refl

tokens : (roots : TokenizeRoots) (pkg_dir : Option Text) → AllTokens (candidates roots pkg_dir)
tokens roots none = other_tokens roots
tokens roots (some []) = subst AllTokens (sym (candidates_empty roots)) (other_tokens roots)
tokens roots (some (c ∷ s)) =
    subst AllTokens (sym (candidates-some roots c s)) (pkg refl, other_tokens roots)

starts_with_dollar : (token r : Text) → IsToken token → starts_with (token ++ r) (codes "$") ≡ true
unfolding starts_with
starts_with_dollar token r (pkg e) = rw e refl
starts_with_dollar token r (node_modules e) = rw e refl
starts_with_dollar token r (repo e) = rw e refl
starts_with_dollar token r (home e) = rw e refl
starts_with_dollar token r (cache e) = rw e refl
starts_with_dollar token r (tmpdir e) = rw e refl

abbrev pub HasFront : Text → Type 0
HasFront t = (starts_with t slash ≡ true) ⊎ (starts_with t (codes "$") ≡ true)

front_of :
    (roots : TokenizeRoots) (pkg_dir : Option Text) (path out : Text)
    → starts_with path slash ≡ true
    → Tokenizes roots pkg_dir path out
    → HasFront out
front_of roots pkg_dir path out h (relative e) = inl h
front_of roots pkg_dir path out h (outside e all) = inl h
front_of roots pkg_dir path out h (below prefix token rest e m split b best) =
    let is_token =
      All-get (λ (c : Text × Text). IsToken c.1) (candidates roots pkg_dir) (tokens roots pkg_dir)
        m in
    let (r, same, _) = render_token-StaysBelow token rest is_token b in
    inr (ap (λ t. starts_with t (codes "$")) same ∙ starts_with_dollar token r is_token)

-- An absolute path is left or begins with the `$` of its token.
pub tokenize-HasFront :
    (path : Text) (roots : TokenizeRoots) (pkg_dir : Option Text)
    → starts_with path slash ≡ true
    → HasFront (tokenize path roots pkg_dir)
tokenize-HasFront path roots pkg_dir h =
    front_of roots pkg_dir path (tokenize path roots pkg_dir) h
      (tokenize-Tokenizes path roots pkg_dir)
