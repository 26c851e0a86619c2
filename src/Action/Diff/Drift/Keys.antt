-- ===== src/Action/Diff/Drift/Keys.antt =====
-- The key that a line begins with, said without the regular expression.
use script_jail.Base.{
  true, false, ◌++◌, none, some, Text, codes, starts_with, starts_with_sound, ◌≡◌, refl, sym, ap,
  subst, arith, ◌⊎◌, inl, inr, Bool-cases,
}
use script_jail.Action.Diff.Drift.{volatile_key}

abbrev pub generated : Text
generated = codes "generated_at"

abbrev pub sha : Text
sha = codes "manager_lockfile_sha256"

pub key-cases : (x key : Text) → volatile_key x ≡ some key → (key ≡ generated) ⊎ (key ≡ sha)
unfolding volatile_key
key-cases x key h = elim (Bool-cases (starts_with x (codes "generated_at:"))) [
  | inl e ↦ inl (ground arith)
  | inr e ↦ elim (Bool-cases (starts_with x (codes "manager_lockfile_sha256:"))) [
    | inl e' ↦ inr (ground arith)
    | inr e' ↦ absurd (ground arith)
  ]
]

-- The line begins with neither key.
abbrev pub IsPlain : Text → Type 0
IsPlain x =
    (starts_with x (generated ++ codes ":") ≡ false) × (starts_with x (sha ++ codes ":") ≡ false)

-- The line begins with that key, one of the two.
abbrev pub HasKey : Text → Text → Type 0
HasKey key x = ((key ≡ generated) ⊎ (key ≡ sha)) × (starts_with x (key ++ codes ":") ≡ true)

pub no_key-IsPlain : (x : Text) → volatile_key x ≡ none → IsPlain x
unfolding volatile_key
no_key-IsPlain x h = elim (Bool-cases (starts_with x (codes "generated_at:"))) [
  | inl e ↦ absurd (ground arith)
  | inr e ↦ elim (Bool-cases (starts_with x (codes "manager_lockfile_sha256:"))) [
    | inl e' ↦ absurd (ground arith)
    | inr e' ↦ (e, e')
  ]
]

pub no_key-of_IsPlain : (x : Text) → IsPlain x → volatile_key x ≡ none
unfolding volatile_key
no_key-of_IsPlain x (e, e') = rw (e, e') refl

pub key-HasKey : (x key : Text) → volatile_key x ≡ some key → HasKey key x
unfolding volatile_key
key-HasKey x key h = elim (Bool-cases (starts_with x (codes "generated_at:"))) [
  | inl e ↦
      let same : generated ≡ key = ground arith in
      (inl (sym same), subst (λ k. starts_with x (k ++ codes ":") ≡ true) same e)
  | inr e ↦ elim (Bool-cases (starts_with x (codes "manager_lockfile_sha256:"))) [
    | inl e' ↦
        let same : sha ≡ key = ground arith in
        (inr (sym same), subst (λ k. starts_with x (k ++ codes ":") ≡ true) same e')
    | inr e' ↦ absurd (ground arith)
  ]
]

sha_not_generated :
    (x : Text)
    → starts_with x (sha ++ codes ":") ≡ true
    → starts_with x (generated ++ codes ":") ≡ false
sha_not_generated x h =
    let (r, e) = starts_with_sound x (sha ++ codes ":") h in rw e (unfold starts_with in refl)

pub key-of_HasKey : (x key : Text) → HasKey key x → volatile_key x ≡ some key
unfolding volatile_key
key-of_HasKey x key (inl same, h) =
    rw (subst (λ k. starts_with x (k ++ codes ":") ≡ true) same h) (ap some (sym same))
key-of_HasKey x key (inr same, h) =
    let here : starts_with x (sha ++ codes ":") ≡ true =
      subst (λ k. starts_with x (k ++ codes ":") ≡ true) same h in
    rw (sha_not_generated x here, here) (ap some (sym same))
