-- ===== src/Shared/PmCommands/Allow/Safe.antt =====
-- What no argument that is kept can do.
use script_jail.Base.{
  Bool, true, false, not, ◌||◌, all, and-eq-true, or-eq-true, eq_of_text_eq, List, [], ◌∷◌, ◌++◌,
  map, Option, some, Text, codes, text_eq, contains, lookup, ◌≡◌, refl, sym, ◌∙◌, ap, subst, inl,
  inr, arith, Bool-cases,
}
use script_jail.Shared.PmCommands.Flags.{
  Platform, canonical_flag_key, has_userinfo, joined_value, registry_url_has_credentials, has_unit,
  shape,
}
use script_jail.Shared.PmCommands.Allow.{
  AllowEntry, Allowlist, registry, or_split, split_value, valued, is_rejected, allowed_flag_keys,
  sanitize_install_args,
}
use script_jail.Shared.PmCommands.Allow.Kept.{IsAllowed, head, filter-IsAllowed}

abbrev keys_of : Allowlist → List Text
keys_of allow = map (λ (p : Text × AllowEntry). p.0) allow

contains_of_lookup :
    (key : Text) (allow : Allowlist) (entry : AllowEntry)
    → lookup key allow ≡ some entry
    → contains (keys_of allow) key ≡ true
unfolding lookup contains
contains_of_lookup key [] entry h = cc
contains_of_lookup key ((k, e) ∷ allow) entry h = elim (Bool-cases (text_eq k key)) [
  | inl t ↦ rw t refl
  | inr f ↦
      let later : lookup key allow ≡ some entry = rw f at h in
      rw f (contains_of_lookup key allow entry later)
]

-- The flags that choose among the locked packages, and the registry.
abbrev pub selection_keys : List Text
selection_keys =
    codes "omit"
    ∷ codes "include"
    ∷ codes "prod"
    ∷ codes "production"
    ∷ codes "dev"
    ∷ codes "optional"
    ∷ codes "p"
    ∷ codes "d"
    ∷ codes "registry"
    ∷ []

-- Flags that turn scripts on or move the lock, the root or the modules, and their short forms.
abbrev pub steering_keys : List Text
steering_keys =
    codes "ignorescripts"
    ∷ codes "frozenlockfile"
    ∷ codes "fixlockfile"
    ∷ codes "lockfiledir"
    ∷ codes "lockfileonly"
    ∷ codes "lockfile"
    ∷ codes "modulesdir"
    ∷ codes "virtualstoredir"
    ∷ codes "storedir"
    ∷ codes "workspaceroot"
    ∷ codes "dir"
    ∷ codes "prefix"
    ∷ codes "global"
    ∷ codes "filter"
    ∷ codes "recursive"
    ∷ codes "mode"
    ∷ codes "immutable"
    ∷ codes "c"
    ∷ codes "g"
    ∷ codes "r"
    ∷ codes "w"
    ∷ codes "f"
    ∷ []

-- What all members of a list pass, a text on it passes.
all-contains :
    (p : Text → Bool) (xs : List Text) (t : Text)
    → all p xs ≡ true
    → contains xs t ≡ true
    → p t ≡ true
unfolding contains
all-contains p [] t h m = cc
all-contains p (x ∷ xs) t h m =
    let (here, later) = and-eq-true (p x) (all p xs) h in
    elim (or-eq-true (text_eq x t) (contains xs t) m) [
      | inl e ↦ ap p (sym (eq_of_text_eq x t e)) ∙ here
      | inr k ↦ all-contains p xs t later k
    ]

disjoint : all (λ k. not (contains steering_keys k)) selection_keys ≡ true
unfolding contains text_eq
disjoint = refl

not_steering :
    (key : Text) → contains selection_keys key ≡ true → contains steering_keys key ≡ false
not_steering key h =
    not-eq-true (contains steering_keys key)
      (all-contains (λ k. not (contains steering_keys k)) selection_keys key disjoint h)
  where
    not-eq-true : (b : Bool) → not b ≡ true → b ≡ false
    not-eq-true true e = cc
    not-eq-true false e = refl

module _ (platform : Platform) where
  -- Every flag that the sanitized arguments of a developer hold, anywhere among them, is one of those
  -- that choose among the locked packages or set the registry; none turns scripts on or moves the
  -- lock, the root or the modules, however it is spelled.
  pub sanitize_install_args-not_steering :
      (args before after : List Text) (a key : Text)
      → (sanitize_install_args platform args).kept ≡ before ++ a ∷ after
      → canonical_flag_key platform a ≡ some key
      → (contains selection_keys key ≡ true) × (contains steering_keys key ≡ false)
  sanitize_install_args-not_steering args before after a key e k =
      elim (filter-IsAllowed platform (allowed_flag_keys platform) args before after a key e k) [
        | IsAllowed.allowed c flag entry k' found r ↦
            let listed = contains_of_lookup (c ∷ flag) (allowed_flag_keys platform) entry found in
            let same : c ∷ flag ≡ key = cc in
            let chosen : contains selection_keys key ≡ true =
              subst (λ t. contains selection_keys t ≡ true) same listed in
            (chosen, not_steering key chosen)
      ]

  -- The value of a registry flag, joined to it or behind it.
  abbrev pub registry_value : Text → List Text → Option Text
  registry_value a after = or_split (joined_value a) (split_value valued a (head after))

  registry_entry :
      (entry : AllowEntry)
      → lookup (codes "registry") (allowed_flag_keys platform) ≡ some entry
      → registry platform ≡ entry
  unfolding lookup text_eq
  registry_entry entry h = cc

  registry_kept :
      (a url : Text) (next : Option Text)
      → is_rejected
          (registry platform).reject_value
          (or_split (joined_value a) (split_value (registry platform) a next))
        ≡ false
      → or_split (joined_value a) (split_value valued a next) ≡ some url
      → (has_userinfo (platform.url url) ≡ false) × (has_unit b'@' (shape url) ≡ false)
  unfolding registry_url_has_credentials
  registry_kept a url next r v =
      let clean : (has_userinfo (platform.url url) || has_unit b'@' (shape url)) ≡ false =
        rw v at r in
      both (has_userinfo (platform.url url)) (has_unit b'@' (shape url)) clean
    where
      both : (b c : Bool) → (b || c) ≡ false → (b ≡ false) × (c ≡ false)
      both b c h = ground arith

  -- No sanitized argument carries credentials: no registry flag among them, whether its value is joined
  -- to it or follows it, has a URL with a user name or a password, or with an @ in its authority.
  pub sanitize_install_args-no_credentials :
      (args before after : List Text) (a url : Text)
      → (sanitize_install_args platform args).kept ≡ before ++ a ∷ after
      → canonical_flag_key platform a ≡ some (codes "registry")
      → registry_value a after ≡ some url
      → (has_userinfo (platform.url url) ≡ false) × (has_unit b'@' (shape url) ≡ false)
  sanitize_install_args-no_credentials args before after a url e k v =
      elim (filter-IsAllowed platform (allowed_flag_keys platform) args before after a
        (codes "registry") e k) [
          | IsAllowed.allowed c flag entry k' found r ↦
              let same : c ∷ flag ≡ codes "registry" = cc in
              let listed : lookup (codes "registry") (allowed_flag_keys platform) ≡ some entry =
                subst (λ t. lookup t (allowed_flag_keys platform) ≡ some entry) same found in
              registry_kept a url (head after)
                (subst
                  (λ (f : AllowEntry).
                    is_rejected f.reject_value
                      (or_split (joined_value a) (split_value f a (head after)))
                    ≡ false)
                  (sym (registry_entry entry listed)) r)
                v
        ]
