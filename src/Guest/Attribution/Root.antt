-- ===== src/Guest/Attribution/Root.antt =====
-- The identity of the root, in the manifest and in the environment of its scripts.
use script_jail.Base.{
  Bool, true, false, List, [], ◌∷◌, Option, none, some, Text, text_eq, text_eq_self, contains,
  if◌then◌else◌, ◌≡◌, ◌⊎◌, inl, inr, refl, ap, arith, Bool-cases,
}
use script_jail.Lock.Schema.{Stage, install, prepare}
use script_jail.Guest.Attribution.{
  AttributionResult, canonical_stage, pnpm_root_rebuild_hooks, npm_root_prepare_wrapper_hooks,
  build_pkg, Property, absent, string, Manifest, RootKeys, keys_for, build_root_pkg_keys,
  root_sentinel, named_keys, fold_hook, has_key, attribute_named, attribute_nameless,
  attribution_from_env_vars,
}

-- What a package manager exports of a property that is absent or a text. Of others nothing is said.
pub data Exports : Property → Option Text → Type 0 where
  unset : Exports absent none
  as_it_is : (s : Text) → Exports (string s) (some s)

-- The sentinel is handed on where it is the root's key.
abbrev pub sentinel_of : Option Text → Option Text
sentinel_of none = none
sentinel_of (some key) = if text_eq key root_sentinel then some root_sentinel else none

-- The stage that an event of the root counts for: its own, or that of its hook.
pub data CountsFor (event : Text) (stage : Stage) : Type 0 where
  own_stage : canonical_stage event ≡ some stage → CountsFor event stage
  rebuild :
      canonical_stage event ≡ none
      → contains pnpm_root_rebuild_hooks event ≡ true
      → stage ≡ install
      → CountsFor event stage
  wrapper :
      canonical_stage event ≡ none
      → contains pnpm_root_rebuild_hooks event ≡ false
      → contains npm_root_prepare_wrapper_hooks event ≡ true
      → stage ≡ prepare
      → CountsFor event stage

CountsFor-named :
    {event : Text} {stage : Stage} (pkg : Text) (keys : List Text)
    → contains keys pkg ≡ true
    → CountsFor event stage
    → attribute_named pkg event (some keys) (canonical_stage event)
      ≡ some (record { pkg = pkg; lifecycle = stage })
unfolding fold_hook
CountsFor-named pkg keys known (CountsFor.own_stage e) = rw e refl
CountsFor-named pkg keys known (CountsFor.rebuild e h s) = rw (e, known, h, s) refl
CountsFor-named pkg keys known (CountsFor.wrapper e n h s) = rw (e, known, n, h, s) refl

CountsFor-nameless :
    {event : Text} {stage : Stage} (pkg : Text)
    → CountsFor event stage
    → attribute_nameless (some pkg) event (canonical_stage event)
      ≡ some (record { pkg = pkg; lifecycle = stage })
unfolding fold_hook
CountsFor-nameless pkg (CountsFor.own_stage e) = rw e refl
CountsFor-nameless pkg (CountsFor.rebuild e h s) = rw (e, h, s) refl
CountsFor-nameless pkg (CountsFor.wrapper e n h s) = rw (e, n, h, s) refl

named_keys-build_pkg :
    (name key : Text) {property : Property} {version : Option Text}
    → Exports property version
    → (named_keys name property).canonical ≡ some key
    → (build_pkg name version ≡ key) × (contains (named_keys name property).keys key ≡ true)
unfolding contains
named_keys-build_pkg name key Exports.unset e = ground (arith, text_eq_self key)
named_keys-build_pkg name key (Exports.as_it_is v) e = ground (arith, text_eq_self key)

-- The environment of the root's script is attributed to the root's key, which is known.
abbrev pub IsAttributed : Text → Text → Stage → Option Text → Option Text → RootKeys → Type 0
IsAttributed key event stage name version root =
    (attribution_from_env_vars name version (some event) (sentinel_of root.canonical)
        (some root.keys)
      ≡ some (record { pkg = key; lifecycle = stage }))
    × (contains root.keys key ≡ true)

module _ (key event : Text) (stage : Stage) (c : CountsFor event stage) where
  nameless-IsAttributed :
      root_sentinel ≡ key
      → (attribute_nameless (sentinel_of (some root_sentinel)) event (canonical_stage event)
          ≡ some (record { pkg = key; lifecycle = stage }))
        × (contains (root_sentinel ∷ []) key ≡ true)
  unfolding contains
  nameless-IsAttributed e =
      rw (← e, text_eq_self root_sentinel) (CountsFor-nameless root_sentinel c, refl)

  keys_for-IsAttributed :
      {name version : Property} {name_var version_var : Option Text}
      → Exports name name_var
      → Exports version version_var
      → (keys_for name version).canonical ≡ some key
      → IsAttributed key event stage name_var version_var (keys_for name version)
  unfolding attribution_from_env_vars
  keys_for-IsAttributed Exports.unset v e = nameless-IsAttributed cc
  keys_for-IsAttributed (Exports.as_it_is []) v e = nameless-IsAttributed cc
  keys_for-IsAttributed {version = version} (Exports.as_it_is (a ∷ name)) v e =
      let (same, known) = named_keys-build_pkg (a ∷ name) key v e in
      (rw same (CountsFor-named key (named_keys (a ∷ name) version).keys known c), known)

-- Every script of the root is attributed to the root. Where the manifest gives the root a key, an
-- event that is a stage or one of the root's hooks, run in an environment that has the name and the
-- version of that manifest, each a text as it is or absent, is attributed to this key and to the stage
-- it counts for, and the key is one of those by which the root is known.
pub build_root_pkg_keys-IsAttributed :
    (manifest : Manifest) (name version : Option Text) (key event : Text) (stage : Stage)
    → Exports manifest.name name
    → Exports manifest.version version
    → CountsFor event stage
    → (build_root_pkg_keys manifest).canonical ≡ some key
    → IsAttributed key event stage name version (build_root_pkg_keys manifest)
unfolding build_root_pkg_keys
build_root_pkg_keys-IsAttributed manifest name version key event stage n v c h =
    keys_for-IsAttributed key event stage c n v h

-- A package as attribution knows the root by.
abbrev pub IsRootKey : Option Text → Option (List Text) → Text → Type 0
IsRootKey sentinel root_keys pkg = (sentinel ≡ some pkg) ⊎ (has_key root_keys pkg ≡ true)

fold_hook-pkg :
    (pkg event : Text) (r : AttributionResult) → fold_hook pkg event ≡ some r → pkg ≡ r.pkg
unfolding fold_hook
fold_hook-pkg pkg event r h = by_tests (contains pnpm_root_rebuild_hooks event) _ h
  where
    by_tests :
        (first second : Bool)
        → (if first
            then some (record { pkg = pkg; lifecycle = install })
            else (if second then some (record { pkg = pkg; lifecycle = prepare }) else none))
          ≡ some r
        → pkg ≡ r.pkg
    by_tests true second e = cc
    by_tests false true e = cc
    by_tests false false e = cc

attribute_named-IsRootKey :
    (pkg event : Text) (sentinel : Option Text) (root_keys : Option (List Text))
    (r : AttributionResult)
    → attribute_named pkg event root_keys none ≡ some r
    → IsRootKey sentinel root_keys r.pkg
attribute_named-IsRootKey pkg event sentinel root_keys r h =
    elim (Bool-cases (has_key root_keys pkg)) [
      | inr e ↦ let never : none ≡ some r = rw e at h in cc
      | inl e ↦
          let folded : fold_hook pkg event ≡ some r = rw e at h in
          inr (rw (← fold_hook-pkg pkg event r folded) e)
    ]

attribute_nameless-IsRootKey :
    (event : Text) (sentinel : Option Text) (root_keys : Option (List Text)) (r : AttributionResult)
    → attribute_nameless sentinel event none ≡ some r
    → IsRootKey sentinel root_keys r.pkg
attribute_nameless-IsRootKey event none root_keys r h = cc
attribute_nameless-IsRootKey event (some s) root_keys r h =
    inl (ap some (fold_hook-pkg s event r h))

-- Hooks that are no stage of an installation are attributed to the root alone: no dependency gets
-- an event of them, whatever its environment says.
pub attribution_from_env_vars-IsRootKey :
    (name version : Option Text) (event : Text) (sentinel : Option Text)
    (root_keys : Option (List Text)) (r : AttributionResult)
    → canonical_stage event ≡ none
    → attribution_from_env_vars name version (some event) sentinel root_keys ≡ some r
    → IsRootKey sentinel root_keys r.pkg
unfolding attribution_from_env_vars
attribution_from_env_vars-IsRootKey none version event sentinel root_keys r n h =
    attribute_nameless-IsRootKey event sentinel root_keys r (rw n at h)
attribution_from_env_vars-IsRootKey (some []) version event sentinel root_keys r n h =
    attribute_nameless-IsRootKey event sentinel root_keys r (rw n at h)
attribution_from_env_vars-IsRootKey (some (c ∷ name)) version event sentinel root_keys r n h =
    attribute_named-IsRootKey (build_pkg (c ∷ name) version) event sentinel root_keys r (rw n at h)
