-- ===== src/Action/Diff/Rendered.antt =====
-- The lists of a block stand in the document that `render` prints.
use mathlib.Core.List.{Memᴰ}
use script_jail.Base.{
  Bool, true, false, List, [], ◌∷◌, map, Option, none, some, Text, codes, text_eq, text_lt,
  eq_of_text_eq, contains, lookup, sort_by, All-get, All-Memᴰ, All-of_sort_by, or-eq-true, ◌≡◌, ◌≢◌,
  refl, sym, ap, ◌∙◌, subst, inl, inr, Bool-cases, Option-cases, arith,
}
use script_jail.Lock.Schema.{
  Stage, preinstall, install, postinstall, prepare, LifecycleBlock, Field, PackageBlock, Packages,
}
use script_jail.Lock.Normalize.Blocks.{stage_eq, stage_block, stages_of, lookup_block}
use script_jail.Lock.Normalize.Exact.{list_of}
use script_jail.Lock.Render.{
  RenderInput, stage_name, values_of, render_block, list_members, optional_members, add_nonempty,
  add_block, stage_members, earlier, render_package, add_package, package_members, render_packages,
  render_doc,
}
use script_jail.Action.Value.{
  proto_key, Value, Members, text, array, object, property, member, entries_of,
}
use script_jail.Action.Diff.{nonempty_text}
use script_jail.Action.Diff.Listed.{
  Holds, Has, inside, InList, in_list, in_stages, in_packages, IsListed,
}

mem-sort_by {ℓ} :
    {A : Type ℓ} (before : A → A → Bool) (xs : List A) {x : A}
    → Memᴰ x xs
    → Memᴰ x (sort_by before xs)
mem-sort_by before xs m =
    All-get (λ y. Memᴰ y (sort_by before xs)) xs
      (All-of_sort_by before (λ y. Memᴰ y (sort_by before xs)) xs (All-Memᴰ (sort_by before xs))) m

Holds-values_of : (t : Text) (ts : List Text) → contains ts t ≡ true → Holds (text t) (values_of ts)
unfolding contains values_of
Holds-values_of t [] h = cc
Holds-values_of t (u ∷ ts) h = elim (or-eq-true (text_eq u t) (contains ts t) h) [
  | inl e ↦ Holds.here (ap text (sym (eq_of_text_eq u t e)))
  | inr e ↦ Holds.later (Holds-values_of t ts e)
]

member_nonempty :
    (ts : List Text) (t : Text) (rest : Members)
    → contains ts t ≡ true
    → member (codes "audit_bypass") (add_nonempty Field.audit_bypass ts rest)
      ≡ some (array (values_of ts))
unfolding member contains text_eq
member_nonempty [] t rest h = cc
member_nonempty (u ∷ ts) t rest h = refl

property-render_block :
    (block : LifecycleBlock) (t : Text)
    → contains block.audit_bypass t ≡ true
    → property (codes "audit_bypass") (render_block block)
      ≡ some (array (values_of block.audit_bypass))
unfolding property render_block list_members optional_members member text_eq
property-render_block block t h = member_nonempty block.audit_bypass t _ h

nonempty : (t : Text) → t ≢ [] → nonempty_text (text t) ≡ some t
nonempty [] h = absurd (h refl)
nonempty (c ∷ s) h = refl

bypass-InList :
    (block : LifecycleBlock) (t : Text)
    → contains block.audit_bypass t ≡ true
    → t ≢ []
    → InList t (property (codes "audit_bypass") (render_block block))
bypass-InList block t h n =
    in_list (property-render_block block t h) (Holds-values_of t block.audit_bypass h)
      (nonempty t n)

eq_of_stage_eq : (s stage : Stage) → stage_eq s stage ≡ true → s ≡ stage
eq_of_stage_eq preinstall stage h = ground arith
eq_of_stage_eq install stage h = ground arith
eq_of_stage_eq postinstall stage h = ground arith
eq_of_stage_eq prepare stage h = ground arith

stage_listed :
    (pkg : PackageBlock) (stage : Stage) (block : LifecycleBlock)
    → stage_block stage pkg ≡ some block
    → Memᴰ stage (map (λ (p : Stage × LifecycleBlock). p.0) pkg)
unfolding stage_block
stage_listed [] stage block h = cc
stage_listed ((s, b) ∷ pkg) stage block h = elim (Bool-cases (stage_eq s stage)) [
  | inl e ↦ Memᴰ.head (sym (eq_of_stage_eq s stage e))
  | inr e ↦ Memᴰ.tail (stage_listed pkg stage block (ground arith))
]

Has-add_block :
    (stage : Stage) (o : Option LifecycleBlock) (key : Text) (v : Value) (ms : Members)
    → Has key v ms
    → Has key v (add_block stage o ms)
Has-add_block stage none key v ms h = h
Has-add_block stage (some b) key v ms h = Has.later h

Has-stage_members :
    (pkg : PackageBlock) (stages : List Stage) (stage : Stage) (block : LifecycleBlock)
    → stage_block stage pkg ≡ some block
    → Memᴰ stage stages
    → Has (stage_name stage) (render_block block) (stage_members pkg stages)
unfolding stage_members
Has-stage_members pkg [] stage block h m = elim m [ ]
Has-stage_members pkg (s ∷ stages) stage block h (Memᴰ.head e) =
    subst
      (λ x.
        Has (stage_name stage) (render_block block)
          (add_block x (stage_block x pkg) (stage_members pkg stages)))
      e (rw h (Has.here refl refl))
Has-stage_members pkg (s ∷ stages) stage block h (Memᴰ.tail m) =
    Has-add_block s (stage_block s pkg) _ _ _ (Has-stage_members pkg stages stage block h m)

package_listed :
    (packages : Packages) (key : Text) (pkg : PackageBlock)
    → lookup key packages ≡ some pkg
    → Memᴰ key (map (λ (p : Text × PackageBlock). p.0) packages)
unfolding lookup
package_listed [] key pkg h = cc
package_listed ((k, p) ∷ packages) key pkg h = elim (Bool-cases (text_eq k key)) [
  | inl e ↦ Memᴰ.head (sym (eq_of_text_eq k key e))
  | inr e ↦ Memᴰ.tail (package_listed packages key pkg (ground arith))
]

Has-add_package :
    (k : Text) (o : Option PackageBlock) (key : Text) (v : Value) (ms : Members)
    → Has key v ms
    → Has key v (add_package k o ms)
Has-add_package k none key v ms h = h
Has-add_package k (some p) key v ms h = elim (Bool-cases (text_eq k proto_key)) [
  | inl e ↦ rw e h
  | inr e ↦ rw e (Has.later h)
]

not_proto : (key : Text) → key ≢ proto_key → text_eq key proto_key ≡ false
not_proto key n = elim (Bool-cases (text_eq key proto_key)) [
  | inl e ↦ absurd (n (eq_of_text_eq key proto_key e))
  | inr e ↦ e
]

Has-package_members :
    (packages : Packages) (keys : List Text) (key : Text) (pkg : PackageBlock)
    → key ≢ proto_key
    → lookup key packages ≡ some pkg
    → Memᴰ key keys
    → Has key (render_package pkg) (package_members packages keys)
unfolding package_members
Has-package_members packages [] key pkg n h m = elim m [ ]
Has-package_members packages (k ∷ keys) key pkg n h (Memᴰ.head e) =
    subst
      (λ x.
        Has key (render_package pkg)
          (add_package x (lookup x packages) (package_members packages keys)))
      e (rw (h, not_proto key n) (Has.here refl refl))
Has-package_members packages (k ∷ keys) key pkg n h (Memᴰ.tail m) =
    Has-add_package k (lookup k packages) _ _ _ (Has-package_members packages keys key pkg n h m)

lifecycle-render_package :
    (pkg : PackageBlock)
    → property (codes "lifecycle") (render_package pkg)
      ≡ some (
          object
            (stage_members pkg (sort_by earlier (map (λ (p : Stage × LifecycleBlock). p.0) pkg))))
unfolding property render_package member text_eq
lifecycle-render_package pkg = refl

packages-render_doc :
    (input : RenderInput)
    → property (codes "packages") (render_doc input)
      ≡ some (
          object (
            package_members input.packages
              (sort_by text_lt (map (λ (p : Text × PackageBlock). p.0) input.packages))))
unfolding property render_doc render_packages member text_eq
packages-render_doc input = refl

entries_of-object : (ms : Members) → entries_of (object ms) ≡ some ms
unfolding entries_of
entries_of-object ms = refl

no_stage : (stage : Stage) → stage_block stage [] ≡ none
unfolding stage_block
no_stage stage = refl

stages_of-lookup :
    (pkg : Text) (stage : Stage) (out : Packages) (block : LifecycleBlock)
    → lookup_block pkg stage out ≡ some block
    → (stages : PackageBlock) × (lookup pkg out ≡ some stages)
      × (stage_block stage stages ≡ some block)
unfolding stages_of lookup
stages_of-lookup pkg stage [] block h = absurd (cc (no_stage stage))
stages_of-lookup pkg stage ((p, stages) ∷ out) block h = elim (Bool-cases (text_eq p pkg)) [
  | inl e ↦ (stages, rw e refl, ground arith)
  | inr e ↦
      let (found, at_key, here) = stages_of-lookup pkg stage out block (ground arith) in
      (found, rw e at_key, here)
]

none_in_empty :
    (pkg : Text) (stage : Stage) (out : Packages) (t : Text)
    → lookup_block pkg stage out ≡ none
    → contains (list_of pkg stage Field.audit_bypass out) t ≡ false
unfolding contains
none_in_empty pkg stage out t h = rw h refl

some_in_block :
    (pkg : Text) (stage : Stage) (out : Packages) (block : LifecycleBlock)
    → lookup_block pkg stage out ≡ some block
    → list_of pkg stage Field.audit_bypass out ≡ block.audit_bypass
some_in_block pkg stage out block h = rw h refl

-- What stands on an `audit_bypass` list of the blocks, and is not empty, the document lists under the
-- same package and stage, if the package is not named by the key of the prototype.
pub bypass-IsListed :
    (input : RenderInput) (pkg : Text) (stage : Stage) (t : Text)
    → pkg ≢ proto_key
    → contains (list_of pkg stage Field.audit_bypass input.packages) t ≡ true
    → t ≢ []
    → IsListed
        (codes "audit_bypass")
        (record { package_id = pkg; stage = stage_name stage; entry = t })
        (property (codes "packages") (render_doc input))
bypass-IsListed input pkg stage t named h n =
    elim (Option-cases (lookup_block pkg stage input.packages)) [
      | inl e ↦ absurd (cc (none_in_empty pkg stage input.packages t e))
      | inr (block, e) ↦
          let (stages, at_key, here) = stages_of-lookup pkg stage input.packages block e in
          let held : contains block.audit_bypass t ≡ true =
            ap (λ ts. contains ts t) (sym (some_in_block pkg stage input.packages block e)) ∙ h in
          inside (packages-render_doc input) (entries_of-object _) (
            in_packages
              (Has-package_members input.packages _ pkg stages named at_key
                (mem-sort_by text_lt _ (package_listed input.packages pkg stages at_key)))
              (inside (lifecycle-render_package stages) (entries_of-object _) (
                in_stages
                  (Has-stage_members stages _ stage block here
                    (mem-sort_by earlier _ (stage_listed stages stage block here)))
                  (bypass-InList block t held n))))
    ]
