-- ===== src/Lock/Render/Order.antt =====
-- The printed lock, of events in any order.
use mathlib.Core.List.{Perm}
use script_jail.Base.{
  Bool, true, false, ◌||◌, List, [], ◌∷◌, some, Text, codes, text_eq, text_eq_self, text_lt,
  contains, lookup, sort_by, insert_by, sort_by-IsAscending, contains-sort_by, IsNodup,
  IsAscending-unique, ok, ◌≡◌, refl, sym, ◌∙◌, ap, subst, inl, inr, arith, Bool-cases, Bool-ext,
  if◌then◌else◌, All, All-imp, All-sort_by,
}
use script_jail.Lock.Schema.{
  Stage, preinstall, install, postinstall, prepare, PackageBlock, Packages, AttributedEvent,
}
use script_jail.Lock.Tokenize.{TokenizeRoots, canonicalize_tokenize_roots}
use script_jail.Lock.Normalize.{NormalizeContext, run, step, place, normalize}
use script_jail.Lock.Normalize.Entries.{entries}
use script_jail.Lock.Normalize.Exact.{is_some, is_recorded, step_ok, run_cons}
use script_jail.Lock.Normalize.Final.{normalize-eq-ok}
use script_jail.Lock.Normalize.Order.{normalize_order}
use script_jail.Lock.Normalize.Blocks.{stage_block, stages_of, lookup_block}
use script_jail.Lock.Normalize.Blocks.Keyed.{
  stages, keys, has_stage, AreDistinct, is_nonempty, IsKeyed, record_entries-IsKeyed,
  finish-IsKeyed,
}
use script_jail.Lock.Normalize.Blocks.Laws.{stage_eq_self}
use script_jail.Lock.Render.{
  RenderInput, earlier, add_block, stage_members, render_package, add_package, package_members,
  render_packages, render_doc, render,
}
use script_jail.Action.Value.{Value, object, Members, proto_key}

-- The stages that are there, in the order of the lifecycle.
abbrev cons_if : Bool → Stage → List Stage → List Stage
cons_if true s rest = s ∷ rest
cons_if false s rest = rest

abbrev pick : Bool → Bool → Bool → Bool → List Stage
pick a b c d =
    cons_if a preinstall (cons_if b install (cons_if c postinstall (cons_if d prepare [])))

insert_preinstall :
    (b c d : Bool) → insert_by earlier preinstall (pick false b c d) ≡ pick true b c d
unfolding insert_by
insert_preinstall b c d = ground arith

insert_install : (a c d : Bool) → insert_by earlier install (pick a false c d) ≡ pick a true c d
unfolding insert_by
insert_install a c d = ground arith

insert_postinstall :
    (a b d : Bool) → insert_by earlier postinstall (pick a b false d) ≡ pick a b true d
unfolding insert_by
insert_postinstall a b d = ground arith

insert_prepare : (a b c : Bool) → insert_by earlier prepare (pick a b c false) ≡ pick a b c true
unfolding insert_by
insert_prepare a b c = ground arith

abbrev picked : List Stage → List Stage
picked xs =
    pick (has_stage xs preinstall) (has_stage xs install) (has_stage xs postinstall)
      (has_stage xs prepare)

insert_picked :
    (x : Stage) (xs : List Stage)
    → has_stage xs x ≡ false
    → insert_by earlier x (picked xs) ≡ picked (x ∷ xs)
unfolding has_stage
insert_picked preinstall xs new = rw new (insert_preinstall _ _ _)
insert_picked install xs new = rw new (insert_install _ _ _)
insert_picked postinstall xs new = rw new (insert_postinstall _ _ _)
insert_picked prepare xs new = rw new (insert_prepare _ _ _)

sort_by-picked : (xs : List Stage) → AreDistinct xs → sort_by earlier xs ≡ picked xs
unfolding sort_by has_stage
sort_by-picked [] _ = refl
sort_by-picked (x ∷ xs) (new, h) =
    ap (insert_by earlier x) (sort_by-picked xs h) ∙ insert_picked x xs new

has_stage-stage_block :
    (s : Stage) (pkg : PackageBlock) → has_stage (stages pkg) s ≡ is_some (stage_block s pkg)
unfolding has_stage stage_block
has_stage-stage_block s [] = refl
has_stage-stage_block s ((r, block) ∷ rest) = ground (arith, has_stage-stage_block s rest)

-- Packages with the same block for each stage are printed alike.
module _ (pkg pkg' : PackageBlock)
    (same : (s : Stage) → stage_block s pkg ≡ stage_block s pkg') where
  stages_same : (s : Stage) → has_stage (stages pkg) s ≡ has_stage (stages pkg') s
  stages_same s =
      has_stage-stage_block s pkg ∙ ap is_some (same s) ∙ sym (has_stage-stage_block s pkg')

  picked_same : picked (stages pkg) ≡ picked (stages pkg')
  picked_same =
      rw (stages_same preinstall, stages_same install, stages_same postinstall, stages_same prepare)
        refl

  stage_members_same : (xs : List Stage) → stage_members pkg xs ≡ stage_members pkg' xs
  stage_members_same [] = unfold stage_members in refl
  stage_members_same (x ∷ xs) =
      stage_members_cons pkg x xs
      ∙ (λ i. add_block x (same x i) (stage_members_same xs i))
      ∙ sym (stage_members_cons pkg' x xs)
    where
      stage_members_cons :
          (p : PackageBlock) (y : Stage) (ys : List Stage)
          → stage_members p (y ∷ ys) ≡ add_block y (stage_block y p) (stage_members p ys)
      stage_members_cons p y ys = unfold stage_members in refl

  render_package_same :
      AreDistinct (stages pkg)
      → AreDistinct (stages pkg')
      → render_package pkg ≡ render_package pkg'
  unfolding render_package
  render_package_same d d' =
      let order : sort_by earlier (stages pkg) ≡ sort_by earlier (stages pkg') =
        sort_by-picked (stages pkg) d ∙ picked_same ∙ sym (sort_by-picked (stages pkg') d') in
      ap (λ m. object (Members.entry (codes "lifecycle") (object m) Members.end))
        (stage_members_same (sort_by earlier (stages pkg)) ∙ ap (stage_members pkg') order)

stages_nonempty :
    (pkg : PackageBlock)
    → is_nonempty pkg ≡ true
    → (s : Stage) × (is_some (stage_block s pkg) ≡ true)
unfolding stage_block
stages_nonempty [] h = cc
stages_nonempty ((s, block) ∷ rest) h = (s, rw (stage_eq_self s) refl)

nonempty_of_stage :
    (s : Stage) (pkg : PackageBlock) → is_some (stage_block s pkg) ≡ true → is_nonempty pkg ≡ true
unfolding stage_block
nonempty_of_stage s [] h = cc
nonempty_of_stage s (p ∷ rest) h = refl

contains_keys :
    (out : Packages) (p : Text)
    → IsKeyed out
    → contains (keys out) p ≡ is_nonempty (stages_of p out)
unfolding contains stages_of
contains_keys [] p _ = refl
contains_keys ((q, pkg) ∷ rest) p (new, some_stage, distinct, h) = elim (Bool-cases (text_eq q p)) [
  | inl e ↦ rw e (sym some_stage)
  | inr e ↦ rw e (contains_keys rest p h)
]

lookup_stages :
    (out : Packages) (p : Text)
    → contains (keys out) p ≡ true
    → lookup p out ≡ some (stages_of p out)
unfolding contains lookup stages_of
lookup_stages [] p h = cc
lookup_stages ((q, pkg) ∷ rest) p h = elim (Bool-cases (text_eq q p)) [
  | inl e ↦ rw e refl
  | inr e ↦
      let later : contains (keys rest) p ≡ true = rw e at h in rw e (lookup_stages rest p later)
]

stages_of-AreDistinct :
    (out : Packages) (p : Text) → IsKeyed out → AreDistinct (stages (stages_of p out))
unfolding stages_of
stages_of-AreDistinct [] p _ = tt
stages_of-AreDistinct ((q, pkg) ∷ rest) p (new, some_stage, distinct, h) =
    elim (Bool-cases (text_eq q p)) [
      | inl e ↦ rw e distinct
      | inr e ↦ rw e (stages_of-AreDistinct rest p h)
    ]

or-true : (b : Bool) → (b || true) ≡ true
or-true b = ground arith

contains_self : (xs : List Text) → All (λ p. contains xs p ≡ true) xs
unfolding contains
contains_self [] = tt
contains_self (x ∷ xs) = (
  rw (text_eq_self x) refl,
  All-imp (λ p. contains xs p ≡ true) (λ p. contains (x ∷ xs) p ≡ true) xs
      (λ p h. rw h (or-true (text_eq x p))) (contains_self xs),
)

keys-IsNodup : (out : Packages) → IsKeyed out → IsNodup (keys out)
keys-IsNodup [] _ = tt
keys-IsNodup ((q, pkg) ∷ rest) (new, some_stage, distinct, h) = (new, keys-IsNodup rest h)

-- Locks with the same block for each package and stage are printed alike.
module _ (out out' : Packages) (k : IsKeyed out) (k' : IsKeyed out')
    (same : (p : Text) (s : Stage) → lookup_block p s out ≡ lookup_block p s out') where
  key_there :
      (o o' : Packages)
      → IsKeyed o
      → IsKeyed o'
      → ((p : Text) (s : Stage) → lookup_block p s o ≡ lookup_block p s o')
      → (p : Text) → contains (keys o) p ≡ true
      → contains (keys o') p ≡ true
  key_there o o' j j' eq p h =
      let (s, there) = stages_nonempty (stages_of p o) (sym (contains_keys o p j) ∙ h) in
      contains_keys o' p j'
      ∙ nonempty_of_stage s (stages_of p o') (ap is_some (sym (eq p s)) ∙ there)

  keys_same : (p : Text) → contains (keys out) p ≡ contains (keys out') p
  keys_same p =
      Bool-ext (contains (keys out) p) (contains (keys out') p) (key_there out out' k k' same p)
        (key_there out' out k' k (λ q s. sym (same q s)) p)

  sorted_same : sort_by text_lt (keys out) ≡ sort_by text_lt (keys out')
  sorted_same =
      IsAscending-unique (sort_by text_lt (keys out)) (sort_by text_lt (keys out'))
        (sort_by-IsAscending (keys out) (keys-IsNodup out k))
        (sort_by-IsAscending (keys out') (keys-IsNodup out' k'))
        (λ t. contains-sort_by (keys out) t ∙ keys_same t ∙ sym (contains-sort_by (keys out') t))

  add_package_same :
      (p : Text) (rest : Members)
      → contains (keys out) p ≡ true
      → add_package p (lookup p out) rest ≡ add_package p (lookup p out') rest
  add_package_same p rest h =
      let printed =
        render_package_same (stages_of p out) (stages_of p out') (same p)
          (stages_of-AreDistinct out p k) (stages_of-AreDistinct out' p k') in
      rw (lookup_stages out p h, lookup_stages out' p (sym (keys_same p) ∙ h))
        (ap (λ v. if text_eq p proto_key then rest else Members.entry p v rest) printed)

  package_members_same :
      (ps : List Text)
      → All (λ p. contains (keys out) p ≡ true) ps
      → package_members out ps ≡ package_members out' ps
  package_members_same [] _ = unfold package_members in refl
  package_members_same (p ∷ ps) (h, hs) =
      package_members_cons out p ps
      ∙ add_package_same p (package_members out ps) h
      ∙ ap (add_package p (lookup p out')) (package_members_same ps hs)
      ∙ sym (package_members_cons out' p ps)
    where
      package_members_cons :
          (o : Packages) (q : Text) (qs : List Text)
          → package_members o (q ∷ qs) ≡ add_package q (lookup q o) (package_members o qs)
      package_members_cons o q qs = unfold package_members in refl

  render_packages_same : render_packages out ≡ render_packages out'
  unfolding render_packages
  render_packages_same = ap object (
      package_members_same (sort_by text_lt (keys out)) (
        All-sort_by text_lt (λ p. contains (keys out) p ≡ true) (keys out)
          (contains_self (keys out)))
      ∙ ap (package_members out') sorted_same)

  render_doc_same :
      (input : RenderInput)
      → input.packages ≡ out
      → render_doc input ≡ render_doc (record input { packages = out' })
  unfolding render_doc
  render_doc_same input e =
      let printed : render_packages input.packages ≡ render_packages out' =
        ap render_packages e ∙ render_packages_same in
      rw printed refl

module _ (ctx : NormalizeContext) (roots : TokenizeRoots) where
  step-IsKeyed :
      (out out' : Packages) (ev : AttributedEvent)
      → step ctx roots out ev ≡ ok out'
      → IsKeyed out
      → IsKeyed out'
  step-IsKeyed out out' ev h k =
      let e = step_ok ctx roots out out' ev h in
      elim (Bool-cases (is_recorded ctx roots ev)) [
        | inl r ↦
            rw (e, r)
              (record_entries-IsKeyed ev.pkg ev.lifecycle (entries (place ctx roots ev) ev.raw) out
                k)
        | inr r ↦ rw (e, r) k
      ]

  run-IsKeyed :
      (out out' : Packages) (events : List AttributedEvent)
      → run ctx roots out events ≡ ok out'
      → IsKeyed out
      → IsKeyed out'
  run-IsKeyed out out' [] h k = let e : out ≡ out' = unfold run in ground arith in subst IsKeyed e k
  run-IsKeyed out out' (ev ∷ events) h k =
      let (mid, first, rest) = run_cons ctx roots out out' ev events h in
      run-IsKeyed mid out' events rest (step-IsKeyed out mid ev first k)

normalize-IsKeyed :
    (events : List AttributedEvent) (ctx : NormalizeContext) (out : Packages)
    → normalize events ctx ≡ ok out
    → IsKeyed out
normalize-IsKeyed events ctx out h =
    let (raw, ran, done) = normalize-eq-ok events ctx out h in
    subst IsKeyed done (
      finish-IsKeyed raw
        (run-IsKeyed ctx (canonicalize_tokenize_roots ctx.roots) [] raw events ran tt))

-- The printed lock does not depend on the order of the events: if `normalize` returns on some events,
-- it returns on every permutation of them, and the two locks are printed as the same text, whatever
-- prints the document.
pub render_order :
    (events events' : List AttributedEvent) (ctx : NormalizeContext) (input : RenderInput)
    (stringify : Value → Text)
    → Perm events events'
    → normalize events ctx ≡ ok input.packages
    → (out' : Packages) × (normalize events' ctx ≡ ok out')
      × (render stringify input ≡ render stringify (record input { packages = out' }))
render_order events events' ctx input stringify perm h =
    let (out', h', same) = normalize_order events events' ctx input.packages perm h in
    (
      out',
      h',
      ap stringify (
          render_doc_same input.packages out' (normalize-IsKeyed events ctx input.packages h)
            (normalize-IsKeyed events' ctx out' h') same input refl),
    )
