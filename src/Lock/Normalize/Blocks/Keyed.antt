-- ===== src/Lock/Normalize/Blocks/Keyed.antt =====
-- The maps of the lock have each key once, and no package without a stage.
use script_jail.Base.{
  Bool, true, false, ◌||◌, List, [], ◌∷◌, map, Text, text_eq, text_eq_self, text_eq_iff, contains,
  ◌≡◌, refl, sym, ◌∙◌, ap, subst, inl, inr, arith, Bool-cases,
}
use script_jail.Lock.Schema.{Stage, LifecycleBlock, PackageBlock, Packages}
use script_jail.Lock.Normalize.Entries.{Entry}
use script_jail.Lock.Normalize.Blocks.{
  stage_eq, push_all, update_stage, update_package, record_entries, finish_package, finish,
}
use script_jail.Lock.Normalize.Blocks.Laws.{stage_eq_lem, stage_eq_self}

abbrev pub stages : PackageBlock → List Stage
stages pkg = map (λ (p : Stage × LifecycleBlock). p.0) pkg

abbrev pub keys : Packages → List Text
keys packages = map (λ (p : Text × PackageBlock). p.0) packages

unfoldable pub has_stage : List Stage → Stage → Bool
has_stage [] s = false
has_stage (x ∷ xs) s = stage_eq x s || has_stage xs s

abbrev pub AreDistinct : List Stage → Type 0
AreDistinct [] = Unit
AreDistinct (x ∷ xs) = (has_stage xs x ≡ false) × AreDistinct xs

abbrev pub is_nonempty : PackageBlock → Bool
is_nonempty [] = false
is_nonempty (p ∷ pkg) = true

abbrev pub IsKeyed : Packages → Type 0
IsKeyed [] = Unit
IsKeyed ((p, pkg) ∷ rest) =
    (contains (keys rest) p ≡ false)
    × (is_nonempty pkg ≡ true)
    × AreDistinct (stages pkg)
    × IsKeyed rest

has_stage-update_stage :
    (stage s : Stage) (f : LifecycleBlock → LifecycleBlock) (pkg : PackageBlock)
    → has_stage (stages (update_stage stage f pkg)) s
      ≡ (has_stage (stages pkg) s || stage_eq stage s)
unfolding has_stage update_stage
has_stage-update_stage stage s f [] = ground arith
has_stage-update_stage stage s f ((r, block) ∷ rest) =
    ground (arith, has_stage-update_stage stage s f rest, stage_eq_lem r stage)

update_stage-AreDistinct :
    (stage : Stage) (f : LifecycleBlock → LifecycleBlock) (pkg : PackageBlock)
    → AreDistinct (stages pkg)
    → AreDistinct (stages (update_stage stage f pkg))
unfolding update_stage has_stage
update_stage-AreDistinct stage f [] _ = (refl, tt)
update_stage-AreDistinct stage f ((r, block) ∷ rest) (new, h) =
    elim (Bool-cases (stage_eq r stage)) [
      | inl e ↦ rw e (new, h)
      | inr e ↦ rw e (
        ground (
          arith,
          has_stage-update_stage stage r f rest,
          stage_eq_lem stage r,
          stage_eq_self stage,
        ),
        update_stage-AreDistinct stage f rest h,
      )
    ]

update_stage_nonempty :
    (stage : Stage) (f : LifecycleBlock → LifecycleBlock) (pkg : PackageBlock)
    → is_nonempty (update_stage stage f pkg) ≡ true
unfolding update_stage
update_stage_nonempty stage f [] = refl
update_stage_nonempty stage f ((r, block) ∷ rest) = elim (Bool-cases (stage_eq r stage)) [
  | inl e ↦ rw e refl
  | inr e ↦ rw e refl
]

contains-update_package :
    (pkg p : Text) (f : PackageBlock → PackageBlock) (out : Packages)
    → contains (keys (update_package pkg f out)) p ≡ (contains (keys out) p || text_eq pkg p)
unfolding contains update_package
contains-update_package pkg p f [] = ground arith
contains-update_package pkg p f ((q, block) ∷ rest) =
    ground (arith, contains-update_package pkg p f rest, text_eq_iff q pkg)

pub record_entries-IsKeyed :
    (pkg : Text) (stage : Stage) (es : List Entry) (out : Packages)
    → IsKeyed out
    → IsKeyed (record_entries pkg stage es out)
unfolding record_entries update_package contains
record_entries-IsKeyed pkg stage es [] _ = (
  refl,
  update_stage_nonempty stage (push_all es) [],
  update_stage-AreDistinct stage (push_all es) [] tt,
  tt,
)
record_entries-IsKeyed pkg stage es ((q, block) ∷ rest) (new, some_stage, distinct, h) =
    elim (Bool-cases (text_eq q pkg)) [
      | inl e ↦ rw e (
        new,
        update_stage_nonempty stage (push_all es) block,
        update_stage-AreDistinct stage (push_all es) block distinct,
        h,
      )
      | inr e ↦ rw e (
        ground (
          arith,
          contains-update_package pkg q (update_stage stage (push_all es)) rest,
          text_eq_iff pkg q,
          text_eq_self pkg,
        ),
        some_stage,
        distinct,
        record_entries-IsKeyed pkg stage es rest h,
      )
    ]

stages-finish_package : (pkg : PackageBlock) → stages (finish_package pkg) ≡ stages pkg
unfolding finish_package
stages-finish_package [] = refl
stages-finish_package ((s, block) ∷ rest) = ap (λ xs. s ∷ xs) (stages-finish_package rest)

nonempty-finish_package : (pkg : PackageBlock) → is_nonempty (finish_package pkg) ≡ is_nonempty pkg
unfolding finish_package
nonempty-finish_package [] = refl
nonempty-finish_package ((s, block) ∷ rest) = refl

keys-finish : (out : Packages) → keys (finish out) ≡ keys out
unfolding finish
keys-finish [] = refl
keys-finish ((p, pkg) ∷ rest) = ap (λ xs. p ∷ xs) (keys-finish rest)

pub finish-IsKeyed : (out : Packages) → IsKeyed out → IsKeyed (finish out)
unfolding finish
finish-IsKeyed [] _ = tt
finish-IsKeyed ((p, pkg) ∷ rest) (new, some_stage, distinct, h) = (
  ap (λ xs. contains xs p) (keys-finish rest) ∙ new,
  nonempty-finish_package pkg ∙ some_stage,
  subst AreDistinct (sym (stages-finish_package pkg)) distinct,
  finish-IsKeyed rest h,
)
