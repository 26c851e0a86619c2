-- ===== src/Lock/Normalize/Blocks/Laws.antt =====
-- The blocks as a map from packages and stages to lists of texts: what a push changes, and what it
-- leaves.
use script_jail.Base.{
  Bool, true, ◌&&◌, ◌||◌, List, [], ◌∷◌, ◌++◌, ℕ, Option, none, some, Text, text_eq, text_eq_iff,
  text_eq_self, contains, contains-append, any, ◌==◌, if◌then◌else◌, ◌≡◌, refl, ap, ◌∙◌, arith,
  Bool-cases, inl, inr,
}
use script_jail.Lock.Schema.{
  Stage, preinstall, install, postinstall, prepare, Field, LifecycleBlock, PackageBlock, Packages,
  get,
}
use script_jail.Lock.Normalize.Entries.{Entry}
use script_jail.Lock.Normalize.Blocks.{
  stage_eq, empty_block, push, push_all, update_stage, update_package, record_entries, stage_block,
  stages_of, lookup_block,
}

abbrev index : Field → ℕ
index Field.external_reads = 0
index Field.escaped_writes = 1
index Field.env_read = 2
index Field.spawn_attempts = 3
index Field.spawn_blocked = 4
index Field.dlopen_attempts = 5
index Field.network_attempts = 6
index Field.audit_bypass = 7
index Field.env_tamper = 8

abbrev pub field_eq : Field → Field → Bool
field_eq f g = index f == index g

pub stage_eq_lem : (a b : Stage) → stage_eq a b ≡ true → a ≡ b
stage_eq_lem preinstall preinstall h = refl
stage_eq_lem install install h = refl
stage_eq_lem postinstall postinstall h = refl
stage_eq_lem prepare prepare h = refl
stage_eq_lem _ _ h = cc

pub stage_eq_self : (a : Stage) → stage_eq a a ≡ true
stage_eq_self preinstall = refl
stage_eq_self install = refl
stage_eq_self postinstall = refl
stage_eq_self prepare = refl

pub field_eq_self : (f : Field) → field_eq f f ≡ true
field_eq_self Field.external_reads = refl
field_eq_self _ = refl

get-push :
    (b : LifecycleBlock) (g f : Field) (u : Text)
    → get (push b (g, u)) f ≡ (if field_eq g f then get b f ++ u ∷ [] else get b f)
unfolding push
get-push b g f u = ground arith

-- a push of `t` on the list `f` is among the entries
abbrev pub has_entry : Field → Text → List Entry → Bool
has_entry f t es = any (λ (e : Entry). field_eq e.0 f && text_eq e.1 t) es

contains_one : (u t : Text) → contains (u ∷ []) t ≡ text_eq u t
unfolding contains
contains_one u t = ground arith

contains-push :
    (b : LifecycleBlock) (g f : Field) (u t : Text)
    → contains (get (push b (g, u)) f) t ≡ (contains (get b f) t || (field_eq g f && text_eq u t))
contains-push b g f u t = elim (Bool-cases (field_eq g f)) [
  | inl e ↦ rw (get-push b g f u, e, contains-append (get b f) (u ∷ []) t, contains_one u t)
  | inr e ↦ rw (get-push b g f u, e) (ground arith)
]

push_all_cons :
    (e : Entry) (es : List Entry) (b : LifecycleBlock)
    → push_all (e ∷ es) b ≡ push_all es (push b e)
unfolding push_all
push_all_cons e es b = refl

-- Pushing adds the entries of each list to it, and nothing else.
pub contains-push_all :
    (es : List Entry) (b : LifecycleBlock) (f : Field) (t : Text)
    → contains (get (push_all es b) f) t ≡ (contains (get b f) t || has_entry f t es)
contains-push_all [] b f t = unfold push_all in ground arith
contains-push_all ((g, u) ∷ es) b f t =
    ap (λ (c : LifecycleBlock). contains (get c f) t) (push_all_cons (g, u) es b)
    ∙ contains-push_all es (push b (g, u)) f t
    ∙ rw (contains-push b g f u t) (ground arith)

abbrev pub or_empty : Option LifecycleBlock → LifecycleBlock
or_empty none = empty_block
or_empty (some b) = b

stage_block-update_stage :
    (stage s : Stage) (f : LifecycleBlock → LifecycleBlock) (stages : PackageBlock)
    → stage_block s (update_stage stage f stages) ≡ (
        if stage_eq stage s
        then some (f (or_empty (stage_block s stages)))
        else stage_block s stages)
unfolding stage_block update_stage
stage_block-update_stage stage s f [] = ground arith
stage_block-update_stage stage s f ((r, block) ∷ rest) = ground (
  arith,
  stage_block-update_stage stage s f rest,
  stage_eq_lem r stage,
  stage_eq_lem r s,
  stage_eq_lem stage s,
  stage_eq_self s,
  stage_eq_self r,
)

stages_of-update_package :
    (pkg p : Text) (f : PackageBlock → PackageBlock) (out : Packages)
    → stages_of p (update_package pkg f out)
      ≡ (if text_eq pkg p then f (stages_of p out) else stages_of p out)
unfolding stages_of update_package
stages_of-update_package pkg p f [] = ground arith
stages_of-update_package pkg p f ((q, stages) ∷ rest) = ground (
  arith,
  stages_of-update_package pkg p f rest,
  text_eq_iff q pkg,
  text_eq_iff q p,
  text_eq_iff pkg p,
  text_eq_self p,
)

-- Recording changes the block of its package and stage, and makes it if need be.
pub lookup_block-record_entries :
    (pkg p : Text) (stage s : Stage) (es : List Entry) (out : Packages)
    → lookup_block p s (record_entries pkg stage es out) ≡ (
        if text_eq pkg p && stage_eq stage s
        then some (push_all es (or_empty (lookup_block p s out)))
        else lookup_block p s out)
unfolding record_entries
lookup_block-record_entries pkg p stage s es out = elim (Bool-cases (text_eq pkg p)) [
  | inl e ↦
      rw (stages_of-update_package pkg p (update_stage stage (push_all es)) out, e)
        (stage_block-update_stage stage s (push_all es) (stages_of p out))
  | inr e ↦ rw (stages_of-update_package pkg p (update_stage stage (push_all es)) out, e)
]
