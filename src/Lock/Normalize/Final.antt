-- ===== src/Lock/Normalize/Final.antt =====
-- What `normalize` returns: for each package and stage the lists of the recorded entries, ascending
-- and with no duplicates.
use script_jail.Base.{
  Bool, true, false, List, [], Text, contains, any, canonical, contains-canonical,
  canonical-IsAscending, IsAscending, ok, >>=-eq-ok, ◌≡◌, refl, sym, ap, ◌∙◌, arith, Option-cases,
  inl, inr, subst,
}
use script_jail.Lock.Schema.{Stage, Field, LifecycleBlock, Packages, get, AttributedEvent}
use script_jail.Lock.Tokenize.{canonicalize_tokenize_roots}
use script_jail.Lock.Normalize.{NormalizeContext, run, normalize}
use script_jail.Lock.Normalize.Wrappers.{drop_redundant_shell_wrappers}
use script_jail.Lock.Normalize.Blocks.{
  empty_block, lookup_block, stages_of, stage_block, finish_block, finish, sort_and_dedupe,
}
use script_jail.Lock.Normalize.Exact.{list_of, adds, contains-run, lookup_block-finish}

abbrev pub is_spawn_list : Field → Bool
is_spawn_list Field.external_reads = false
is_spawn_list Field.escaped_writes = false
is_spawn_list Field.env_read = false
is_spawn_list Field.spawn_attempts = true
is_spawn_list Field.spawn_blocked = true
is_spawn_list Field.dlopen_attempts = false
is_spawn_list Field.network_attempts = false
is_spawn_list Field.audit_bypass = false
is_spawn_list Field.env_tamper = false

pub get-sort_and_dedupe :
    (b : LifecycleBlock) (f : Field) → get (sort_and_dedupe b) f ≡ canonical (get b f)
unfolding sort_and_dedupe
get-sort_and_dedupe b f = ground arith

pub get-wrappers :
    (b : LifecycleBlock) (f : Field)
    → is_spawn_list f ≡ false
    → get (drop_redundant_shell_wrappers b) f ≡ get b f
unfolding drop_redundant_shell_wrappers
get-wrappers b f h = ground arith

pub get-finish_block :
    (b : LifecycleBlock) (f : Field)
    → get (finish_block b) f ≡ canonical (get (drop_redundant_shell_wrappers b) f)
unfolding finish_block
get-finish_block b f = get-sort_and_dedupe (drop_redundant_shell_wrappers b) f

-- `normalize` that returns has run the loop, and finished what the loop left.
pub normalize-eq-ok :
    (events : List AttributedEvent) (ctx : NormalizeContext) (out : Packages)
    → normalize events ctx ≡ ok out
    → (raw : Packages) × (run ctx (canonicalize_tokenize_roots ctx.roots) [] events ≡ ok raw)
      × (finish raw ≡ out)
unfolding normalize
normalize-eq-ok events ctx out h =
    let (raw, ran, done) =
      >>=-eq-ok (run ctx (canonicalize_tokenize_roots ctx.roots) [] events) (λ raw. ok (finish raw))
        h in
    (raw, ran, ground arith)

empty_get : (f : Field) → get empty_block f ≡ []
empty_get f = ground arith

contains-finish :
    (raw : Packages) (pkg : Text) (stage : Stage) (f : Field) (t : Text)
    → is_spawn_list f ≡ false
    → contains (list_of pkg stage f (finish raw)) t ≡ contains (list_of pkg stage f raw) t
contains-finish raw pkg stage f t other = elim (Option-cases (lookup_block pkg stage raw)) [
  | inl e ↦ rw (lookup_block-finish pkg stage raw, e) refl
  | inr (b, e) ↦
      rw (lookup_block-finish pkg stage raw, e)
        (ap (λ xs. contains xs t) (get-finish_block b f)
          ∙ contains-canonical (get (drop_redundant_shell_wrappers b) f) t
          ∙ ap (λ xs. contains xs t) (get-wrappers b f other))
]

nothing_yet :
    (pkg : Text) (stage : Stage) (f : Field) (t : Text)
    → contains (list_of pkg stage f []) t ≡ false
unfolding stages_of stage_block contains
nothing_yet pkg stage f t = ap (λ xs. contains xs t) (empty_get f)

-- Outside the spawn lists a list of the lock holds a text exactly when some event, neither noise nor
-- an artefact of the install, has that entry for the package, the stage and the list.
pub normalize_exact :
    (events : List AttributedEvent) (ctx : NormalizeContext) (out : Packages)
    → normalize events ctx ≡ ok out
    → (pkg : Text) (stage : Stage) (f : Field) (t : Text) → is_spawn_list f ≡ false
    → contains (list_of pkg stage f out) t
      ≡ any (adds ctx (canonicalize_tokenize_roots ctx.roots) pkg stage f t) events
normalize_exact events ctx out h pkg stage f t other =
    let roots = canonicalize_tokenize_roots ctx.roots in
    let (raw, ran, done) = normalize-eq-ok events ctx out h in
    ap (λ o. contains (list_of pkg stage f o) t) (sym done)
    ∙ contains-finish raw pkg stage f t other
    ∙ contains-run ctx roots [] raw events pkg stage f t ran
    ∙ rw (nothing_yet pkg stage f t)

-- Every list of the lock ascends strictly by code units.
pub normalize-IsAscending :
    (events : List AttributedEvent) (ctx : NormalizeContext) (out : Packages)
    → normalize events ctx ≡ ok out
    → (pkg : Text) (stage : Stage) (f : Field) → IsAscending (list_of pkg stage f out)
normalize-IsAscending events ctx out h pkg stage f =
    let (raw, ran, done) = normalize-eq-ok events ctx out h in
    subst (λ o. IsAscending (list_of pkg stage f o)) done
      (elim (Option-cases (lookup_block pkg stage raw)) [
        | inl e ↦
            rw (lookup_block-finish pkg stage raw, e) (subst IsAscending (sym (empty_get f)) tt)
        | inr (b, e) ↦
            rw (lookup_block-finish pkg stage raw, e)
              (subst IsAscending (sym (get-finish_block b f))
                (canonical-IsAscending (get (drop_redundant_shell_wrappers b) f)))
      ])
