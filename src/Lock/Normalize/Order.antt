-- ===== src/Lock/Normalize/Order.antt =====
-- The lock, of events in any order.
use mathlib.Core.List.{Perm, Permᴰ}
use mathlib.Core.Logic.{∥∥₁_elim}
use mathlib.Core.Bool.{Bool-set}
use mathlib.Core.Option
use script_jail.Base.{
  Bool, true, false, not, ◌||◌, List, [], Option, none, some, Text, contains, contains-append, any,
  canonical-eq, ok, Bool-ext, ◌≡◌, refl, sym, ap, ◌∙◌, arith,
}
use script_jail.Lock.Schema.{Stage, Field, LifecycleBlock, Packages, get, AttributedEvent}
use script_jail.Lock.Tokenize.{TokenizeRoots, canonicalize_tokenize_roots}
use script_jail.Lock.Normalize.{NormalizeContext, run, normalize}
use script_jail.Lock.Normalize.Wrappers.{
  parse_blocked_spawn, unwrap_sh_c, blocked_commands, direct_commands, is_kept, keep_parsed,
  drop_redundant_shell_wrappers,
}
use script_jail.Lock.Normalize.Wrappers.Laws.{
  blocked_commands_sound, blocked_commands_complete, contains-left_attempts, contains-left_blocked,
}
use script_jail.Lock.Normalize.Blocks.{lookup_block, finish_block, finish}
use script_jail.Lock.Normalize.Blocks.Laws.{or_empty}
use script_jail.Lock.Normalize.Exact.{
  list_of, is_some, touches, adds, contains-run, is_some-run, lookup_block-finish,
}
use script_jail.Lock.Normalize.Errors.{
  event_error, first_error, is_some-first_error, normalize_total, no_error,
}
use script_jail.Lock.Normalize.Final.{
  is_spawn_list, get-wrappers, get-finish_block, normalize-eq-ok,
}

-- The lists of two blocks have the same members.
abbrev SameMembers : LifecycleBlock → LifecycleBlock → Type 0
SameMembers b b' = (f : Field) (t : Text) → contains (get b f) t ≡ contains (get b' f) t

block_ext : (b b' : LifecycleBlock) → ((f : Field) → get b f ≡ get b' f) → b ≡ b'
block_ext b b' h = λ i. record {
  external_reads = h Field.external_reads i;
  escaped_writes = h Field.escaped_writes i;
  env_read = h Field.env_read i;
  spawn_attempts = h Field.spawn_attempts i;
  spawn_blocked = h Field.spawn_blocked i;
  dlopen_attempts = h Field.dlopen_attempts i;
  network_attempts = h Field.network_attempts i;
  audit_bypass = h Field.audit_bypass i;
  env_tamper = h Field.env_tamper i;
}

blocked_same :
    (xs ys : List Text)
    → ((t : Text) → contains xs t ≡ contains ys t)
    → (c : Text) → contains (blocked_commands xs) c ≡ true
    → contains (blocked_commands ys) c ≡ true
blocked_same xs ys h c m =
    let (e, listed, p) = blocked_commands_sound xs c m in
    blocked_commands_complete ys e c (sym (h e) ∙ listed) p

module _ (b b' : LifecycleBlock) (same : SameMembers b b') where
  direct_same : (c : Text) → contains (direct_commands b) c ≡ contains (direct_commands b') c
  unfolding direct_commands
  direct_same c =
      contains-append b.spawn_attempts (blocked_commands b.spawn_blocked) c
      ∙ rw
          (
            same Field.spawn_attempts c,
            Bool-ext (contains (blocked_commands b.spawn_blocked) c)
                (contains (blocked_commands b'.spawn_blocked) c)
                (blocked_same b.spawn_blocked b'.spawn_blocked (same Field.spawn_blocked) c)
                (blocked_same b'.spawn_blocked b.spawn_blocked
                  (λ t. sym (same Field.spawn_blocked t)) c),
          )
          (sym (contains-append b'.spawn_attempts (blocked_commands b'.spawn_blocked) c))

  kept_same : (o : Option Text) → is_kept (direct_commands b) o ≡ is_kept (direct_commands b') o
  kept_same none = refl
  kept_same (some c) = ap not (direct_same c)

  parsed_same :
      (o : Option Text) → keep_parsed (direct_commands b) o ≡ keep_parsed (direct_commands b') o
  parsed_same none = refl
  parsed_same (some c) = kept_same (unwrap_sh_c c)

  plain_same :
      (f : Field)
      → is_spawn_list f ≡ false
      → (t : Text)
      → contains (get (drop_redundant_shell_wrappers b) f) t
        ≡ contains (get (drop_redundant_shell_wrappers b') f) t
  plain_same f h t =
      ap (λ xs. contains xs t) (get-wrappers b f h)
      ∙ same f t
      ∙ ap (λ xs. contains xs t) (sym (get-wrappers b' f h))

  wrappers_same : SameMembers (drop_redundant_shell_wrappers b) (drop_redundant_shell_wrappers b')
  wrappers_same Field.external_reads = plain_same Field.external_reads refl
  wrappers_same Field.escaped_writes = plain_same Field.escaped_writes refl
  wrappers_same Field.env_read = plain_same Field.env_read refl
  wrappers_same Field.spawn_attempts = λ t.
      contains-left_attempts b t
      ∙ rw (same Field.spawn_attempts t, kept_same (unwrap_sh_c t))
          (sym (contains-left_attempts b' t))
  wrappers_same Field.spawn_blocked = λ t.
      contains-left_blocked b t
      ∙ rw (same Field.spawn_blocked t, parsed_same (parse_blocked_spawn t))
          (sym (contains-left_blocked b' t))
  wrappers_same Field.dlopen_attempts = plain_same Field.dlopen_attempts refl
  wrappers_same Field.network_attempts = plain_same Field.network_attempts refl
  wrappers_same Field.audit_bypass = plain_same Field.audit_bypass refl
  wrappers_same Field.env_tamper = plain_same Field.env_tamper refl

  -- Blocks whose lists have the same members are finished alike.
  finish_block_same : finish_block b ≡ finish_block b'
  finish_block_same = block_ext (finish_block b) (finish_block b') λ f.
      get-finish_block b f
      ∙ canonical-eq (get (drop_redundant_shell_wrappers b) f)
          (get (drop_redundant_shell_wrappers b') f) (wrappers_same f)
      ∙ sym (get-finish_block b' f)

finish_option :
    (o o' : Option LifecycleBlock)
    → is_some o ≡ is_some o'
    → SameMembers (or_empty o) (or_empty o')
    → Option.map finish_block o ≡ Option.map finish_block o'
finish_option none none e h = refl
finish_option none (some b) e h = cc
finish_option (some b) none e h = cc
finish_option (some b) (some b') e h = ap some (finish_block_same b b' h)

-- Lists of events over which every test gives the same answer.
abbrev SameEvents : List AttributedEvent → List AttributedEvent → Type 0
SameEvents events events' = (p : AttributedEvent → Bool) → any p events ≡ any p events'

swap_or : (a b c : Bool) → (a || (b || c)) ≡ (b || (a || c))
swap_or a b c = ground arith

any-permᴰ :
    {events events' : List AttributedEvent}
    → Permᴰ events events'
    → (p : AttributedEvent → Bool) → any p events ≡ any p events'
any-permᴰ Permᴰ.nil p = refl
any-permᴰ (Permᴰ.cons e r) p = rw (ap p e, any-permᴰ r p)
any-permᴰ (Permᴰ.swap {a} {b} {l} e f) p = swap_or (p a) (p b) (any p l) ∙ rw (ap p e, ap p f)
any-permᴰ (Permᴰ.trans r s) p = any-permᴰ r p ∙ any-permᴰ s p

perm-SameEvents :
    (events events' : List AttributedEvent) → Perm events events' → SameEvents events events'
perm-SameEvents events events' h p =
    ∥∥₁_elim h (Bool-set (any p events) (any p events')) (λ r. any-permᴰ r p)

none_of_not_some {ℓ} : {A : Type ℓ} (o : Option A) → is_some o ≡ false → o ≡ none
none_of_not_some none h = refl
none_of_not_some (some a) h = cc

module _ (events events' : List AttributedEvent) (ctx : NormalizeContext)
    (same : SameEvents events events') where
  abbrev roots : TokenizeRoots
  roots = canonicalize_tokenize_roots ctx.roots

  -- The other order throws no error if this one throws none.
  also_returns :
      (out : Packages)
      → normalize events ctx ≡ ok out
      → (out' : Packages) × (normalize events' ctx ≡ ok out')
  also_returns out h = normalize_total events' ctx (
      none_of_not_some (first_error ctx roots events') (
        is_some-first_error ctx roots events'
        ∙ sym (same (λ ev. is_some (event_error ctx roots ev)))
        ∙ sym (is_some-first_error ctx roots events)
        ∙ ap is_some (no_error events ctx out h)))

  raw_same :
      (raw raw' : Packages)
      → run ctx roots [] events ≡ ok raw
      → run ctx roots [] events' ≡ ok raw'
      → (pkg : Text) (stage : Stage)
      → lookup_block pkg stage (finish raw) ≡ lookup_block pkg stage (finish raw')
  raw_same raw raw' h h' pkg stage =
      let there : is_some (lookup_block pkg stage raw) ≡ is_some (lookup_block pkg stage raw') =
        is_some-run ctx roots [] raw events pkg stage h
        ∙ rw (same (touches ctx roots pkg stage))
            (sym (is_some-run ctx roots [] raw' events' pkg stage h')) in
      let members : (f : Field) (t : Text)
          → contains (list_of pkg stage f raw) t ≡ contains (list_of pkg stage f raw') t =
        λ f t.
          contains-run ctx roots [] raw events pkg stage f t h
          ∙ rw (same (adds ctx roots pkg stage f t))
              (sym (contains-run ctx roots [] raw' events' pkg stage f t h')) in
      lookup_block-finish pkg stage raw
      ∙ finish_option (lookup_block pkg stage raw) (lookup_block pkg stage raw') there members
      ∙ sym (lookup_block-finish pkg stage raw')

-- The lock does not depend on the order of the events: if `normalize` returns, it returns on every
-- permutation of them, with the same block for each package and stage.
pub normalize_order :
    (events events' : List AttributedEvent) (ctx : NormalizeContext) (out : Packages)
    → Perm events events'
    → normalize events ctx ≡ ok out
    → (out' : Packages) × (normalize events' ctx ≡ ok out')
      × ((pkg : Text) (stage : Stage) → lookup_block pkg stage out ≡ lookup_block pkg stage out')
normalize_order events events' ctx out perm h =
    let same = perm-SameEvents events events' perm in
    let (out', h') = also_returns events events' ctx same out h in
    let (raw, ran, done) = normalize-eq-ok events ctx out h in
    let (raw', ran', done') = normalize-eq-ok events' ctx out' h' in
    (
      out',
      h',
      λ pkg stage.
          ap (lookup_block pkg stage) (sym done)
          ∙ raw_same events events' ctx same raw raw' ran ran' pkg stage
          ∙ ap (lookup_block pkg stage) done',
    )
