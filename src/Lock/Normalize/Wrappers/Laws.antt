-- ===== src/Lock/Normalize/Wrappers/Laws.antt =====
-- What becomes of the entries of a block when the wrappers are dropped.
use script_jail.Base.{
  true, false, ◌&&◌, ◌||◌, List, [], ◌∷◌, ◌++◌, ℕ, zero, suc, ◌<◌, Option, none, some, Text, length,
  contains, contains-append, contains-filter, contains_here, starts_with, starts_with_sound,
  text_eq, eq_of_text_eq, ◌≡◌, refl, sym, ap, ◌∙◌, subst, arith, Bool-cases, Option-cases, inl, inr,
  or-eq-true, ◌⊎◌,
}
use script_jail.Lock.Schema.{LifecycleBlock}
use script_jail.Lock.Normalize.Wrappers.{
  parse_blocked_spawn, nonempty, sh_c, unwrap_sh_c, add_parsed, blocked_commands, direct_commands,
  keep_command, keep_parsed, drop_redundant_shell_wrappers,
}

contains_cons :
    (x : Text) (xs : List Text) (t : Text) → contains (x ∷ xs) t ≡ (text_eq x t || contains xs t)
unfolding contains
contains_cons x xs t = refl

contains_tail :
    (x : Text) (xs : List Text) (t : Text) → contains xs t ≡ true → contains (x ∷ xs) t ≡ true
contains_tail x xs t h = rw (contains_cons x xs t, h) (ground arith)

contains_nil : (t : Text) → contains [] t ≡ false
unfolding contains
contains_nil t = refl

-- Membership in a list with one more command.
contains-add_parsed :
    (o : Option Text) (cs : List Text) (c : Text)
    → contains (add_parsed o cs) c ≡ true
    → (o ≡ some c) ⊎ (contains cs c ≡ true)
contains-add_parsed none cs c h = inr h
contains-add_parsed (some d) cs c h =
    elim (or-eq-true (text_eq d c) (contains cs c) (sym (contains_cons d cs c) ∙ h)) [
      | inl e ↦ inl (ap some (eq_of_text_eq d c e))
      | inr e ↦ inr e
    ]

blocked_commands_cons :
    (e : Text) (es : List Text)
    → blocked_commands (e ∷ es) ≡ add_parsed (parse_blocked_spawn e) (blocked_commands es)
unfolding blocked_commands
blocked_commands_cons e es = refl

-- A command among those of the blocked entries is that of one of them.
pub blocked_commands_sound :
    (entries : List Text) (c : Text)
    → contains (blocked_commands entries) c ≡ true
    → (e : Text) × (contains entries e ≡ true) × (parse_blocked_spawn e ≡ some c)
blocked_commands_sound [] c h =
    let no : contains (blocked_commands []) c ≡ false = unfold blocked_commands in contains_nil c in
    absurd (cc)
blocked_commands_sound (e ∷ es) c h =
    elim (contains-add_parsed (parse_blocked_spawn e) (blocked_commands es) c
      (ap (λ cs. contains cs c) (sym (blocked_commands_cons e es)) ∙ h)) [
        | inl p ↦ (e, contains_here e es, p)
        | inr m ↦
            let (e', m', p) = blocked_commands_sound es c m in (e', contains_tail e es e' m', p)
      ]

keep_member :
    (o : Option Text) (cs : List Text) (c : Text)
    → contains cs c ≡ true
    → contains (add_parsed o cs) c ≡ true
keep_member none cs c h = h
keep_member (some d) cs c h = contains_tail d cs c h

pub blocked_commands_complete :
    (entries : List Text) (e c : Text)
    → contains entries e ≡ true
    → parse_blocked_spawn e ≡ some c
    → contains (blocked_commands entries) c ≡ true
blocked_commands_complete [] e c m h = absurd (cc (contains_nil e))
blocked_commands_complete (x ∷ es) e c m h =
    elim (or-eq-true (text_eq x e) (contains es e) (sym (contains_cons x es e) ∙ m)) [
      | inl same ↦
          let p : parse_blocked_spawn x ≡ some c =
            ap parse_blocked_spawn (eq_of_text_eq x e same) ∙ h in
          rw (blocked_commands_cons x es, p) (contains_here c (blocked_commands es))
      | inr later ↦ rw (blocked_commands_cons x es) (
          keep_member (parse_blocked_spawn x) (blocked_commands es) c
            (blocked_commands_complete es e c later h))
    ]

unwrap_prefixed : (r : Text) → unwrap_sh_c (sh_c ++ r) ≡ nonempty r
unfolding unwrap_sh_c starts_with
unwrap_prefixed r = refl

nonempty_lem : (r d : Text) → nonempty r ≡ some d → r ≡ d
nonempty_lem [] d h = cc
nonempty_lem (c ∷ r) d h = cc

pub unwrap-shorter : (c d : Text) → unwrap_sh_c c ≡ some d → length d < length c
unwrap-shorter c d h = elim (Bool-cases (starts_with c sh_c)) [
  | inr e ↦ let no : unwrap_sh_c c ≡ none = unfold unwrap_sh_c in rw e in absurd (cc)
  | inl e ↦
      let (r, split) = starts_with_sound c sh_c e in
      let same : r ≡ d =
        nonempty_lem r d (sym (unwrap_prefixed r) ∙ ap unwrap_sh_c (sym split) ∙ h) in
      subst (λ s. length d < length s) (sym split) (omega (arith, ap length same))
]

-- `e` is what `c` comes to when shells in front of it are taken off.
pub data Unwraps : Text → Text → Type 0 where
  self : {c e : Text} → c ≡ e → Unwraps c e
  shell : {c e : Text} (d : Text) → unwrap_sh_c c ≡ some d → Unwraps d e → Unwraps c e

pub direct-cases :
    (b : LifecycleBlock) (c : Text)
    → contains (direct_commands b) c ≡ true
    → (contains b.spawn_attempts c ≡ true) ⊎ (contains (blocked_commands b.spawn_blocked) c ≡ true)
unfolding direct_commands
direct-cases b c h =
    or-eq-true (contains b.spawn_attempts c) (contains (blocked_commands b.spawn_blocked) c)
      (sym (contains-append b.spawn_attempts (blocked_commands b.spawn_blocked) c) ∙ h)

pub direct_of_attempts :
    (b : LifecycleBlock) (c : Text)
    → contains b.spawn_attempts c ≡ true
    → contains (direct_commands b) c ≡ true
unfolding direct_commands
direct_of_attempts b c h =
    rw (contains-append b.spawn_attempts (blocked_commands b.spawn_blocked) c, h)

pub direct_of_blocked :
    (b : LifecycleBlock) (c : Text)
    → contains (blocked_commands b.spawn_blocked) c ≡ true
    → contains (direct_commands b) c ≡ true
unfolding direct_commands
direct_of_blocked b c h =
    rw (contains-append b.spawn_attempts (blocked_commands b.spawn_blocked) c, h) (ground arith)

module _ (block : LifecycleBlock) where
  abbrev direct : List Text
  direct = direct_commands block

  abbrev left : LifecycleBlock
  left = drop_redundant_shell_wrappers block

  pub contains-left_attempts :
      (c : Text)
      → contains left.spawn_attempts c ≡ (contains block.spawn_attempts c && keep_command direct c)
  unfolding drop_redundant_shell_wrappers
  contains-left_attempts c = contains-filter (keep_command direct) block.spawn_attempts c

  pub contains-left_blocked :
      (e : Text)
      → contains left.spawn_blocked e
        ≡ (contains block.spawn_blocked e && keep_parsed direct (parse_blocked_spawn e))
  unfolding drop_redundant_shell_wrappers
  contains-left_blocked e =
      contains-filter (λ entry. keep_parsed direct (parse_blocked_spawn entry)) block.spawn_blocked
        e

  -- A command that the filter keeps is a command of the filtered block.
  kept_survives :
      (c : Text)
      → contains direct c ≡ true
      → keep_command direct c ≡ true
      → contains (direct_commands left) c ≡ true
  kept_survives c m k = elim (direct-cases block c m) [
    | inl a ↦ direct_of_attempts left c (contains-left_attempts c ∙ rw (a, k))
    | inr b ↦
        let (e, listed, p) = blocked_commands_sound block.spawn_blocked c b in
        direct_of_blocked left c (
          blocked_commands_complete left.spawn_blocked e c
            (contains-left_blocked e ∙ rw (listed, p, k)) p)
  ]

  survives :
      (n : ℕ) (c : Text)
      → length c < n
      → contains direct c ≡ true
      → (e : Text) × Unwraps c e × (contains (direct_commands left) e ≡ true)
  survives zero c h m = elim h [ ]
  survives (suc n) c h m = elim (Option-cases (unwrap_sh_c c)) [
    | inl bare ↦ (c, self refl, kept_survives c m (rw bare))
    | inr (d, wrapped) ↦ elim (Bool-cases (contains direct d)) [
      | inr alone ↦ (c, self refl, kept_survives c m (rw (wrapped, alone)))
      | inl inner ↦
          let (e, chain, kept) = survives n d (omega (arith, unwrap-shorter c d wrapped)) inner in
          (e, shell d wrapped chain, kept)
    ]
  ]

  -- A command that the filter drops runs, in a shell, a command that survives.
  dropped_survives :
      (c : Text)
      → keep_command direct c ≡ false
      → (d : Text) × (unwrap_sh_c c ≡ some d)
        × (e : Text) × Unwraps d e
        × (contains (direct_commands left) e ≡ true)
  dropped_survives c k = elim (Option-cases (unwrap_sh_c c)) [
    | inl bare ↦ let kept : true ≡ false = rw bare at k in cc
    | inr (d, wrapped) ↦ elim (Bool-cases (contains direct d)) [
      | inr alone ↦ let kept : true ≡ false = rw (wrapped, alone) at k in cc
      | inl inner ↦
          let (e, chain, held) = survives (suc (length d)) d (omega arith) inner in
          (d, wrapped, e, chain, held)
    ]
  ]

-- The two lists of a block on which commands stand.
pub data SpawnList : Type 0 where
  attempts blocked : SpawnList

abbrev pub entries_in : SpawnList → LifecycleBlock → List Text
entries_in attempts b = b.spawn_attempts
entries_in blocked b = b.spawn_blocked

-- The command of an entry: a blocked one that has no tag, or stands on several lines, has none.
abbrev pub command_in : SpawnList → Text → Option Text
command_in attempts t = some t
command_in blocked t = parse_blocked_spawn t

-- When the wrappers are dropped, each entry of the two lists, of any form, is still on its list, unless
-- its command runs another in a shell, and this one, or what it comes to when shells in front of it are
-- taken off, is still the command of an entry.
pub drop_redundant_shell_wrappers_lem :
    (block : LifecycleBlock) (l : SpawnList) (t : Text)
    → contains (entries_in l block) t ≡ true
    → (contains (entries_in l (drop_redundant_shell_wrappers block)) t ≡ true)
      ⊎ ((c d e : Text) × (command_in l t ≡ some c)
          × (unwrap_sh_c c ≡ some d)
          × Unwraps d e
          × (contains (direct_commands (drop_redundant_shell_wrappers block)) e ≡ true))
drop_redundant_shell_wrappers_lem block attempts t m =
    elim (Bool-cases (keep_command (direct_commands block) t)) [
      | inl k ↦ inl (contains-left_attempts block t ∙ rw (m, k))
      | inr k ↦
          let (d, wrapped, e, chain, held) = dropped_survives block t k in
          inr (t, d, e, refl, wrapped, chain, held)
    ]
drop_redundant_shell_wrappers_lem block blocked t m = elim (Option-cases (parse_blocked_spawn t)) [
  | inl bare ↦ inl (contains-left_blocked block t ∙ rw (m, bare))
  | inr (c, p) ↦ elim (Bool-cases (keep_command (direct_commands block) c)) [
    | inl k ↦ inl (contains-left_blocked block t ∙ rw (m, p, k))
    | inr k ↦
        let (d, wrapped, e, chain, held) = dropped_survives block c k in
        inr (c, d, e, p, wrapped, chain, held)
  ]
]
