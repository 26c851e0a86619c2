-- ===== src/Guest/ProtectedPaths/Laws.antt =====
-- What the policy drops and emits, on every kind of event.
use script_jail.Base.{
  Bool, true, false, not, ◌&&◌, ◌||◌, List, [], ◌∷◌, ◌++◌, Option, none, some, Text, text_eq,
  starts_with, if◌then◌else◌, ◌≡◌, refl, sym, ap, ◌∙◌, arith, Bool-cases, inl, inr,
}
use script_jail.Lock.Schema.{
  RawEvent, read, write, env_read, spawn, dlopen, connect, exec, env_tamper, FsEvent, Errno,
  AttributedEvent,
}
use script_jail.Lock.Tokenize.{slash, path_has_prefix}
use script_jail.Guest.ProtectedPaths.{
  ProtectedPathsMatcher, canon, is_absent, is_empty, is_protected, is_under_node_modules,
  strip_transport, filter_failed, filter_fs, emit, filter_raw, apply_protected_paths_policy,
}

abbrev pub is_enoent : Option Errno → Bool
is_enoent none = false
is_enoent (some Errno.enoent) = true
is_enoent (some Errno.eacces) = false

-- The fs event that leaves the jail, when one does: a failed call on a protected path is hidden, and
-- nothing of the transport is left.
abbrev pub sent : Bool → FsEvent → FsEvent
sent guarded e = record e {
  hidden = e.hidden || (guarded && not (is_absent e.errno));
  errno = none;
  dirfd = none;
  ret_fd = none;
}

module _ (is_match : Text → List Text → Bool) (m : ProtectedPathsMatcher) where
  -- A read below `node_modules` and a call that found nothing are dropped, protected paths apart.
  abbrev pub is_dropped : RawEvent → Bool
  is_dropped (read e) =
      not (is_protected is_match m e.path) && (is_under_node_modules m e.path || is_enoent e.errno)
  is_dropped (write e) = not (is_protected is_match m e.path) && is_enoent e.errno
  is_dropped (env_read e) = false
  is_dropped (spawn e) = false
  is_dropped (dlopen e) = false
  is_dropped (connect e) = false
  is_dropped (exec e) = false
  is_dropped (env_tamper e) = false

  abbrev pub sent_raw : RawEvent → RawEvent
  sent_raw (read e) = read (sent (is_protected is_match m e.path) e)
  sent_raw (write e) = write (sent (is_protected is_match m e.path) e)
  sent_raw (env_read e) = env_read e
  sent_raw (spawn e) = spawn e
  sent_raw (dlopen e) = dlopen e
  sent_raw (connect e) = connect e
  sent_raw (exec e) = exec e
  sent_raw (env_tamper e) = env_tamper e

abbrev expected : Bool → FsEvent → Option Errno → Option FsEvent
expected guarded e errno =
    if not guarded && is_enoent errno
    then none
    else some (record e {
      hidden = e.hidden || (guarded && not (is_absent errno));
      errno = none;
      dirfd = none;
      ret_fd = none;
    })

filter_failed_lem :
    (guarded : Bool) (e : FsEvent) (errno : Option Errno)
    → errno ≡ e.errno
    → filter_failed guarded e errno ≡ expected guarded e errno
unfolding filter_failed strip_transport
filter_failed_lem guarded e none h = ground arith
filter_failed_lem true e (some Errno.enoent) h = ground arith
filter_failed_lem false e (some Errno.enoent) h = ground arith
filter_failed_lem true e (some Errno.eacces) h = ground arith
filter_failed_lem false e (some Errno.eacces) h = ground arith

filter_fs_lem :
    (benign guarded : Bool) (e : FsEvent)
    → filter_fs benign guarded e
      ≡ (if not guarded && (benign || is_enoent e.errno) then none else some (sent guarded e))
unfolding filter_fs
filter_fs_lem true true e = filter_failed_lem true e e.errno refl
filter_fs_lem true false e = refl
filter_fs_lem false true e = filter_failed_lem true e e.errno refl
filter_fs_lem false false e = filter_failed_lem false e e.errno refl

abbrev emit_if : AttributedEvent → Bool → RawEvent → Option AttributedEvent
emit_if ev dropped raw = if dropped then none else some (record ev { raw = raw })

emit_if_lem :
    (ev : AttributedEvent) (kind : FsEvent → RawEvent) (dropped : Bool) (e : FsEvent)
    → emit ev kind (if dropped then none else some e) ≡ emit_if ev dropped (kind e)
emit_if_lem ev kind true e = refl
emit_if_lem ev kind false e = refl

module _ (is_match : Text → List Text → Bool) (m : ProtectedPathsMatcher) where
  filter_raw_lem :
      (ev : AttributedEvent) (raw : RawEvent)
      → raw ≡ ev.raw
      → filter_raw is_match m ev raw
        ≡ emit_if ev (is_dropped is_match m raw) (sent_raw is_match m raw)
  unfolding filter_raw
  filter_raw_lem ev (read e) h =
      ap (emit ev read)
        (filter_fs_lem (is_under_node_modules m e.path) (is_protected is_match m e.path) e)
      ∙ emit_if_lem ev read _ _
  filter_raw_lem ev (write e) h =
      ap (emit ev write) (filter_fs_lem false (is_protected is_match m e.path) e)
      ∙ emit_if_lem ev write _ _
  filter_raw_lem ev (env_read e) h = λ i. some (record ev { raw = sym h i })
  filter_raw_lem ev (spawn e) h = λ i. some (record ev { raw = sym h i })
  filter_raw_lem ev (dlopen e) h = λ i. some (record ev { raw = sym h i })
  filter_raw_lem ev (connect e) h = λ i. some (record ev { raw = sym h i })
  filter_raw_lem ev (exec e) h = λ i. some (record ev { raw = sym h i })
  filter_raw_lem ev (env_tamper e) h = λ i. some (record ev { raw = sym h i })

  -- The policy drops an fs event exactly when its path is not protected and it is a read below
  -- `node_modules` or found nothing. Any other event keeps its package and stage; an fs event loses
  -- what belongs to the transport, and is hidden if it was or if the call failed on a protected path.
  pub apply_protected_paths_policy_lem :
      (ev : AttributedEvent)
      → apply_protected_paths_policy is_match ev m ≡ (
          if is_dropped is_match m ev.raw
          then none
          else some (record ev { raw = sent_raw is_match m ev.raw }))
  unfolding apply_protected_paths_policy
  apply_protected_paths_policy_lem ev = filter_raw_lem ev ev.raw refl

slash_after :
    (p root : Text) → (text_eq p root || starts_with p (root ++ slash)) ≡ path_has_prefix p root
unfolding path_has_prefix text_eq starts_with
slash_after [] [] = refl
slash_after [] (c ∷ root) = refl
slash_after (c ∷ p) [] = ground arith
slash_after (c ∷ p) (d ∷ root) = ground (arith, slash_after p root)

-- The matcher and `tokenize` agree on what lies below `node_modules`.
pub is_under_node_modules-path_has_prefix :
    (m : ProtectedPathsMatcher) (path : Text)
    → is_under_node_modules m path
      ≡ (not (is_empty m.roots.node_modules) && path_has_prefix (canon m path) m.roots.node_modules)
unfolding is_under_node_modules
is_under_node_modules-path_has_prefix m path = elim (Bool-cases (is_empty m.roots.node_modules)) [
  | inl e ↦ rw e refl
  | inr e ↦ rw e (slash_after (canon m path) m.roots.node_modules)
]
