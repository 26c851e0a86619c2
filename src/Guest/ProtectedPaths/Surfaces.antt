-- ===== src/Guest/ProtectedPaths/Surfaces.antt =====
-- From the policy to the lock: a failed read of a protected path cannot be hidden.
use mathlib.Core.List.{Memᴰ}
use script_jail.Base.{
  Bool, true, false, List, ◌++◌, none, some, Text, contains, ok, ◌≡◌, refl, ap, ◌∙◌, if◌then◌else◌,
  arith,
}
use script_jail.Lock.Schema.{read, FsEvent, Field, Packages, AttributedEvent}
use script_jail.Lock.Tokenize.{is_inside_pkg, canonicalize_tokenize_roots}
use script_jail.Lock.Normalize.{NormalizeContext, place, normalize}
use script_jail.Lock.Normalize.Entries.{hidden_tag, fs_token}
use script_jail.Lock.Normalize.Exact.{list_of}
use script_jail.Lock.Normalize.Surfaces.{hidden_read_surfaces}
use script_jail.Guest.ProtectedPaths.{
  ProtectedPathsMatcher, is_absent, is_protected, apply_protected_paths_policy,
}
use script_jail.Guest.ProtectedPaths.Laws.{
  sent, sent_raw, is_dropped, apply_protected_paths_policy_lem,
}

module _ (is_match : Text → List Text → Bool) (m : ProtectedPathsMatcher) (ev : AttributedEvent)
    (e : FsEvent) (is_read : ev.raw ≡ read e) (guarded : is_protected is_match m e.path ≡ true)
    (failed : is_absent e.errno ≡ false) where
  -- the event that the policy emits
  abbrev pub probe : AttributedEvent
  probe = record ev { raw = read (sent true e) }

  kept : is_dropped is_match m (read e) ≡ false
  kept = rw guarded refl

  sent_as : sent_raw is_match m (read e) ≡ read (sent true e)
  sent_as = ap (λ b. read (sent b e)) guarded

  emits : apply_protected_paths_policy is_match ev m ≡ some probe
  emits =
      apply_protected_paths_policy_lem is_match m ev
      ∙ ap
          (λ r.
            if is_dropped is_match m r
            then none
            else some (record ev { raw = sent_raw is_match m r }))
          is_read
      ∙ rw kept (ap (λ r. some (record ev { raw = r })) sent_as)

  is_hidden : (sent true e).hidden ≡ true
  is_hidden = rw failed (ground arith)

  -- A failed read of a protected path is emitted. If the event is normalised among others, it stands
  -- in `external_reads` with its tag, unless its rendered path is the package's own.
  pub protected_probe_surfaces :
      (events : List AttributedEvent) (ctx : NormalizeContext) (out : Packages)
      → normalize events ctx ≡ ok out
      → Memᴰ probe events
      → is_inside_pkg
          (fs_token (place ctx (canonicalize_tokenize_roots ctx.roots) probe) (sent true e))
        ≡ false
      → (apply_protected_paths_policy is_match ev m ≡ some probe)
        × (contains (list_of ev.pkg ev.lifecycle Field.external_reads out) (
              (place ctx (canonicalize_tokenize_roots ctx.roots) probe).forged_prefix
              ++ (hidden_tag
                  ++ fs_token
                      (place ctx (canonicalize_tokenize_roots ctx.roots) probe)
                      (sent true e)))
            ≡ true)
  protected_probe_surfaces events ctx out done listed apart = (
    emits,
    hidden_read_surfaces events ctx out done probe listed (sent true e) refl is_hidden apart,
  )
