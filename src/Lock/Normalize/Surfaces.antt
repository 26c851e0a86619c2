-- ===== src/Lock/Normalize/Surfaces.antt =====
-- What an audit cannot hide: protected probes, writes outside the package, and signs of a bypass.
use mathlib.Core.List.{Memᴰ}
use script_jail.Base.{
  Bool, true, false, List, [], ◌∷◌, ◌++◌, ℕ, Option, some, Text, codes, lookup, starts_with,
  contains, any_of_mem, text_eq_self, ok, ◌≡◌, refl, sym, ap, ◌∙◌, subst, arith,
}
use script_jail.Lock.Schema.{RawEvent, read, write, FsEvent, Field, Packages, AttributedEvent}
use script_jail.Lock.Tokenize.{
  TokenizeRoots, slash, tokenize, path_has_prefix, is_inside_pkg, is_cross_package,
  canonicalize_tokenize_roots,
}
use script_jail.Lock.Tokenize.Inside.{IsDeepest, is_inside_pkg-tokenize}
use script_jail.Lock.Normalize.{NormalizeContext, os_of, is_dropped_artifact, place, normalize}
use script_jail.Lock.Normalize.Noise.{
  Os, is_system_noise, is_fs_noise, is_noise_path, is_under_root, is_install_artifact, fs_path,
}
use script_jail.Lock.Normalize.Volatile.{normalize_volatile_path}
use script_jail.Lock.Normalize.Volatile.Laws.{
  normalize_volatile_path-Renamed, starts_with-Renamed, text_eq-Renamed,
}
use script_jail.Lock.Normalize.Entries.{
  Place, hidden_tag, tag_if, entries, fs_token, read_entries, write_entries,
}
use script_jail.Lock.Normalize.Blocks.Laws.{has_entry, stage_eq_self, field_eq_self}
use script_jail.Lock.Normalize.Exact.{list_of, is_recorded, touches, adds}
use script_jail.Lock.Normalize.Final.{is_spawn_list, normalize_exact}

-- Renaming a debug log does not move it in or out of the package.
is_inside_pkg-volatile : (t : Text) → is_inside_pkg (normalize_volatile_path t) ≡ is_inside_pkg t
unfolding is_inside_pkg
is_inside_pkg-volatile t =
    let r = normalize_volatile_path-Renamed t in
    rw (
      text_eq-Renamed t (normalize_volatile_path t) (codes "$PKG") (omega arith) r,
      starts_with-Renamed t (normalize_volatile_path t) (codes "$PKG/") (omega arith) r,
    )

pub has_one : (f : Field) (t : Text) → has_entry f t ((f, t) ∷ []) ≡ true
has_one f t = rw (field_eq_self f, text_eq_self t)

read_has_entry :
    (l : Place) (e : FsEvent)
    → is_inside_pkg (fs_token l e) ≡ false
    → has_entry Field.external_reads
        (l.forged_prefix ++ (tag_if e.hidden hidden_tag ++ fs_token l e))
        (entries l (read e))
      ≡ true
unfolding entries read_entries
read_has_entry l e apart = rw apart (has_one Field.external_reads _)

-- the text of a write
abbrev pub write_text : Place → FsEvent → Text
write_text l e =
    l.forged_prefix
    ++ (tag_if e.hidden hidden_tag
        ++ (tag_if (is_cross_package (fs_token l e)) (codes "<CROSS_PACKAGE> ") ++ fs_token l e))

write_has_entry :
    (l : Place) (e : FsEvent)
    → is_inside_pkg (fs_token l e) ≡ false
    → has_entry Field.escaped_writes (write_text l e) (entries l (write e)) ≡ true
unfolding entries write_entries
write_has_entry l e apart = rw apart (has_one Field.escaped_writes _)

hidden_not_noise :
    (os : Os) (roots : TokenizeRoots) (e : FsEvent)
    → e.hidden ≡ true
    → is_system_noise os roots (read e) ≡ false
unfolding is_system_noise is_fs_noise
hidden_not_noise os roots e h = rw h

hidden_not_artifact :
    (os : Os) (roots : TokenizeRoots) (injected : Option (List Text)) (e : FsEvent)
    → e.hidden ≡ true
    → is_install_artifact os roots injected (read e) ≡ false
unfolding is_install_artifact
hidden_not_artifact os roots injected e h = rw h

-- The repository wins over every noise prefix.
repo_write_not_noise :
    (os : Os) (roots : TokenizeRoots) (e : FsEvent)
    → is_under_root (fs_path os e) roots.repo ≡ true
    → is_system_noise os roots (write e) ≡ false
unfolding is_system_noise is_fs_noise is_noise_path
repo_write_not_noise os roots e h = rw h (ground arith)

module _ (events : List AttributedEvent) (ctx : NormalizeContext) (out : Packages)
    (done : normalize events ctx ≡ ok out) (ev : AttributedEvent) (listed : Memᴰ ev events) where
  abbrev pub roots : TokenizeRoots
  roots = canonicalize_tokenize_roots ctx.roots

  abbrev pub here : Place
  here = place ctx roots ev

  -- A recorded entry of an event stands in the lock.
  pub recorded_stands :
      (f : Field) (t : Text)
      → is_spawn_list f ≡ false
      → is_recorded ctx roots ev ≡ true
      → has_entry f t (entries here ev.raw) ≡ true
      → contains (list_of ev.pkg ev.lifecycle f out) t ≡ true
  unfolding adds touches
  recorded_stands f t other r m =
      normalize_exact events ctx out done ev.pkg ev.lifecycle f t other
      ∙ any_of_mem (adds ctx roots ev.pkg ev.lifecycle f t) events listed
          (rw (r, text_eq_self ev.pkg, stage_eq_self ev.lifecycle, m))

  pub recorded_of :
      (raw : RawEvent)
      → ev.raw ≡ raw
      → is_system_noise (os_of ctx) roots raw ≡ false
      → is_install_artifact (os_of ctx) roots ctx.injected_install_mode_env_names raw ≡ false
      → is_recorded ctx roots ev ≡ true
  unfolding is_recorded is_dropped_artifact
  recorded_of raw same quiet plain =
      let quiet' = subst (λ r. is_system_noise (os_of ctx) roots r ≡ false) (sym same) quiet in
      let plain' =
        subst
          (λ r. is_install_artifact (os_of ctx) roots ctx.injected_install_mode_env_names r ≡ false)
          (sym same) plain in
      rw (quiet', plain') (ground arith)

  -- A protected read that is not the package's own stands in `external_reads` with its tag: no noise
  -- prefix and no install mode drops it.
  pub hidden_read_surfaces :
      (e : FsEvent)
      → ev.raw ≡ read e
      → e.hidden ≡ true
      → is_inside_pkg (fs_token here e) ≡ false
      → contains
          (list_of ev.pkg ev.lifecycle Field.external_reads out)
          (here.forged_prefix ++ (hidden_tag ++ fs_token here e))
        ≡ true
  hidden_read_surfaces e is_read hidden apart =
      let text = λ (b : Bool). here.forged_prefix ++ (tag_if b hidden_tag ++ fs_token here e) in
      let entry : has_entry Field.external_reads (text e.hidden) (entries here ev.raw) ≡ true =
        subst (λ r. has_entry Field.external_reads (text e.hidden) (entries here r) ≡ true)
          (sym is_read) (read_has_entry here e apart) in
      let recorded =
        recorded_of (read e) is_read (hidden_not_noise (os_of ctx) roots e hidden)
          (hidden_not_artifact (os_of ctx) roots ctx.injected_install_mode_env_names e hidden) in
      subst (λ b. contains (list_of ev.pkg ev.lifecycle Field.external_reads out) (text b) ≡ true)
        hidden (recorded_stands Field.external_reads (text e.hidden) refl recorded entry)

  -- A write below the repository and outside the directory of its package stands in `escaped_writes`,
  -- wherever the repository lies, as long as the other roots are shorter than that directory.
  pub repo_write_surfaces :
      (e : FsEvent) (c : ℕ) (s : Text)
      → ev.raw ≡ write e
      → lookup ev.pkg ctx.pkg_dirs ≡ some (c ∷ s)
      → IsDeepest (c ∷ s) roots
      → starts_with (fs_path (os_of ctx) e) slash ≡ true
      → is_under_root (fs_path (os_of ctx) e) roots.repo ≡ true
      → path_has_prefix (fs_path (os_of ctx) e) (c ∷ s) ≡ false
      → contains (list_of ev.pkg ev.lifecycle Field.escaped_writes out) (write_text here e) ≡ true
  repo_write_surfaces e c s is_write dir deepest absolute under apart =
      let outside : is_inside_pkg (fs_token here e) ≡ false =
        unfold fs_token place in
        (is_inside_pkg-volatile
            (tokenize (fs_path (os_of ctx) e) roots (lookup ev.pkg ctx.pkg_dirs))
          ∙ ap (λ d. is_inside_pkg (tokenize (fs_path (os_of ctx) e) roots d)) dir
          ∙ is_inside_pkg-tokenize (fs_path (os_of ctx) e) roots c s absolute deepest
          ∙ apart) in
      let entry : has_entry Field.escaped_writes (write_text here e) (entries here ev.raw) ≡ true =
        subst (λ r. has_entry Field.escaped_writes (write_text here e) (entries here r) ≡ true)
          (sym is_write) (write_has_entry here e outside) in
      let recorded =
        recorded_of (write e) is_write (repo_write_not_noise (os_of ctx) roots e under)
          (unfold is_install_artifact in refl) in
      recorded_stands Field.escaped_writes (write_text here e) refl recorded entry
