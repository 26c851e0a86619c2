-- ===== src/Lock/Normalize/Bypass.antt =====
-- Every sign that the audit was bypassed leaves an entry in `audit_bypass`.
use mathlib.Core.List.{Memᴰ}
use script_jail.Base.{
  Bool, true, false, ◌||◌, List, ◌++◌, Text, codes, starts_with, contains, any-append, ok, ◌≡◌,
  refl, ◌∙◌, arith, inl, inr, or-eq-true,
}
use script_jail.Lock.Schema.{
  RawEvent, read, write, env_read, spawn, dlopen, connect, exec, env_tamper, ExecEvent,
  EnvTamperEvent, Field, Packages, AttributedEvent,
}
use script_jail.Lock.Tokenize.{canonicalize_tokenize_roots, tokenize}
use script_jail.Lock.Normalize.{NormalizeContext, os_of, place, normalize}
use script_jail.Lock.Normalize.Noise.{is_system_noise, is_install_artifact}
use script_jail.Lock.Normalize.Entries.{
  Place, Entry, entries, exec_entries, env_tamper_entries, bypass, ident_token, is_fd_lost,
}
use script_jail.Lock.Normalize.Blocks.Laws.{has_entry}
use script_jail.Lock.Normalize.Exact.{list_of}
use script_jail.Lock.Normalize.Surfaces.{has_one, recorded_of, recorded_stands}

-- The four signs of an exec event, and the loss of the events file.
abbrev pub is_bypass_sign : RawEvent → Bool
is_bypass_sign (read e) = false
is_bypass_sign (write e) = false
is_bypass_sign (env_read e) = false
is_bypass_sign (spawn e) = false
is_bypass_sign (dlopen e) = false
is_bypass_sign (connect e) = false
is_bypass_sign (exec e) =
    e.envp_alloc_failed || (e.syscall_bypass || (e.events_file_forgery || e.unresolved_path))
is_bypass_sign (env_tamper e) = is_fd_lost e.op

-- An entry of `audit_bypass` with a tag.
abbrev pub HasBypass : List Entry → Type 0
HasBypass es =
    (t : Text) × (starts_with t (codes "<") ≡ true) × (has_entry Field.audit_bypass t es ≡ true)

in_left : (es ds : List Entry) → HasBypass es → HasBypass (es ++ ds)
in_left es ds (t, tag, m) = (t, tag, any-append _ es ds ∙ rw m)

in_right : (es ds : List Entry) → HasBypass ds → HasBypass (es ++ ds)
in_right es ds (t, tag, m) = (t, tag, any-append _ es ds ∙ rw m (ground arith))

bypass_one :
    (b : Bool) (tag program : Text)
    → b ≡ true
    → starts_with (tag ++ program) (codes "<") ≡ true
    → HasBypass (bypass b tag program)
bypass_one b tag program h s =
    (tag ++ program, s, rw h (has_one Field.audit_bypass (tag ++ program)))

exec-HasBypass :
    (l : Place) (e : ExecEvent) → is_bypass_sign (exec e) ≡ true → HasBypass (exec_entries l e)
unfolding exec_entries
exec-HasBypass l e h =
    let fail_open =
      bypass e.envp_alloc_failed (codes "<EXEC_FAIL_OPEN> ") (tokenize e.prog l.roots l.pkg_dir) in
    let syscall = bypass e.syscall_bypass (codes "<SYSCALL_EXEC_BYPASS> ") (ident_token l e) in
    let forgery = bypass e.events_file_forgery (codes "<EVENTS_FILE_FORGERY> ") (ident_token l e) in
    let unresolved = bypass e.unresolved_path (codes "<UNRESOLVED_PATH> ") (ident_token l e) in
    elim (or-eq-true e.envp_alloc_failed
      (e.syscall_bypass || (e.events_file_forgery || e.unresolved_path)) h) [
        | inl a ↦ in_left fail_open (syscall ++ (forgery ++ unresolved)) (
            bypass_one e.envp_alloc_failed (codes "<EXEC_FAIL_OPEN> ") _ a
              (unfold starts_with in refl))
        | inr rest ↦
            in_right fail_open (syscall ++ (forgery ++ unresolved))
              (elim (or-eq-true e.syscall_bypass (e.events_file_forgery || e.unresolved_path)
                rest) [
                  | inl b ↦ in_left syscall (forgery ++ unresolved) (
                      bypass_one e.syscall_bypass (codes "<SYSCALL_EXEC_BYPASS> ") _ b
                        (unfold starts_with in refl))
                  | inr rest' ↦
                      in_right syscall (forgery ++ unresolved)
                        (elim (or-eq-true e.events_file_forgery e.unresolved_path rest') [
                          | inl c ↦ in_left forgery unresolved (
                              bypass_one e.events_file_forgery (codes "<EVENTS_FILE_FORGERY> ") _ c
                                (unfold starts_with in refl))
                          | inr d ↦ in_right forgery unresolved (
                              bypass_one e.unresolved_path (codes "<UNRESOLVED_PATH> ") _ d
                                (unfold starts_with in refl))
                        ])
                ])
      ]

fd_lost-HasBypass :
    (l : Place) (e : EnvTamperEvent) → is_fd_lost e.op ≡ true → HasBypass (env_tamper_entries l e)
unfolding env_tamper_entries
fd_lost-HasBypass l e h = (
  codes "<AUDIT_FD_LOST>",
  unfold starts_with in refl,
  rw h (has_one Field.audit_bypass (codes "<AUDIT_FD_LOST>")),
)

sign-HasBypass :
    (l : Place) (raw : RawEvent) → is_bypass_sign raw ≡ true → HasBypass (entries l raw)
unfolding entries
sign-HasBypass l (read e) h = cc
sign-HasBypass l (write e) h = cc
sign-HasBypass l (env_read e) h = cc
sign-HasBypass l (spawn e) h = cc
sign-HasBypass l (dlopen e) h = cc
sign-HasBypass l (connect e) h = cc
sign-HasBypass l (exec e) h = exec-HasBypass l e h
sign-HasBypass l (env_tamper e) h = fd_lost-HasBypass l e h

sign_not_dropped :
    (ctx : NormalizeContext) (raw : RawEvent)
    → is_bypass_sign raw ≡ true
    → (is_system_noise (os_of ctx) (canonicalize_tokenize_roots ctx.roots) raw ≡ false)
      × (is_install_artifact
            (os_of ctx)
            (canonicalize_tokenize_roots ctx.roots)
            ctx.injected_install_mode_env_names
            raw
          ≡ false)
unfolding is_system_noise is_install_artifact
sign_not_dropped ctx (read e) h = cc
sign_not_dropped ctx (write e) h = cc
sign_not_dropped ctx (env_read e) h = cc
sign_not_dropped ctx (spawn e) h = cc
sign_not_dropped ctx (dlopen e) h = cc
sign_not_dropped ctx (connect e) h = cc
sign_not_dropped ctx (exec e) h = (refl, refl)
sign_not_dropped ctx (env_tamper e) h = (refl, refl)

-- An event with a sign of a bypass leaves a tagged entry in `audit_bypass` of its package and stage,
-- whatever the context.
pub bypass_surfaces :
    (events : List AttributedEvent) (ctx : NormalizeContext) (out : Packages)
    → normalize events ctx ≡ ok out
    → (ev : AttributedEvent) → Memᴰ ev events
    → is_bypass_sign ev.raw ≡ true
    → (t : Text) × (starts_with t (codes "<") ≡ true)
      × (contains (list_of ev.pkg ev.lifecycle Field.audit_bypass out) t ≡ true)
bypass_surfaces events ctx out done ev listed sign =
    let l = place ctx (canonicalize_tokenize_roots ctx.roots) ev in
    let (t, tag, m) = sign-HasBypass l ev.raw sign in
    let (quiet, plain) = sign_not_dropped ctx ev.raw sign in
    (
      t,
      tag,
      recorded_stands events ctx out done ev listed Field.audit_bypass t refl
          (recorded_of events ctx out done ev listed ev.raw refl quiet plain) m,
    )
