-- ===== src/Lock/Normalize/Forgery.antt =====
-- Entries of forged root events are marked, and no fs entry of a genuine event looks like one.
use script_jail.Base.{
  Bool, true, false, ◌&&◌, List, [], ◌∷◌, ◌++◌, Text, codes, starts_with, starts_with-append, ◌≡◌,
  refl, ap, ◌∙◌, arith, inl, inr, All, Bool-cases, text_eq, eq_of_text_eq, or-eq-true, and-eq-true,
}
use script_jail.Lock.Schema.{
  RawEvent, read, write, env_read, spawn, dlopen, connect, exec, env_tamper, FsEvent, SpawnResult,
  Field,
}
use script_jail.Lock.Tokenize.{slash, tokenize, is_inside_pkg, is_cross_package}
use script_jail.Lock.Tokenize.Front.{HasFront, tokenize-HasFront}
use script_jail.Lock.Normalize.Noise.{is_unanchored, fs_path}
use script_jail.Lock.Normalize.Volatile.{normalize_volatile_path}
use script_jail.Lock.Normalize.Volatile.Laws.{normalize_volatile_path-Renamed, starts_with-Renamed}
use script_jail.Lock.Normalize.Blocks.Laws.{has_entry, field_eq}
use script_jail.Lock.Normalize.Entries.{
  Place, Entry, forged_root, hidden_tag, tag_if, entries, fs_token, read_entries, write_entries,
  env_read_entries, spawn_entries, spawn_line, connect_entries, env_tamper_entries, is_fd_lost,
}

-- Every entry begins with the mark.
abbrev pub Marked : List Entry → Type 0
Marked = All (λ (e : Entry). starts_with e.1 forged_root ≡ true)

marked :
    (l : Place) (t : Text)
    → l.forged_prefix ≡ forged_root
    → starts_with (l.forged_prefix ++ t) forged_root ≡ true
marked l t h = rw h (starts_with-append forged_root t)

-- An event that is gated on its own: the loss of the events file, which goes to `audit_bypass`.
abbrev pub is_gated : RawEvent → Bool
is_gated (read e) = false
is_gated (write e) = false
is_gated (env_read e) = false
is_gated (spawn e) = false
is_gated (dlopen e) = false
is_gated (connect e) = false
is_gated (exec e) = false
is_gated (env_tamper e) = is_fd_lost e.op

marked_spawn :
    (l : Place) (result : SpawnResult) (cmd : Text)
    → l.forged_prefix ≡ forged_root
    → starts_with (spawn_line l.forged_prefix result cmd).1 forged_root ≡ true
marked_spawn l SpawnResult.ok cmd h = marked l cmd h
marked_spawn l SpawnResult.enoent cmd h = marked l _ h
marked_spawn l SpawnResult.eacces cmd h = marked l _ h

-- Each entry of an unanchored event begins with `<FORGED_ROOT> ` where the package claims the root,
-- but for the loss of the events file.
pub entries-Marked :
    (l : Place) (raw : RawEvent)
    → l.forged_prefix ≡ forged_root
    → is_unanchored raw ≡ true
    → is_gated raw ≡ false
    → Marked (entries l raw)
unfolding entries is_unanchored
entries-Marked l (read e) h u g =
    unfold read_entries in
    (elim (Bool-cases (is_inside_pkg (fs_token l e))) [
      | inl i ↦ rw i tt
      | inr i ↦ rw i (marked l _ h, tt)
    ])
entries-Marked l (write e) h u g =
    unfold write_entries in
    (elim (Bool-cases (is_inside_pkg (fs_token l e))) [
      | inl i ↦ rw i tt
      | inr i ↦ rw i (marked l _ h, tt)
    ])
entries-Marked l (env_read e) h u g = unfold env_read_entries in (marked l _ h, tt)
entries-Marked l (spawn e) h u g = unfold spawn_entries in (marked_spawn l e.result _ h, tt)
entries-Marked l (dlopen e) h u g = cc
entries-Marked l (connect e) h u g = unfold connect_entries in (marked l _ h, tt)
entries-Marked l (exec e) h u g = cc
entries-Marked l (env_tamper e) h u g = unfold env_tamper_entries in rw g (marked l _ h, tt)

front_not_forged : (t : Text) → HasFront t → starts_with t forged_root ≡ false
unfolding starts_with
front_not_forged [] (inl h) = cc
front_not_forged [] (inr h) = cc
front_not_forged (c ∷ s) (inl h) = ground arith
front_not_forged (c ∷ s) (inr h) = ground arith

fs_token-HasFront :
    (l : Place) (e : FsEvent) → starts_with (fs_path l.os e) slash ≡ true → HasFront (fs_token l e)
unfolding fs_token
fs_token-HasFront l e h =
    let t = tokenize (fs_path l.os e) l.roots l.pkg_dir in
    let r = normalize_volatile_path-Renamed t in
    elim (tokenize-HasFront (fs_path l.os e) l.roots l.pkg_dir h) [
      | inl a ↦ inl (starts_with-Renamed t (normalize_volatile_path t) slash (omega arith) r ∙ a)
      | inr b ↦
          inr (starts_with-Renamed t (normalize_volatile_path t) (codes "$") (omega arith) r ∙ b)
    ]

-- The path of an fs event that is absolute.
abbrev pub IsAbsoluteFs : Place → RawEvent → Type 0
IsAbsoluteFs l (read e) = starts_with (fs_path l.os e) slash ≡ true
IsAbsoluteFs l (write e) = starts_with (fs_path l.os e) slash ≡ true
IsAbsoluteFs l (env_read e) = ⊥
IsAbsoluteFs l (spawn e) = ⊥
IsAbsoluteFs l (dlopen e) = ⊥
IsAbsoluteFs l (connect e) = ⊥
IsAbsoluteFs l (exec e) = ⊥
IsAbsoluteFs l (env_tamper e) = ⊥

abbrev pub Unmarked : List Entry → Type 0
Unmarked = All (λ (e : Entry). starts_with e.1 forged_root ≡ false)

tagged_not_forged :
    (hidden cross : Bool) (t : Text)
    → HasFront t
    → starts_with
        (tag_if hidden hidden_tag ++ (tag_if cross (codes "<CROSS_PACKAGE> ") ++ t))
        forged_root
      ≡ false
tagged_not_forged true cross t h = unfold starts_with in refl
tagged_not_forged false true t h = unfold starts_with in refl
tagged_not_forged false false t h = front_not_forged t h

unprefixed :
    (p t : Text)
    → p ≡ []
    → starts_with t forged_root ≡ false
    → starts_with (p ++ t) forged_root ≡ false
unprefixed p t h k = rw h k

-- No entry of an fs event at an absolute path begins with `<FORGED_ROOT> ` where the event is not
-- forged.
pub entries-Unmarked :
    (l : Place) (raw : RawEvent)
    → l.forged_prefix ≡ []
    → IsAbsoluteFs l raw
    → Unmarked (entries l raw)
unfolding entries
entries-Unmarked l (read e) h a =
    unfold read_entries in
    (elim (Bool-cases (is_inside_pkg (fs_token l e))) [
      | inl i ↦ rw i tt
      | inr i ↦ rw i (
        unprefixed l.forged_prefix _ h
            (tagged_not_forged e.hidden false (fs_token l e) (fs_token-HasFront l e a)),
        tt,
      )
    ])
entries-Unmarked l (write e) h a =
    unfold write_entries in
    (elim (Bool-cases (is_inside_pkg (fs_token l e))) [
      | inl i ↦ rw i tt
      | inr i ↦ rw i (
        unprefixed l.forged_prefix _ h (
            tagged_not_forged e.hidden (is_cross_package (fs_token l e)) (fs_token l e)
              (fs_token-HasFront l e a)),
        tt,
      )
    ])
entries-Unmarked l (env_read e) h a = absurd a
entries-Unmarked l (spawn e) h a = absurd a
entries-Unmarked l (dlopen e) h a = absurd a
entries-Unmarked l (connect e) h a = absurd a
entries-Unmarked l (exec e) h a = absurd a
entries-Unmarked l (env_tamper e) h a = absurd a

has_entry_in :
    (P : Entry → Type 0) (f : Field) (t : Text) (es : List Entry)
    → All P es
    → has_entry f t es ≡ true
    → (e : Entry) × (e.1 ≡ t) × P e
has_entry_in P f t [] _ h = cc
has_entry_in P f t (e ∷ es) (p, ps) h =
    elim (or-eq-true (field_eq e.0 f && text_eq e.1 t) (has_entry f t es) h) [
      | inl here ↦ (e, eq_of_text_eq e.1 t (and-eq-true (field_eq e.0 f) (text_eq e.1 t) here).1, p)
      | inr later ↦ has_entry_in P f t es ps later
    ]

-- A forged root event and an event that is not forged, an fs event at an absolute path, have no entry
-- in common, so neither can hide the other when duplicates go.
pub forged_distinct :
    (forged genuine : Place) (raw raw' : RawEvent)
    → forged.forged_prefix ≡ forged_root
    → is_unanchored raw ≡ true
    → is_gated raw ≡ false
    → genuine.forged_prefix ≡ []
    → IsAbsoluteFs genuine raw'
    → (f : Field) (t : Text) → has_entry f t (entries forged raw) ≡ true
    → has_entry f t (entries genuine raw') ≡ false
forged_distinct forged genuine raw raw' h u g k a f t m =
    elim (Bool-cases (has_entry f t (entries genuine raw'))) [
      | inr apart ↦ apart
      | inl both ↦
          let (e, same, mark) =
            has_entry_in (λ (e : Entry). starts_with e.1 forged_root ≡ true) f t
              (entries forged raw) (entries-Marked forged raw h u g) m in
          let (e', same', plain) =
            has_entry_in (λ (e : Entry). starts_with e.1 forged_root ≡ false) f t
              (entries genuine raw') (entries-Unmarked genuine raw' k a) both in
          absurd (
            cc
              (ap (λ s. starts_with s forged_root) same, ap (λ s. starts_with s forged_root) same'))
    ]
