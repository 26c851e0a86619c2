-- ===== src/Guest/RootAnchor.antt =====
-- src/guest/root-anchor.ts: whether a process belongs to the repository's own project, by the
-- kernel's process tree. A map is the function that reads it.
pub mod Laws
mod Tests
use script_jail.Base.{
  ℕ, zero, suc, Bool, true, false, not, ◌||◌, List, [], ◌∷◌, Option, none, some, Text, text_eq,
  ◌==◌, if◌then◌else◌,
}

-- `exec_cwd` is `none` for a process that never called exec, and `some none` for one whose
-- directory at that call could not be resolved.
pub record RepoRootAnchorInput : Type 0 where
  pub pid : ℕ
  pub child_parent : ℕ → Option ℕ
  pub exec_cwd : ℕ → Option (Option Text)
  pub cwd_unknown : ℕ → Bool
  pub recycled : ℕ → Bool
  pub work_dir : Text
  pub root_pid : ℕ

abbrev pub max_depth : ℕ
max_depth = 1024

-- `seen.has(pid)`
unfoldable pub has_pid : List ℕ → ℕ → Bool
has_pid [] pid = false
has_pid (x ∷ seen) pid = x == pid || has_pid seen pid

-- `ec === null`, and `ec !== undefined && ec !== workDir`
abbrev pub is_disqualified : Text → Option (Option Text) → Bool
is_disqualified work_dir none = false
is_disqualified work_dir (some none) = true
is_disqualified work_dir (some (some cwd)) = not (text_eq cwd work_dir)

-- The parent is where the walk goes on; without one the lineage is unknown.
abbrev pub go_up : Option ℕ → (ℕ → Bool) → Bool
go_up none next = false
go_up (some parent) next = next parent

-- The loop, with the rounds that are left.
unfoldable pub is_anchored_from : RepoRootAnchorInput → ℕ → List ℕ → ℕ → Bool
unfolding has_pid text_eq
is_anchored_from input zero seen cur = false
is_anchored_from input (suc depth) seen cur =
    let rest =
      go_up (input.child_parent cur) (λ parent. is_anchored_from input depth (cur ∷ seen) parent) in
    if has_pid seen cur
    then false
    else (if input.recycled cur
        then false
        else (if cur == input.root_pid
            then true
            else (if input.cwd_unknown cur
                then false
                else (if is_disqualified input.work_dir (input.exec_cwd cur)
                    then false
                    else rest))))

unfoldable pub is_repo_root_anchored : RepoRootAnchorInput → Bool
unfolding is_anchored_from
is_repo_root_anchored input = is_anchored_from input max_depth [] input.pid
