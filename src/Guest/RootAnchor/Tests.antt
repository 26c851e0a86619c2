-- ===== src/Guest/RootAnchor/Tests.antt =====
-- Runs of the anchoring, and the laws at concrete process trees.
use script_jail.Base.{ℕ, false, List, [], ◌∷◌, Option, some, Text, codes, text_eq, ◌≡◌, refl}
use script_jail.Guest.Pids.{get_pid}
use script_jail.Guest.RootAnchor.{
  RepoRootAnchorInput, has_pid, is_anchored_from, is_repo_root_anchored,
}
use script_jail.Guest.RootAnchor.Laws.{Below, is_repo_root_anchored-outside}

-- 40 is the package manager. It runs the root's script as 41, which forks 42; and a dependency's
-- script as 43, which forks 44.
abbrev parents : List (ℕ × ℕ)
parents = (41, 40) ∷ (42, 41) ∷ (43, 40) ∷ (44, 43) ∷ []

abbrev started_in : List (ℕ × Option Text)
started_in =
    (40, some (codes "/repo"))
    ∷ (41, some (codes "/repo"))
    ∷ (43, some (codes "/repo/node_modules/dep"))
    ∷ []

abbrev event_of : ℕ → RepoRootAnchorInput
event_of pid = record {
  pid = pid;
  child_parent = λ p. get_pid p parents;
  exec_cwd = λ p. get_pid p started_in;
  cwd_unknown = λ p. false;
  recycled = λ p. false;
  work_dir = codes "/repo";
  root_pid = 40;
}

forged_script : is_repo_root_anchored (event_of 44) ≡ false
unfolding is_repo_root_anchored is_anchored_from has_pid get_pid text_eq
forged_script = refl

unknown_process : is_repo_root_anchored (event_of 99) ≡ false
unfolding is_repo_root_anchored is_anchored_from has_pid get_pid text_eq
unknown_process = refl

-- A tree that runs in a circle has no root.
circle : is_repo_root_anchored (record (event_of 41) { child_parent = λ p. some 41 }) ≡ false
unfolding is_repo_root_anchored is_anchored_from has_pid get_pid text_eq
circle = refl

is_repo_root_anchored-outside_example : is_repo_root_anchored (event_of 44) ≡ false
unfolding get_pid text_eq
is_repo_root_anchored-outside_example =
    is_repo_root_anchored-outside (event_of 44) 43 (Below.up refl refl Below.self) refl refl
