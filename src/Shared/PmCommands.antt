-- ===== src/Shared/PmCommands.antt =====
-- src/shared/pm-commands.ts: the commands of the package managers and the policy on the flags that a
-- developer adds to them.
pub mod Flags
pub mod Allow
pub mod Split
mod Tests
use script_jail.Base.{List, [], ◌∷◌, ◌++◌, Text, codes}
use script_jail.Lock.Schema.{Manager, npm, pnpm, yarn}

pub record PmCommand : Type 0 where
  pub cmd : Text
  pub args : List Text

-- `FETCH_CMD[manager]`
abbrev pub fetch_cmd : Manager → PmCommand
fetch_cmd npm = record { cmd = codes "npm"; args = codes "ci" ∷ codes "--ignore-scripts" ∷ [] }
fetch_cmd pnpm = record {
  cmd = codes "pnpm";
  args =
      codes "install"
      ∷ codes "--frozen-lockfile"
      ∷ codes "--ignore-scripts"
      ∷ codes "--config.side-effects-cache=false"
      ∷ [];
}
fetch_cmd yarn = record {
  cmd = codes "yarn";
  args = codes "install" ∷ codes "--immutable" ∷ codes "--mode=skip-build" ∷ [];
}

-- `INSTALL_CMD[manager]`
abbrev pub install_cmd : Manager → PmCommand
install_cmd npm = record {
  cmd = codes "npm";
  args = codes "rebuild" ∷ codes "--foreground-scripts" ∷ codes "--no-node-options" ∷ [];
}
install_cmd pnpm = record {
  cmd = codes "pnpm";
  args = codes "rebuild" ∷ codes "--pending" ∷ codes "--config.side-effects-cache=false" ∷ [];
}
install_cmd yarn = record { cmd = codes "yarn"; args = codes "install" ∷ codes "--immutable" ∷ [] }

abbrev pub pnpm_store_dir_arg : Manager → Text → List Text
pnpm_store_dir_arg npm cwd = []
pnpm_store_dir_arg pnpm cwd = (codes "--store-dir=" ++ cwd ++ codes "/.pnpm-store") ∷ []
pnpm_store_dir_arg yarn cwd = []
