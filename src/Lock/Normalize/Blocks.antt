-- ===== src/Lock/Normalize/Blocks.antt =====
-- src/lock/normalize.ts, the blocks of the lock: `getLifecycleBlock`, with the pushes on the block that
-- it returns, and `sortAndDedupe`. A map keeps its keys in the order in which they were added.
pub mod Laws
pub mod Keyed
use script_jail.Base.{
  Bool, true, false, List, [], ◌∷◌, ◌++◌, map, Option, none, some, Text, text_eq, canonical,
  if◌then◌else◌,
}
use script_jail.Lock.Schema.{
  Stage, preinstall, install, postinstall, prepare, Field, LifecycleBlock, PackageBlock, Packages,
  get, set,
}
use script_jail.Lock.Normalize.Entries.{Entry}
use script_jail.Lock.Normalize.Wrappers.{drop_redundant_shell_wrappers}

abbrev pub stage_eq : Stage → Stage → Bool
stage_eq preinstall preinstall = true
stage_eq install install = true
stage_eq postinstall postinstall = true
stage_eq prepare prepare = true
stage_eq _ _ = false

abbrev pub empty_block : LifecycleBlock
empty_block = record {
  external_reads = [];
  escaped_writes = [];
  env_read = [];
  spawn_attempts = [];
  spawn_blocked = [];
  dlopen_attempts = [];
  network_attempts = [];
  audit_bypass = [];
  env_tamper = [];
}

-- `block[f].push(text)`
unfoldable pub push : LifecycleBlock → Entry → LifecycleBlock
push block (f, text) = set block f (get block f ++ text ∷ [])

unfoldable pub push_all : List Entry → LifecycleBlock → LifecycleBlock
push_all [] block = block
push_all (e ∷ es) block = push_all es (push block e)

-- the block of a stage, made if it is not there, is changed in place
unfoldable pub update_stage :
    Stage → (LifecycleBlock → LifecycleBlock) → PackageBlock → PackageBlock
update_stage stage f [] = (stage, f empty_block) ∷ []
update_stage stage f ((s, block) ∷ rest) =
    let later = update_stage stage f rest in
    if stage_eq s stage then (s, f block) ∷ rest else (s, block) ∷ later

unfoldable pub update_package : Text → (PackageBlock → PackageBlock) → Packages → Packages
update_package pkg f [] = (pkg, f []) ∷ []
update_package pkg f ((p, block) ∷ rest) =
    let later = update_package pkg f rest in
    if text_eq p pkg then (p, f block) ∷ rest else (p, block) ∷ later

-- `getLifecycleBlock(out, pkg, lifecycle)` and the pushes on it
unfoldable pub record_entries : Text → Stage → List Entry → Packages → Packages
record_entries pkg stage es out = update_package pkg (update_stage stage (push_all es)) out

unfoldable pub sort_and_dedupe : LifecycleBlock → LifecycleBlock
sort_and_dedupe block = record {
  external_reads = canonical block.external_reads;
  escaped_writes = canonical block.escaped_writes;
  env_read = canonical block.env_read;
  spawn_attempts = canonical block.spawn_attempts;
  spawn_blocked = canonical block.spawn_blocked;
  dlopen_attempts = canonical block.dlopen_attempts;
  network_attempts = canonical block.network_attempts;
  audit_bypass = canonical block.audit_bypass;
  env_tamper = canonical block.env_tamper;
}

-- the last loop of `normalize`
unfoldable pub finish_block : LifecycleBlock → LifecycleBlock
finish_block block = sort_and_dedupe (drop_redundant_shell_wrappers block)

unfoldable pub finish_package : PackageBlock → PackageBlock
finish_package [] = []
finish_package ((stage, block) ∷ rest) = (stage, finish_block block) ∷ finish_package rest

unfoldable pub finish : Packages → Packages
finish [] = []
finish ((pkg, stages) ∷ rest) = (pkg, finish_package stages) ∷ finish rest

-- `pkgBlock.lifecycle[stage]`
unfoldable pub stage_block : Stage → PackageBlock → Option LifecycleBlock
stage_block stage [] = none
stage_block stage ((s, block) ∷ rest) =
    if stage_eq s stage then some block else stage_block stage rest

-- `out.get(pkg)`, where a package that is not there has no stages
unfoldable pub stages_of : Text → Packages → PackageBlock
stages_of pkg [] = []
stages_of pkg ((p, stages) ∷ rest) = if text_eq p pkg then stages else stages_of pkg rest

abbrev pub lookup_block : Text → Stage → Packages → Option LifecycleBlock
lookup_block pkg stage out = stage_block stage (stages_of pkg out)
