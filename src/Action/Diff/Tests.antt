-- ===== src/Action/Diff/Tests.antt =====
-- The gates at a small lock.
use mathlib.Core.List.{Memᴰ}
use script_jail.Base.{
  [], ◌∷◌, Option, none, some, Text, codes, text_eq, decimal, ◌≡◌, refl, sym, subst, ◌↔◌,
}
use script_jail.Lock.Schema.{npm, NetworkEvent, ConnectResult}
use script_jail.Lock.Normalize.Noise.{linux}
use script_jail.Lock.Normalize.Entries.{Place, forged_root, connect_entries}
use script_jail.Action.Value.{
  Value, Values, Members, text, scalar, array, object, property, member, entries_of,
}
use script_jail.Action.Diff.{
  Found, walk_values, walk_list, walk_stages, walk_lifecycle, walk_packages, packages_raw, walk_raw,
  walk_doc, find_audit_bypass, join, format_audit_bypass_error, partition,
}
use script_jail.Action.Diff.Listed.{IsListed}
use script_jail.Action.Diff.Gates.{KeepsLists, packages_of, find_audit_bypass_lem}
use script_jail.Action.Diff.Egress.{IsRootPrepare, partition_lem, forged_connect_host_bound}

abbrev block : Value
block = object (
    Members.entry (codes "network_attempts")
      (array (Values.cons (text (codes "<BLOCKED> connect 198.51.100.7:443")) Values.nil))
      (Members.entry (codes "audit_bypass")
        (array (Values.cons scalar (Values.cons (text (codes "<AUDIT_FD_LOST>")) Values.nil)))
        Members.end))

abbrev doc : Value
doc = object (
    Members.entry (codes "packages")
      (object (
        Members.entry (codes "a")
          (object (
            Members.entry (codes "lifecycle")
              (object (Members.entry (codes "install") block Members.end)) Members.end))
          Members.end))
      Members.end)

abbrev parse : Text → Option Value
parse generated = some doc

-- a strict parse that takes any document with `packages`
abbrev safe_parse : Value → Option Value
safe_parse v = property (codes "packages") v

abbrev lost : Found
lost = record { package_id = codes "a"; stage = codes "install"; entry = codes "<AUDIT_FD_LOST>" }

gate : find_audit_bypass parse safe_parse (codes "x") ≡ lost ∷ []
unfolding find_audit_bypass walk_doc packages_raw walk_raw walk_packages walk_lifecycle walk_stages
    walk_list walk_values property member entries_of text_eq
gate = refl

message :
    format_audit_bypass_error (lost ∷ [])
    ≡ codes "Audit envelope was bypassed — see audit_bypass entries: [a (install): <AUDIT_FD_LOST>]"
unfolding format_audit_bypass_error join
message = refl

safe_parse-KeepsLists : (field : Text) → KeepsLists field safe_parse
safe_parse-KeepsLists field v packages e f _ _ =
    (λ l. subst (IsListed field f) (sym e) l, λ l. subst (IsListed field f) e l)

find_audit_bypass_lem_example :
    Memᴰ lost (find_audit_bypass parse safe_parse (codes "x"))
    ↔ IsListed (codes "audit_bypass") lost (packages_of (parse (codes "x")))
find_audit_bypass_lem_example =
    find_audit_bypass_lem parse safe_parse (codes "x") lost (λ e. cc) (λ e. cc)
      (safe_parse-KeepsLists (codes "audit_bypass"))

abbrev attempt : Found
attempt = record {
  package_id = codes "root";
  stage = codes "prepare";
  entry = codes "<FORGED_ROOT> connect 198.51.100.7:7";
}

partition_lem_example :
    (Memᴰ attempt (partition npm (codes "root" ∷ []) (lost ∷ attempt ∷ [])).0
      ↔ (Memᴰ attempt (lost ∷ attempt ∷ []) × IsRootPrepare npm (codes "root" ∷ []) attempt))
    × (Memᴰ attempt (partition npm (codes "root" ∷ []) (lost ∷ attempt ∷ [])).1
        ↔ (Memᴰ attempt (lost ∷ attempt ∷ []) × (¬ IsRootPrepare npm (codes "root" ∷ []) attempt)))
partition_lem_example = partition_lem npm (codes "root" ∷ []) (lost ∷ attempt ∷ []) attempt

abbrev forged : Place
forged = record {
  roots = record {
    repo = codes "/work";
    node_modules = codes "/work/node_modules";
    home = codes "/root";
    tmp = codes "/tmp";
    tmp_legacy = none;
    cache = codes "/cache";
  };
  pkg_dir = none;
  os = linux;
  forged_prefix = forged_root;
}

abbrev dial : NetworkEvent
dial = record {
  host = codes "198.51.100.7";
  port = 7;
  result = ConnectResult.ok;
  pid = 7;
  ts = 1;
  root_anchored = none;
}

forged_connect_host_bound_example :
    Memᴰ attempt (partition npm (codes "root" ∷ []) (attempt ∷ [])).1
    × ¬ Memᴰ attempt (partition npm (codes "root" ∷ []) (attempt ∷ [])).0
forged_connect_host_bound_example =
    forged_connect_host_bound npm (codes "root" ∷ []) forged dial (attempt ∷ []) attempt refl
      (unfold connect_entries decimal in (Memᴰ.head refl)) (Memᴰ.head refl)
