-- ===== src/Lib.antt =====
-- script-jail runs the lifecycle scripts of an install inside a jail, records what they do, and
-- compares that record with a lock file that the repository keeps. This library models the parts of
-- the TypeScript sources that decide what an auditor gets to see.
--
-- How the parts interact: the guest emits events (src/lock/schema.ts), each filtered by the policy on
-- protected paths (src/guest/protected-paths.ts). The guest parses the calls that strace prints
-- (src/guest/strace-parser.ts), attributes the process of each to a package and stage
-- (src/guest/attribution.ts) and decides by the kernel's process tree whether an event that claims the
-- root is the root's (src/guest/root-anchor.ts). An attributed event becomes entries of the block of
-- its package and stage (src/lock/normalize.ts), with its paths rewritten to tokens
-- (src/lock/tokenize.ts, src/lock/private-realpath.ts). The blocks are printed (src/lock/render.ts).
-- The action reads the lock that comes of it and fails on signs of a bypass (src/action/diff.ts). Host and guest run the same
-- commands, with the flags that the policy keeps (src/shared/pm-commands.ts), mask what they print
-- (src/shared/redact.ts), and the guest sends frames to the host (src/shared/vsock-protocol.ts).
--
-- Where each part is modelled:
--   Base                  names passed on, lists over the native numbers, texts, sorting, results
--   Lock.Schema           src/lock/schema.ts: the events and the blocks of the lock
--   Lock.Tokenize         src/lock/tokenize.ts: tokenize, canonicalizeTokenizeRoots and helpers;
--                         Lock.Tokenize.Collapse is collapseUnstable
--   Lock.PrivateRealpath  src/lock/private-realpath.ts
--   Lock.Normalize        src/lock/normalize.ts: the loop (run, step, attribute), with its guards in
--                         Noise, the cases of its switch in Entries, normalizeVolatilePath in Volatile,
--                         dropRedundantShellWrappers in Wrappers, getLifecycleBlock and the final pass
--                         in Blocks
--   Lock.Render           src/lock/render.ts: the document that render prints
--   Guest.ProtectedPaths  src/guest/protected-paths.ts: ProtectedPathsMatcher and
--                         applyProtectedPathsPolicy
--   Guest.Attribution     src/guest/attribution.ts: attributionFromEnvVars, buildRootPkgKeys and the class
--                         Attribution, whose cache is passed from call to call (attribute,
--                         invalidate); the choice of the sentinel is src/guest/agent.ts
--   Guest.RootAnchor      src/guest/root-anchor.ts: isRepoRootAnchored
--   Guest.Pids            a Map keyed by process ids
--   Guest.StraceParser    src/guest/strace-parser.ts: unescape and extractQuotedString in Strings,
--                         parseArgvToken in Argv, the calls that open a file in Syscalls, the others and
--                         the switch in Calls, splitArgs, parseRetVal and parseStraceLine in Lines,
--                         parseStraceStream in Lines.Stream; Syscalls.Tokens, Lines.Printed and
--                         Lines.Called say what strace prints
--   Shared.PmCommands     src/shared/pm-commands.ts: the commands; canonicalFlagKey and
--                         registryUrlHasCredentials in Flags, filterAgainstAllowlist in Allow,
--                         splitInstallArgs in Split
--   Shared.Redact         src/shared/redact.ts: maskExactValues, buildFragmentMatcher,
--                         maskValueFragmentsWith and deriveSensitiveValues
--   Shared.VsockProtocol  src/shared/vsock-protocol.ts: parseFrames and classifyFrame
--   Action.Value          the JavaScript values that a YAML parser returns
--   Action.Diff           src/action/diff.ts: findAuditBypass, collectNetworkAttempts and the messages;
--                         Action.Diff.Drift is renderDiff, and Action.Diff.Pipeline
--                         joins normalisation, print and gate
--   Action.Select         src/action/backend/select.ts: runSelectedBackend
--
-- How it is modelled: a JavaScript string is a list of its UTF-16 units; a Map is an association list
-- in the order in which the keys were added; an optional property is an Option; an exception is an err
-- of the Result of the model. The loop of normalize is a recursion on the events that carries the
-- blocks. A regular expression is written as a recursive matcher. Every recursion is structural, but
-- for the decimal digits of a number n, which take n + 1 units of fuel (Base.Decimal proves that the
-- digits do not depend on it) and the two walks over the ancestors of a process, whose fuel is the
-- source's own MAX_DEPTH of 1,024 rounds: their theorems say what is found within it, and that nothing
-- else is. A loop over the indices of a string that jumps ahead is a recursion on the string with the
-- number of units that are still to be passed.
--
-- Parameters: /proc (ProcReader), the maps and predicates of the process tree
-- (RepoRootAnchorInput), toLowerCase and new URL (Platform), micromatch (is_match), the YAML printer (stringify), the package diff
-- (create_two_files_patch, structured_patch), what a backend's run does (run), the YAML parser
-- and the JSON parser (parse) and the strict parse by the zod schema (safe_parse), of which the theorems on the gates
-- ask that it keeps the lists that it reads, but for those of a package or stage named __proto__, which
-- z.record passes over.
--
-- Not modelled: the fd tables of the install phase; the regular expressions that redact the shapes of credentials; the processes, sockets, virtual
-- machines and downloads around the audit (input and output); the checks of inputs and manifests; the
-- shim and the mac host (Rust and C). Of masking, a fragment of no units and an empty value are left
-- aside: the source does not call it so. A JavaScript object is the list of its
-- members in the order of insertion, so keys that are array indices, which JavaScript would move to the
-- front, are left aside.
pub mod Action
pub mod Base
pub mod Guest
pub mod Lock
pub mod Shared
