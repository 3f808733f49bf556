-- ===== src/Lib.antt =====
-- OpenCode Advance (oca): validation of its configuration, its maintenance command, the writing of
-- files, its Temporal server, its reports, and the block in the start-up file of the shell.
--
-- oca reads stack.toml, the description of a developer machine's OpenCode installation: MCP servers
-- and pools of slots, plugins, a local Temporal server and a dozen smaller sections. Decoding
-- (internal/config/parse.go) gives a `Stack`; `Resolve` expands its tokens; `Validate` checks it and
-- writes defaults into it; rendering and the commands of cmd/oca start from a validated stack. `oca maintain` builds a plan of
-- merges, rebuilds and worktree cleanups and executes it, unless its session gate finds OpenCode
-- running in the project.
--
-- Which file models what
-- - Prelude: shared names, Boolean tests, predicates on lists, Go maps as lists of entries, Go's int
--   (Prelude/Int), strings and formatted messages (Prelude/Text), strings.Split and TrimSpace
--   (Prelude/Split), package filepath on clean paths (Prelude/Paths). Value is Go's `any` as decoders fill it.
-- - Config/Types, Config/Sections/Types: the structs of internal/config/types.go.
-- - Config/Servers: validateMCPServers and inferTransport of internal/config/validate.go; the loop
--   `scan_servers` carries the map portOwners and the variable daemonServer.
--   Config/Servers/Duration is time.ParseDuration. Checks, Round, Scan and Accepts prove what the
--   checks of one server, one round, the loop and the whole accept.
-- - Config/SlotGroups: validateMCPSlotGroups; `scan_groups` and `scan_slots` are its two loops.
--   Ranges, Scan and Accepts are the proofs.
-- - Config/Sections, Config/Toggles, Config/Temporal: the other validators and isLoopbackAddress;
--   Temporal/Hosts and Temporal/Remote are the proofs about the address.
-- - Config/Validate: `Stack` and Validate; since validation writes defaults, `validate` returns the
--   errors and the stack as the call leaves it.
-- - Config/Expand, Config/Resolve: internal/config/resolve.go. A pattern is a function of the text at a
--   place; `rewrite` replaces its matches from left to right. Keeps, Tokens
--   and Paths are the proofs.
-- - Maintain/Types: the data of internal/maintain/plan.go. Maintain/SessionGate:
--   internal/maintain/session_gate.go; Ancestors and Blocked are the proofs.
-- - Maintain/Cleanup: internal/maintain/cleanup.go. Maintain/Drift: internal/maintain/plugin_drift.go.
--   Maintain/Planner: `Planner` and the reports of its functions, with advance_state.go.
--   Maintain/Plan: Planner.Build and its loops; Reasons and Allowed are the proofs.
-- - Maintain/Git, Maintain/Execute: internal/maintain/execute.go. Maintain/Rebuild: RunBuild of
--   internal/plugin/build.go and WriteBuildMarker. Maintain/Machine: what they run on. A run is a list of
--   events, the latest first: a command with its reply, a look at a file, a directory made, a marker
--   written. What the machine answers is a function of the events so far, so it may change between any two commands.
-- - Render/Fields, Render/Merge: the merges of internal/render/merge.go into a decoded document, where
--   a document is `Fields` of Value. Render/Array: internal/render/array_merge.go and
--   MergeWatcherIgnore. A write to a nil map is the outcome `panicked`. Merge/Keys,
--   Merge/Laws, Merge/Documents, Array/Keeps and Array/Laws are the proofs.
-- - Render/Sections: formatters.go, commands.go, lsp.go, instructions.go and plugin.go of internal/render;
--   Sections/Plans has the plans that merge them (with watcher.go) into opencode.json, Sections/Maps
--   and Sections/Plans/Converges the proofs. jsonMarshalIndent is a parameter that cannot fail.
-- - Render/Disk: the calls of package os, each of which may fail, and a failed write may leave anything.
--   Render/Atomic: WriteAtomic of internal/render/atomic.go and internal/render/backup.go. The names it
--   uses are told apart by a function `kind` into temporary files, backups and other files. Names,
--   Prunes, Replaces and Writes are the proofs. Render/Apply: internal/render/apply.go and types.go;
--   Spec has the specification of a success, Undoes, Rollback and Restores the failure.
-- - Install/Cut, Install/Profile: internal/install/shellprofile.go, on the disk of Render/Disk. `cut` is
--   strings.Index with the slices on both sides. Profile/Template is the text of the block.
-- - Supervisor: Start, Stop, Restart, EvaluateStatus and CleanupStaleMetadata of
--   internal/temporal/supervise.go. The world is the metadata file and the trace of what was done, the
--   latest act first; what the machine answers (`Env`) is a function of the trace. Acts, Dead, Starts,
--   Clears and Stale under Operations are the proofs.
-- - Occupancy: internal/occupancy/occupancy.go. Records parses and groups, Warnings classifies and warns;
--   the range over the map of warnings takes the order in which its keys were first written.
-- - Runtime: internal/advruntime. Types, Summary (addFinding and refreshSummaryStatus), Recovery
--   (recovery_plan.go), Attributes (search_attributes.go), Workflows (workflows.go), Debt and
--   Sessions (session_debt.go), Worktrees (worktree_census.go), Locks (worker_lock.go), Workspaces
--   (workspace_projection.go), Provider (provider.go). A database is its rows with what json_extract
--   reads of them; NULL is `none` and SQL's three truth values are `Option Bool`. Times are integers,
--   nanoseconds from 1970. What a deletion does, its copies, statements and commit, is a list of
--   events, the latest first; Rows, Backups and Deletes under Sessions are the proofs.
-- Modules named Examples run the definitions on concrete inputs.
--
-- Bounds and fuel
-- - int is 64 bits wide; the additions of validateMCPSlotGroups that can leave it go through `wrap64`.
-- - The walk of callerAncestorPIDs has as fuel the number of processes and two. A round that does not
--   stop adds a pid, all pids but one belong to listed processes, and no pid is added twice, so the
--   fuel is never used up: `walk-IsDone` of Maintain/SessionGate/Ancestors rests on this count.
-- - The loops of waitReachable and waitStopped run on the number of rounds that the clock allows, a
--   parameter; both end with the answer of their last look.
-- - The loop of listADVWorkflows runs on fuel. Where a measure of the page token falls from page to
--   page, fuel above the measure of the first token is enough; without such a measure a service could
--   send the loop round for ever.
-- - time.ParseDuration has as fuel the length of the text; each component reads a character.
--
-- Conventions
-- - A Go string is a text of characters: bytes that are no UTF-8 are left out.
-- - A Go map is a list of entries. Where the source sorts the keys the model does (`sort_entries`);
--   where it ranges over the map in no fixed order the model takes the order of the list.
-- - An error message of fmt.Sprintf is kept as its format with its arguments, or written out.
-- - The difference of two times is exact, where Go cuts it off at 292 years.
-- - A fraction of a duration is computed exactly and rounded down, where Go goes through float64.
--
-- Parameters: normalizeProjectRoot (filepath.Abs, EvalSymlinks and Clean on the file system), the list
-- of processes read from /proc, git and the other programs, the reading and writing of files, the
-- existence of files, the home and data directories, encoding/json, SHA-256, strings.ToLower, the
-- answers of Temporal's services, the printing of durations and the functions that the source itself keeps in the fields of `Planner`.
--
-- Not modelled: decoding of TOML and JSON and marshalling; of the targets, providers, permissions,
-- toggles, skills, the fragments of servers and Vision's YAML, and their composition into one plan; the
-- clients of the Temporal server. The commands of cmd/oca, the dashboard, the
-- health checks, the installer but for its block, the migration, git, npm, tmux and Temporal clients are input and
-- output around them.
pub mod Prelude
pub mod Value
pub mod Config
pub mod Install
pub mod Maintain
pub mod Occupancy
pub mod Render
pub mod Runtime
pub mod Supervisor
