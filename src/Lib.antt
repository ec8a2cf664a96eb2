-- ===== src/Lib.antt =====
-- Dire Agent runs conversations with a model: a daemon keeps the conversations, starts the runs
-- of their agentic loop and queues what clients send meanwhile, and conversations may spawn
-- others as subagents of a team. This library models the loop, the accounting of tokens, the runs
-- of a conversation, the teams, the configuration with its file, the response stream of the
-- provider, the supervisor of the daemon, the rules on skills, the output of extensions and the
-- names of MCP tools.
--
-- Loop, Agent, Usage: agentloop/loop.go and the values of agent/agent.go. Loop.Run has one
-- definition for each part of RunWithImages, from run_with_images and turns (the loop over the
-- steps) down to finish_turn; Loop.Tools has the execution of tool calls with their hooks (lines
-- 171 to 225), Loop.Reasoning the OnEvent callback, Loop.Config New and its defaults. An
-- operation is a function of a world, and returns the world, the events that it emitted and a
-- value or a Failure (Loop.Outcome). A session, a tool and a hook are arbitrary functions of the
-- world; ctx.Err() reads it. Loop.Trace reads a log with an automaton; Loop.Grammar is the one of
-- the phases of a run, Loop.Answer one that counts usage and tool executions. The loop is bounded
-- by MaxSteps, as in the source (32 where the configuration names none), so no fuel is added.
-- Usage: aggregateUsage, and accumulateUsage and usagePresent of daemon/manager_events.go.
--
-- Runs: daemon/manager_runs.go. Runs.State has the fields of threadRuntime that its mutex guards
-- and one function for each section that holds the mutex; Runs.Steps interleaves the sections of
-- clients and of runs as a list of actions on a System, the runtime with the runs that have not
-- returned. Runs.Queue is about the queues, Runs.Sound about every action, Runs.Alone about
-- orders in which a conversation has one run, and Runs.Race about the window in which a prompt
-- starts a second one.
--
-- Team: daemon/subagents.go, daemon/subagent_messages.go and daemon/subagent_permissions.go.
-- Team.Spawn has SpawnAgent over the list of stored threads, with Team.Policy for the limits and
-- Team.Tools for the tools of a child; Team.Grants has effectiveSubagentTools, bounded by 128
-- ancestors as in the source; Team.Route has isAncestor and authorizeTeamRoute, Team.Wait the
-- choice of the awaited agents and Team.Mailbox the mailboxes. isAncestor has no bound in the
-- source: its loop is given the depth of the thread plus one as fuel, which is enough where each
-- parent is less deep, as spawning makes it, and Team.Ancestry is about that. Where it is not enough
-- the model answers none, for a loop that has not ended, and so do the callers of isAncestor.
-- Team.Granting has what the child of a spawn is granted.
--
-- Configuration: configuration/types.go and configuration/patch.go as records,
-- configuration/merge.go as Configuration.Merge (Effective and the functions applyXPatch), and
-- configuration/redact.go as Configuration.Redact (publicConfig) and Configuration.Restore
-- (restoreRedacted). A map is an association list with each key once, and a deep copy is the
-- value itself: a configuration has no value that encoding/json cannot write or read.
-- strings.ToLower is an argument of the tests for secret names. Team.Types has the limits of
-- subagents again, as natural numbers. A nil list of launchers stands for the built-in ones, so it
-- is kept apart from an empty one.
--
-- McpClient: mcpclient/names.go, the names of the tools of MCP servers.
--
-- The validation is configuration/validate.go and configuration/validate_values.go:
-- Configuration.Values has the tests on single values and the errors, Configuration.Shortcut and
-- Configuration.Launchers the launchers, Configuration.Parts one function for each part of the
-- settings, Configuration.Validate Validate. Go's order of a map's entries is arbitrary; here it
-- is that of the list, so that where several entries are wrong only one of the errors is
-- modelled. Configuration.Defaults has DefaultConfig, and ModelCatalog modelcatalog/catalog.go.
--
-- Configuration.Store: configuration/store.go and configuration/atomic.go. An operation is a
-- function of the content of the file, absent before its first use, that returns a value or an
-- error and the content after it; the lock is held for the whole of an operation, so that an
-- order of operations is a list. Configuration.Io lists the calls of the operating system and of
-- encoding/json; each may fail, and a write that fails after os.Rename has been made. The modules
-- below Configuration.Store are about the file (File), orders of operations (Durable, Stale), the
-- abstract register (Refines), SetProjectSandbox (Sandbox), the settings handed to the daemon
-- (Bounded) and edits of the public view (Edit).
--
-- Codex: provider/codex/response_stream.go, response_result.go, response_usage.go and
-- response_types.go. Codex.Blocks splits a stream into blocks and handles these one by one, apart
-- from the code, and is what the reader is compared with. Codex.Stream reads the lines of a
-- stream, with the callback's calls as a list of events, and Codex.Answers the items of the
-- result. The lines and the errors of the reader and of the context are given, as are the
-- decoders of JSON.
--
-- Lifecycle: internal/lifecycle/runtime.go and internal/lifecycle/supervisor.go. Lifecycle.Runtime
-- has the runtime file, the health answers and their tests, Lifecycle.Removal the removal of the
-- file beside another daemon that may install its own, Lifecycle.Session the calls of an arbitrary
-- environment with a log of what was seen and done, Lifecycle.Supervisor Start, and Lifecycle.Stop
-- Stop, Status and IsRunning. A polling loop is bounded by the number of poll intervals in its
-- timeout, at which the source ends it too. Lifecycle.Trace has lemmas for each part of a method.
--
-- Skills: skills/rules.go. Skills.Rules compiles the rules on paths and finds the one that decides
-- on a skill, and Skills.Winner is about that rule. Package path/filepath is an argument, with the
-- file system as it is at the time of the discovery.
--
-- Extensions: extensions/buffer.go, the buffer of a process's error output, as a list of bytes with
-- its maximum, which the limits of the runtime make positive. Extensions.Kept is about orders of
-- writes.
--
-- Text is a list of code points and a JSON value is its text. Token counts are the bit patterns
-- of int64, below 2 ^ 64, with the wrap-around written out. The limits of the subagent settings
-- are natural numbers: a configuration with a negative limit is refused before it is used. Of a
-- thread, the category, the worktree and the time stamps are left out. What the manager meets
-- outside this code, such as the errors of the database or the quoting of fmt, is a field of
-- Surroundings or of Prompt.
--
-- Not modelled: persistence, transports, processes, the terminal and web clients, which are input
-- and output; the opening of the daemon's log and the file locks of the supervisor; the requests
-- to providers; the files and the invocations of skills, the processes of extensions and the
-- sessions with MCP servers. Tests applies the theorems to concrete runs, teams, conversations,
-- configuration files, streams, daemons, skills and buffers.
pub mod Agent
pub mod Codex
pub mod Configuration
pub mod Extensions
pub mod Lifecycle
pub mod Loop
pub mod McpClient
pub mod ModelCatalog
pub mod Prelude
pub mod Runs
pub mod Skills
pub mod Team
pub mod Tests
pub mod Usage
