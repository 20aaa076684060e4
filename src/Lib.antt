-- ===== src/Lib.antt =====
-- The agent of ServerKit: a daemon that keeps a connection to a panel, runs the panel's commands under a
-- local permission level, and streams events back.
--
-- The parts and their files:
-- Protocol: the inbound messages and the action names of pkg/protocol/messages.go.
-- Permissions: internal/permissions/permissions.go. `allowed`, `check`, `channel_allowed` and `parse` are
--   Allowed, Check, ChannelAllowed and Parse; a level is a string, as in Go.
-- Jobs: internal/jobs/jobs.go. `push`, `replay` and `new` are Push, Replay and New; a mutex region is one
--   operation. Ids come from crypto/rand, so `new` takes the id.
-- Events: internal/events/store.go. `append`, `clear`, `load` and `new_store` are Append, Clear, load and
--   NewStore. The file is what it decodes to, and a Boolean says whether the write succeeds. `none` of
--   `append` is a panic.
-- Transport: internal/transport/manager.go. The select loop of Run is `step` on a signal and on what the
--   websocket client reports; a second flag marks the deadline timer.
-- Agent: internal/agent/agent.go. Agent has the state and handleCommand and submitCommand,
--   Agent/Handlers registerHandlers, Agent/Subscriptions handleSubscribe and handleUnsubscribe with
--   Agent/Streams on the streams that they keep, Agent/Rotation handleCredentialUpdate with SaveCredentials
--   of internal/config/config.go, Agent/Pool handleMessage, Agent/Service and Agent/Runs its runs with the
--   pool, Agent/Sampler internal/agent/sampler.go. A worker's handler call and its report are one step of a
--   run, taken when the worker finishes, in any order.
-- Cron: internal/cron. `parse_line` is parseLine, `add`, `remove` and `toggle` are the linuxManager's Add,
--   Remove and Toggle, on the text of the table, and `apply_update` is applyUpdate. `scan_lines` is a
--   bufio.Scanner with its limit of 64 KiB. Cron/Rewriting is about the two passes of applyUpdate.
-- Protect: internal/agent/protect_handlers.go. Protect has the checks of operator values, Protect/Tools the
--   handlers that run one command, Protect/OriginLock those of the Cloudflare lock; Running, Locking,
--   Unlocking and Validation are about them. A handler is a function on the log of commands that ran
--   (Base/Steps), and a host says what a command does after the commands before it.
-- SshKeys: internal/agent/sshkeys.go, with SshKeys/Machine and SshKeys/Handling for sshkeys_handlers.go and
--   sudo.go. `parse_line` is parseAuthorizedKeysLine and `upsert_lines` the loop of authorizedKeysUpsert;
--   Lines, Materials, Format, Adding and Safety are about them.
-- Files: internal/agent/file_handlers.go. `resolve_symlink_path` is resolveSymlinkPath, and a file system
--   is a parameter. Resolving, Roots and Access are about them.
-- Updater: internal/updater/updater.go. DownloadUpdate and what it checks, and in Updater/Installing
--   installUnix on the two files that it moves, in Updater/Updating UpdateTo, and in
--   Updater/Checking checkAndNotify of checker.go.
-- Services: internal/servicecheck/servicecheck.go, with Services/Custom for the checks that an operator names.
--   `scan_units` is the loop of web and databases. Services/Units is about them.
-- LocalApi: internal/ipc/server.go. `serve` is the handler that Start gives to the HTTP server, on the bytes of a
--   request's headers, and LocalApi/Guarding is about it.
-- Connections: internal/connstring/connstring.go and internal/auth/auth.go, and Connections/Decoding about them.
-- Transport/Polling: internal/transport/poll/client.go, a round of the loop at a time. Transport/Reporting:
--   internal/transport/report/report.go.
-- Backoff: nextBackoff of internal/ws/client.go, in which the float64 jitter is a function.
-- Base: strings as lists of code points, association lists for maps, ℤ, wrap-around at 64 bits; Base/Parts says
--   what the tests on parts of a text mean.
-- Tests: the models on concrete inputs.
--
-- The agent calls Permissions before a handler and before a stream, finds a job's history through Jobs,
-- and writes rejections to Events, of which its state keeps the messages. What it sends goes to the
-- transport; a send's result is ignored as in the source, except in the replay of a job's events.
--
-- Bounds: timeouts are int64 nanoseconds, with the wrap of the product written out; event ids are int64.
-- Every function is structural but for two that have fuel: the digits of a number, one round for each
-- unit, and the walk up a path in Files, one round for each character of the absolute path and one more,
-- which is enough since a parent is shorter than its path.
--
-- Parameters: the handlers, the HMAC, the hash of an entry's id, crontab(1)'s errors, the host's file
-- calls and their errors, net/netip, path/filepath and the file system, the archives and hashes of an
-- update, systemctl's outputs and what requests and connects come to, net/url and time.Parse, the order
-- in which Go ranges over the checksums, base64 and fingerprints, the transport's SendStream, the clock, and Go's case table beyond ASCII.
--
-- Not modelled: the websocket client's I/O, requests and JSON, timeouts and the mutex of the key handlers,
-- the removal of temporary directories, the work of the other handlers (docker, systemd, packages and the
-- like), the loops for heartbeats and discovery, and the desktop programs.
pub mod Base
pub mod Protocol
pub mod Permissions
pub mod Jobs
pub mod LocalApi
pub mod Events
pub mod Transport
pub mod Agent
pub mod Backoff
pub mod Cron
pub mod Protect
pub mod SshKeys
pub mod Files
pub mod Updater
pub mod Services
pub mod Connections
pub mod Tests
