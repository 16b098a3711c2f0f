-- ===== src/Lib.antt =====
-- DbBackup: a server that backs up databases and keeps pairs of them in step. This library models
-- parts of the server that decide what is signed in, copied, encrypted, restored, kept and
-- deleted, as functions from a state and a request to a new state and an answer.
--
-- The sign-in (Auth):
-- * Auth.Lockout is server/src/services/login-lockout.service.ts: isLoginLocked,
--   recordLoginFailure, clearLoginFailures, recordAccountFailure and shouldNotifyFailure, over the
--   three in-memory maps.
-- * Auth.Login is login of server/src/controllers/auth.controller.ts, which calls them in the
--   order of the source. The handler is split at its awaits: login takes a request that no other
--   one comes between, let_in takes requests that overlap in any way.
-- * Auth.Sessions is what comes after a sign-in: the tables of users, refresh tokens and passkeys,
--   authenticate of server/src/middleware/auth.middleware.ts and the rows of
--   server/src/services/token.service.ts. Auth.Sessions.Signing is login (with the decision of
--   Auth.Login), register, refreshToken and logout of server/src/controllers/auth.controller.ts,
--   Auth.Sessions.Revoking is changePassword, revokeSession and revokeAllSessions there and
--   setUserStatus of server/src/controllers/admin.controller.ts, and Auth.Sessions.Passkeys is
--   server/src/services/passkey.service.ts with its handlers. Auth.Sessions.Reach is the step
--   relation of all of them, with the two writes of a change of the password as steps of their
--   own.
--
-- The synchronisation (Sync):
-- * Sync.TableOrder is server/src/queue/sync/execution/table-ordered-executor.ts:
--   topologicalSortTables and getTablesInDependencyOrder.
-- * Sync.Values and Sync.Keys are the values of server/src/services/sync/types.ts and the keys of
--   server/src/queue/sync/utils/conflict-key.ts.
-- * Sync.Validation is server/src/queue/sync/validation/change-validator.ts.
-- * Sync.Conflicts is server/src/services/sync/conflict-resolver.service.ts.
-- * Sync.Incremental (the tables and the batch) and Sync.Incremental.Runs (the loops and the run)
--   are executeIncrementalSync of server/src/queue/sync/handlers/incremental-sync.handler.ts,
--   which fetches the pending changes, has Sync.Conflicts resolve what both sides changed, orders
--   the tables by Sync.TableOrder and applies the changes that Sync.Validation accepts, batch by
--   batch: the rows, their marks and the checkpoint are three writes, each of which can fail.
--   Sync.Incremental.Refused is what a conflict does to a run.
-- * Sync.Full is executeFullSync of server/src/queue/sync/handlers/full-sync.handler.ts, with the
--   pages of server/src/queue/sync/utils/pagination.ts.
-- * Sync.Engine is server/src/services/sync/sync-engine.service.ts: Sync.Engine.Configs creates,
--   updates and deletes configurations, Sync.Engine.Activation activates, pauses, resumes and
--   stops them, Sync.Engine.Trigger queues a job, Sync.Engine.Modes holds the timers, schedulers
--   and jobs these start and cancel, and Sync.Engine.Ticking is the callback of the polling timer
--   and the recovery after a restart. Sync.Engine.Worker is the job of createSyncWorker in
--   server/src/queue/sync/sync.queue.ts. Sync.Engine.Reach is the step relation of all of them.
-- * Sync.Sanitation is server/src/queue/sync/sanitation/data-sanitizer.ts, and Sync.Apply is
--   applyChangeBatch of server/src/queue/sync/execution/change-applicator.ts, which sanitizes a
--   change, builds its statements (Sync.Apply.Statements) and runs them in a transaction.
-- * Sync.Cdc is the triggers and the checkpoint of
--   server/src/services/sync/mysql-cdc-tracker.service.ts and postgresql-cdc-tracker.service.ts
--   beside it.
-- * Sync.Schema is server/src/services/sync/schema-validator.service.ts: the comparison of two
--   schemas, the verdict and the conversion of types.
--
-- The stored backups (Storage):
-- * Storage.Retention is server/src/services/retention.service.ts, Storage.Quota is
--   server/src/services/quota.service.ts.
--
-- The backups themselves (Backups): a dump becomes a file, is checked against the quota,
-- encrypted, uploaded and recorded, and is found again for a restore.
-- * Backups.Worker is the job of server/src/queue/backup.queue.ts, step by step; Backups.Attempts
--   is what addBackupJob makes the queue do with it. An attempt is given with what the world
--   around it does: whether the dump succeeds, what the disk keeps of what is written, what the
--   remote storage does.
-- * Backups.Crypto is server/src/services/backup-crypto.service.ts. Backups.Fetch is
--   ensureLocalBackupFile of server/src/services/storage.service.ts, and Backups.Restore is the
--   job of server/src/queue/restore.queue.ts, which calls it.
--
-- The keys (KeyManager): KeyManager is server/src/services/crypto/key-manager.ts, which every
-- stored password and passphrase goes through: the keys of the environment, the choice of the
-- primary one, and the key that decrypts a text. KeyManager.Rotation follows a text over a change
-- of the keys.
--
-- The periodic checks (Monitoring): Monitoring is runStorageChecks of
-- server/src/services/storage-alerts.service.ts, runBackupWatchdog of
-- server/src/services/backup-watchdog.service.ts and the loop of
-- server/src/queue/heartbeat.queue.ts over the users.
--
-- The interface for agents (Mcp):
-- * Mcp, Mcp.Tools, Mcp.Dispatch and Mcp.Approval are server/src/services/mcp.service.ts: the
--   tables, the registry of tools, dispatchTool, and approveMcpAction with denyMcpAction.
--   Mcp.Routes is server/src/routes/mcp.routes.ts: the authentication by a key, the messages and
--   the management of keys. Mcp.Dispatch.Quota plays the statements of many requests in any order;
--   Mcp.Routes.Reach is the step relation of whole requests.
--
-- Times are natural numbers of milliseconds, and a difference of times stops at 0. The databases,
-- the queue, the clock, the identifiers, the password check, the ciphers and the hashes are
-- parameters. A number of days, of bytes or of attempts is a natural number. The loop of the table
-- order runs on the number of tables plus one, and the loop over batches on the number of changes
-- plus one. The loop over pages runs on fuel that is given; more than the rows of the largest
-- table is enough.
--
-- Not modelled: that a write to the server's own tables fails, except in a run of the incremental
-- synchronisation and where a conflict lacks a column; the text of SQL statements, child
-- processes, files and networks, the messages of progress and of mails, the session cookie, and
-- the web client.
mod Prelude
mod Tests
pub mod Auth
pub mod Sync
pub mod Storage
pub mod Monitoring
pub mod Mcp
pub mod Backups
pub mod KeyManager
