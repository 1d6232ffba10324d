-- ===== src/Lib.antt =====
-- storix: a file storage service with a virtual file system per namespace (apps/api). A request that
-- changes the tree runs as a mutation: one transaction that locks the namespace, walks the path,
-- changes rows, and then pays the counters of the namespace and its directories, checks limits and
-- quota, and raises the versions of the changed nodes. Around it stand idempotency receipts, upload
-- sessions, and the jobs that clean up.
--
-- The parts and their files:
-- - Base: Boolean tests, lists and sets over the native numbers, signed integers for the bigint
--   deltas, and results.
-- - Upload/Policy: apps/api/src/vfs/upload-session-policy.ts, all its decisions. Times are
--   milliseconds. Upload/Plan and Upload/Staging prove what they promise.
-- - Receipt/Statements, Receipt/Claim: apps/api/src/persistence/vfs-mutation-receipt.repository.ts on
--   the row of one key. Each statement of the database is one step with the clock that it reads, and
--   the clock of the process is apart from the clock of the database. Receipt/Fencing is about every
--   interleaving of the steps, Receipt/Claiming about `claim`, whose loop has three attempts as in the
--   source.
-- - Vfs/State: the rows of vfs_node, blob and namespace (apps/api/src/persistence/entities) for one
--   namespace. Vfs/Mutation: `MutationTx`, the errors, the single statements. Vfs/Chain:
--   `markAncestorChain` and `lockParentChain`. Vfs/Files: `ensureDirectory`, `touchFile`,
--   `putFileContent` (vfs-node.repository.file-mutations.ts). Vfs/Commit: `withMutation` and what it does
--   behind its callback (vfs-node.repository.core.ts). Vfs/Requests: requests one after the other.
--   Vfs/Weights, Vfs/Tree, Vfs/Ensures and Vfs/Balance carry the proofs about the counters, Vfs/Bounds those about
--   the limits.
-- - Ownership/Tables, Ownership/Operations: apps/api/src/persistence/storage-put-ownership.repository.ts,
--   every operation on its three tables; Ownership/Claims and Ownership/Reclaiming are about the claims.
-- - Gate/Queue, Gate/Runner: `QueryGate`, and the queries and transactions of `GatedQueryRunner` of
--   apps/api/src/persistence/sqlite-gate.ts; Gate/Lock is the abstract lock;
--   Gate/Order and Gate/Nesting are about them.
-- - Content/Range: apps/api/src/vfs/range.ts. Content/ArchiveGate: apps/api/src/vfs/archive-gate.ts.
-- - Config/Limits: apps/api/src/common/resource-limit.ts, apps/api/src/vfs/file-expiry-policy.ts and the global
--   limits of apps/api/src/vfs/namespace-quota.ts.
-- - Sessions/Tables: the tables of upload sessions, their parts, the tombstones of reclaimed reservations
--   and the usage counters (apps/api/src/persistence/entities/vfs-upload-*.entity.ts), and the statements on
--   them. Sessions/Parts, Sessions/Staging, Sessions/Lifecycle, Sessions/Finalize and Sessions/Queries: the
--   operations of apps/api/src/persistence/vfs-upload-session.repository.ts. Sessions/Runs: calls one after
--   the other, in which a commit is what one that goes through does to the tables of sessions; one that
--   does not leaves them. Sessions/Commit: the transaction of the commit in
--   apps/api/src/vfs/upload-session-finalize.service.ts, which runs fenceFinalize, the mutation of the
--   nodes and completeFinalize in one withMutation, for whatever putConditionalContent does to the nodes;
--   the row of the namespace stands on both sides. Sessions/Committing and Sessions/Claiming are about it.
--   Sessions/Cleanup: apps/api/src/vfs/upload-staging-cleanup.ts, which Sessions/Refunding is about.
--   Sessions/Books, Sessions/Rows, Sessions/Charges, Sessions/Columns, Sessions/Covering and Sessions/Kept
--   carry the proofs about the counters, which Sessions/Usage states; Sessions/Reserving,
--   Sessions/Storing, Sessions/Finishing, Sessions/Ending and Sessions/Acknowledging are about parts and
--   claims.
-- - Jobs/Stage: the budget and the loops of apps/api/src/jobs/gc-stage.ts, with fuel for as many rounds as
--   the budget has rows. Jobs/Sweep is about them.
--
-- Choices. New UUIDs are fresh numbers, handed out in order. The walk to the root has as fuel one round
-- more than there are rows, which is enough where parents lead to a root. Row locks are left out: the lock
-- on the root of the namespace, or the gate of SQLite, puts the mutations of one namespace in a row. An error
-- rolls the transaction back. The change feed is that of a namespace without a checkpoint, where nothing is
-- recorded. A transaction on the upload sessions runs alone, which is the gate of SQLite or the locks on the
-- usage rows; what it reads twice is the same. Time stamps of creation and update, and the revisions in the answers, are left out.
--
-- Not modelled: HTTP controllers, storage and S3, encryption, authentication, archives, the trash,
-- snapshots, copy and move, the change feed, the passes of the garbage collection, backup, migrations and
-- configuration parsing; they are input and output, or await a model on the same state.
pub mod Base
pub mod Upload
pub mod Receipt
pub mod Vfs
pub mod Ownership
pub mod Gate
pub mod Content
pub mod Config
pub mod Sessions
pub mod Jobs
