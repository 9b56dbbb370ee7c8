-- ===== src/Lib.antt =====
-- Verification library of brevi: the host that schedules runs of coding agents (packages/orchestrator),
-- the workers that execute them (packages/worker), and Mission Control, the desktop application that
-- owns the host (apps/desktop).
--
-- The parts and their files:
-- Watermark: one lease's reporting stream on the host (packages/orchestrator/src/workers.ts). The
--   record Lease is the source's Lease; admit_frame, mark_applied, skip_lease_gap and
--   contiguous_below are #admitFrame, #markApplied, #skipLeaseGap and #contiguousBelow.
-- Replay: the replay buffer of one lease on the worker (packages/worker/src/connection.ts).
--   send_reporting, cap_lease_buffer, flush_lease and on_lease_ack are sendReporting,
--   capLeaseBuffer, flushLease and the handler of lease-ack; Kept adds forgetLease and the sweep of the
--   deadlines.
-- Delivery: Watermark and Replay joined to one link. An exchange is a frame leaving the worker, a message
--   taking effect at its receiver, a write that fails or lands, a reconnect, or a restart of the host.
-- Leases: the lease store (packages/orchestrator/src/leases.ts) on the write queue of
--   packages/shared/src/jsonStore.ts. A queued write runs, and the debounce timer fires, at steps of
--   their own.
-- Fleet: enrollment, pairing tokens and credentials (packages/orchestrator/src/fleet.ts). Writes has
--   the writes of its file one by one.
-- Registry: WorkerRegistry of workers.ts. Place is placement and dispatch, Reports the frames of a
--   worker and the completion of a run, Connection registration, disconnects, expiry and restore.
--   It uses Fleet, Leases and Watermark for the state they stand for.
-- Patches: what a worker reports of a run and what the host makes of it (packages/worker/src/reporter.ts,
--   patchFromWire, mergeSandbox and #applyRunPatch of workers.ts), with undefined, null and the JSON
--   text between them.
-- Runs: a run and its parts; Costs: the sums over its cost entries (packages/shared/src/types.ts).
-- Store: RunStore of packages/orchestrator/src/state.ts, the runs in memory with the queue of their
--   writes. Costing holds the cost entries with #interimCostIndex; Disk and Consistent prove what
--   the calls keep.
-- Scheduler: Orchestrator of packages/orchestrator/src/scheduler.ts, as far as it schedules runs.
--   Dispatch is #dispatchQueued, Callbacks what the registry calls, Commands the requests of the
--   dashboard and the timers (Commands/Timers), Recovery the restart. It calls the workers through the
--   record WorkerPool with the laws PoolLaws (Places); Pool shows that Registry is such a pool.
--   Steps puts commands, timers, reports and callbacks into one history; Tickets follows the unfinished
--   runs of a ticket through it.
-- Desktop: update-state.ts, update-policy.ts, summary.ts, supervisor.ts and backoff.ts of
--   apps/desktop/src/main.
-- Base: lists, maps and Boolean tests. The files called Tests apply each result at a concrete input.
--
-- State is passed explicitly. What the code takes from outside is an argument: times in milliseconds,
-- random identifiers and tokens, how a write or a call ends, localeCompare, the digest of node:crypto.
-- In Watermark, Delivery, Leases and Registry/Reports the continuation of a call that waits is an
-- operation of its own, so a history may put anything between the two; so are the two halves of a
-- run's creation in Store, the question of a follow-up in Scheduler, and a call and its write in
-- Fleet/Writes. The other calls of Fleet, Scheduler and Store are one step each: the scheduler's
-- histories take every write of the run store to succeed at once. A claim's write and what follows it
-- are one step of Registry, and so is a registration but for its renewals. Maps are lists of pairs with the place that a JavaScript map gives.
--
-- Fuel: cap_loop runs on the number of frames, since each round drops one; pull_up on the number of
-- applied frames ahead, since each round takes one; first_free on one more than the number of
-- workers, since distinct candidates cannot all be taken. The loop over the queue recurses on the queue.
--
-- Not modelled: the payloads of reporting frames and what stores them, sockets, console lines, views
-- for the interface, attach sessions, the configuration and the connections of the scheduler, the
-- runner, sandboxes, integrations, the web applications. They are I/O, or parts that other modules
-- would describe.
pub mod Base
pub mod Runs
pub mod Costs
pub mod Store
pub mod Scheduler
pub mod Patches
pub mod Watermark
pub mod Replay
pub mod Delivery
pub mod Fleet
pub mod Leases
pub mod Registry
pub mod Desktop
