-- ===== src/Lib.antt =====
-- A verification library for token_throttle, a rate limiter for calls that spend several metrics (tokens,
-- requests) at once. A limiter gives out reservations; a backend holds a bucket for each metric and
-- window; a reservation is acquired by taking its usage from every bucket of its metrics, all or
-- nothing, and is refunded once with what it did not use.
--
-- Parts of the program, and the files that model them:
--   token_throttle/_capacity.py: Capacity.antt. calculate_capacity is the refill of a bucket between two
--     readings; Capacity/Refill and Capacity/Checks hold its bounds and the arguments it accepts.
--   token_throttle/_validation.py and the number checks of _interfaces/_models.py: Validation.antt.
--   token_throttle/_limiter_backends/_memory/_bucket.py: Memory/Bucket.antt, the record MemoryBucket
--     and its methods under their own names.
--   token_throttle/_limiter_backends/_memory/_sync_backend.py: Memory/State.antt (the record Backend, the
--     reads and writes of capacities), Memory/Reservations.antt (the registry of acquired and
--     refunded reservations), Memory/Consume.antt (_try_consume_locked, consume_capacity),
--     Memory/Wait.antt (wait_for_capacity), Memory/Refund.antt (refund_capacity_for_buckets) and
--     Memory/Config.antt (build, set_max_capacity, prepare_reconfigured_backend). The backend's
--     invariant is IsBackend of Memory/Invariant.antt.
--   token_throttle/_sync_rate_limiter.py: Limiter.antt (the record Limiter and the bookkeeping of
--     reservations pending or in flight), Limiter/Close.antt (close), Limiter/Families.antt
--     (clear_unused_model_families), Limiter/Projection.antt (_project_refund_scope, the limits kept over
--     a rebuild), Limiter/Refund.antt (_refund_capacity, refund_capacity), Limiter/Aliases.antt
--     (_validate_shared_model_family_config and the caps) and Limiter/Acquire.antt (acquire_capacity,
--     record_usage). What an acquire meets outside of the limiter's maps, the backend among it, is the
--     record Acquisition, and what a refund meets is the record Surroundings; their functions may change
--     the limiter as other threads do.
--   token_throttle/_limiter_backends/_debt_ttl.py and _sqlite/_ttl.py: Sqlite/Ttl.antt.
--   token_throttle/_limiter_backends/_sqlite/_engine.py: Sqlite/Tables.antt (the three tables and the
--     statements on them), Sqlite/Engine.antt (the record SqliteEngine, _transaction, _prune),
--     Sqlite/Initialize.antt, Sqlite/Rows.antt and Sqlite/Load.antt (_load_states),
--     Sqlite/Write.antt (_write_capacities),
--     Sqlite/Markers.antt (_raise_if_duplicate_acquire, _insert_marker, _verify_marker),
--     Sqlite/Operations.antt (try_consume, consume), Sqlite/Refunds.antt (refund,
--     cleanup_consumption), Sqlite/Overrides.antt (runtime limits, inspection) and Sqlite/Run.antt
--     (any operation that writes).
--   token_throttle/_exceptions.py: Exceptions.antt.
--
-- How the parts interact: the limiter projects a refund onto the buckets that are still active and calls
-- the backend's refund with the result, whose checks are those of Validation; the backend reads its
-- buckets through calculate_capacity and writes them through set_capacity. Action.antt is a method
-- call: explicit state, with an exception as a value, where what was written before a raise stays.
--
-- Numbers: Python's float is an interface (Float.antt), and theorems assume the laws of IEEE 754
-- comparison and monotone rounding that IsIeee lists; Float/Ints.antt is an instance that meets
-- them. A dict or a set is a list with distinct keys (Base/Dict.antt). Names of metrics, models,
-- families and reservations are only compared, so they are natural numbers.
--
-- SQLite: a Store is one engine and the file that it shares with engines of other processes. A
-- transaction is one step on the store, as its write lock makes it; a Turn says what the locks and
-- the clock decide for it. Rows are compared as SQL does, by the columns of the WHERE clause; a
-- stored JSON text is the sorted list that it prints, its numbers compared by their text. The rows
-- that DELETE ... LIMIT picks are taken in table order.
--
-- Loops: every loop is a recursion on the list it runs over. The two loops of wait_for_capacity run
-- over a list of rounds, each with the clock readings of one attempt and what other threads do to
-- the backend while the lock is free; a call for which the list is too short is still waiting.
-- A critical section of the code is one step, so every interleaving at the granularity of the locks
-- is a choice of rounds; an Interruption says what other threads do before a consumption is given
-- back. The lookup of the bucket in set_max_capacity, before the lock, is part of its step.
--
-- Not modelled: log records, warnings and callbacks that write no state; the refresh of a callable
-- configuration, which a refund through the limiter takes as an argument, as an acquire takes the
-- building of a backend; the lengths of names; the asyncio twins; the Redis backends; the wrappers
-- around the SQLite engine, its connection and its schema; token counting; diagnostics.
pub mod Base
pub mod Float
pub mod Exceptions
pub mod Action
pub mod Capacity
pub mod Validation
pub mod Memory
pub mod Limiter
pub mod Sqlite
pub mod Tests
