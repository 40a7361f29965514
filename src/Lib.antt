-- ===== src/Lib.antt =====
-- Verification of remix: distributed locks and a reliable queue for Go over Redis.
--
-- The program. A lock or a queue is a Go object that keeps its state in Redis: each method sends
-- single commands, transactions and Lua scripts through a client, and Redis runs each of them as
-- one step. The reliable queue (reliablequeue/queue.go) keeps the keys of its messages in a list
-- of pending messages, a sorted set of messages in processing with their deadlines, a sorted set
-- of delayed messages and a list of dead letters, and each message's JSON under a key of its own.
-- The lock (lock/lock.go) keeps its holder's JSON under one key with an expiry, and counts in a
-- hash; the object keeps a hold count and runs a renewal task while it holds the lock. The fair lock
-- (lock/fair_lock.go) is a lock of lock.go before which callers stand in a sorted set of waiting
-- members. The read-write lock (lock/rwlock.go) keeps its readers in one hash, their counts in
-- another and the writer's JSON under a third key; its objects keep no state.
--
-- Shared parts.
--   Base      results and the state monad of all methods (Base/Actions), the rules by which a step
--             returns a result and establishes a predicate (Base/Rules), texts as bytes
--             (Base/Bytes), integers (Base/Int), lists, tests; Base/Framing is for test data.
--   Redis     the server and the client, which are not code of this repository, as parameters.
--             Redis/Server is the interface: a keyspace and commands, each with its documented
--             effect on its key (Redis/Value, Redis/Command). Redis/Client has single commands,
--             scripts and transactions, and a network that may lose a call or its answer.
--             Redis/Hashes sees a hash of counters as a list of counters. Redis/Expiry has TTL,
--             as a parameter. Redis/Memory is a server in memory, for the tests.
--
-- The queue: Queue, for reliablequeue/.
--   Types     types.go: Message, Config, QueueStats. Times are nanoseconds since Go's zero time.
--   Keys      getQueueKey to getMessageKey. Slots: the comparison of a queue's keys.
--   Scripts   the Lua scripts, statement by statement.
--   Ops       the methods, by their names: offer_with_delay is OfferWithDelay, and so on;
--             Ops/Delivery, Ops/Finish and Ops/Upkeep are its parts. A method that reads the clock
--             takes the readings as arguments; a blocking pop takes what others do meanwhile; each
--             loop is over a list.
--   View      the abstract queue: identifiers in place of keys, data by identifier.
--   Spec      what each method does to the abstract queue, on every branch.
--   Refine    the methods against Spec, on servers that show the abstract queue.
--   Sound     the invariant of the abstract queue, and histories of requests; Sound/Lost is about
--             a call that the network loses.
--
-- The lock: Lock, for lock/lock.go and the types of lock/types.go.
--   Types     configuration, stored information, errors, and the JSON that Go and Lua share: a
--             time is a text for Go and may be a number for Lua.
--   Keys      the key names. Scripts: the Lua scripts, statement by statement.
--   Ops       the methods, by their names: lock_internal is lockInternal, and so on; Ops/Info,
--             Ops/Acquire, Ops/Release and Ops/Expiry are its parts. The loop of lockInternal takes a
--             list of rounds, each with its clock readings and with what others do before the next;
--             a list that is used up gives the model's own error `starved`; a list with a round past
--             the timeout is long enough.
--   View      the stored text and the counters. Spec and Refine as for the queue.
--   Lapse     the expiry that SET ... EX sets, on the server's clock, and the key's end by it.
--   Held      the holds and renewal tasks of an object. Each task closes the end channel that it
--             started with, and looks at the object's current stop channel; the tasks that wait for
--             the mutex in renewLock are an argument of Unlock (Ticks). `stuck` and `panicked` are
--             errors of the model: Unlock waits without end, and a closed channel is closed.
--   Exclusion, Others, Loop, Unlock, Lease, Reentrant, Renewal: consequences for callers.
--
-- The read-write lock: RwLock, for lock/rwlock.go.
--   Types     the objects that the scripts write, as Lua and Go read them. Keys: the key names.
--   Scripts   the Lua scripts; write_guard is the test of the stored writer, which both use.
--   Ops       the methods: read_lock is Lock of the read lock, write_lock that of the write lock,
--             and so on. Ops/Loop has acquire_loop, the loop of both lockInternal methods, over a
--             list of rounds as in Lock.
--   View      readers, counts, writer and counters; View/Commands has the commands on them.
--             Spec and Refine as for the queue, for every lease.
--   Exclusion, Kept, History, Readers, Nested, Writers, Waiting: consequences for callers; a
--             history has calls of any objects, lost calls and keys that Redis lets expire. Fields:
--             lemmas on hashes.
--
-- The fair lock: FairLock, for lock/fair_lock.go.
--   Types     floating-point scores as a parameter (Doubles), and LockStats of lock/types.go.
--   Scripts   the Lua scripts; a Lua false is a missing value for Go.
--   Ops       the methods: lock_fair_internal is lockFairInternal, queue_up its part after the
--             re-entrant case, and so on.
--   View      the queue beside the lock's own keys. Order: places in the queue.
--   Keeps, Queueing, Cleaning, Turns, First, Calls, Stats: what the methods do to the queue, and
--             who gets the lock.
--
-- Assumptions. A server runs one command, script or transaction at a time. Hash fields are
-- integers or other texts, the counters of the statistics are natural numbers, none grows beyond
-- 64 bits, and sorted sets have natural scores. `encoding/json` and cjson read what they wrote,
-- and the text of a time is no number for Lua: fields of the interfaces Codec, Json and Objects. A
-- call with a context that has ended is not sent. Theorems that say "with every call answered"
-- assume that the network loses no call. A key with an expiry does not vanish within a call: its
-- end is a deletion between two calls. Lock/Lease and Lock/Others place it by the server's clock,
-- RwLock/History anywhere; elsewhere a key expires only where the changes that others make between
-- two rounds or commands say so. The goroutine that cleans the queue of a fair lock runs before
-- Unlock returns.
--
-- Not modelled. Destroy and the start of the clean-up goroutine in queue.go; generateOwnerID and
-- getThreadID in lock.go, whose results are arguments; the texts of error messages, the
-- demonstrations in examples/ and the Go tests.
pub mod Base
pub mod Redis
pub mod Queue
pub mod Lock
pub mod RwLock
pub mod FairLock
