-- ===== src/Lib.antt =====
-- flyc: the waiting room, and the part of its control plane that configures it.
--
-- The program. flyc-queue (queue/) keeps the rooms in Redis: visitors get tickets, the tickets of a
-- time window are a wave, a closed wave is shuffled and ranked into the set pending, and once a second
-- one replica per room, the holder of a lease, admits tickets from pending at the room's rate and
-- signs a pass for each. The handlers answer polls, streams and requests for a pass. flyc-control
-- (control/) compiles the database into what the load balancers and flyc-queue should hold, and
-- pushes it.
--
-- Files and sources.
--   Base, Base/*        numbers, lists, texts as lists of bytes, the decimal texts of strconv
--   Room, Room/*        queue/internal/room/room.go: Parse, Key, Validate, ToHash, FromHash, Wave, WaveScore
--   Redis, Redis/*      the commands of the client, a service that executes them (a parameter), its
--                       documented laws, and a service in memory for the runs
--   Store, Store/*      queue/internal/store/store.go: one function per method, over a Redis service
--   Pass, Pass/*        internal/pass/pass.go: Mint and Verify
--   Admitter, Admitter/*  queue/internal/admitter/admitter.go: tickOnce as prepare (waves, counts) and
--                       admissions, a round of loop as loop_round, the end of loop as loop_end
--   Hub, Hub/*          queue/internal/hub/hub.go: BuildStatus, Subscribe, pump, a round of statusLoop
--   Api, Api/*          queue/internal/api/api.go: the handlers, as functions from the database to an
--                       answer and the database
--   Keys, Keys/*        queue/internal/keys/keys.go: the client that fetches the signing key
--   Compile, Compile/*  control/internal/compile/compile.go: Build over the rows of its queries
--   Reconcile, Reconcile/*  control/internal/reconcile/reconcile.go: pushEdge and the decision of RunAuto
--   QueueClient, QueueClient/*  control/internal/queueclient/queueclient.go: PutRoom and Call over the hosts
--   Jobs, Jobs/*        control/internal/jobs/jobs.go: Submit, Get, List, refresh, cleanup; Jobs/Protocol has
--                       the steps of control and of the runner (runner/run.py) on the shared directory
--   Dataplane, Dataplane/*  control/internal/dataplane/client.go: the client's methods over an HTTP client
--   Accounts, Accounts/*  control/internal/auth/password.go and session.go
--   Control, Control/*  control/internal/api: api.go and session.go (who makes a request, the guards of
--                       the routes, login, password, TOTP), tenant.go (domains, rooms, verifyPass), as
--                       functions from the tables to an answer and the tables
--   Tests, Tests/*      concrete runs
--
-- How state and errors stand. A call on Redis is a function from the database to an optional result
-- and the database after it; none is any error but redis.Nil. A Go error of which the code drops the
-- value is an attempt. The handlers and the rounds are total. Parallel replicas are successive calls
-- on one database. A statement of SQL of control succeeds or fails as an argument says, and the
-- constraints of the tables that a handler can meet are written out; a statement that fails for another
-- reason, a number out of the range of its column for one, is one that fails.
--
-- Numbers. Naturals stand for the int64 that are not negative; a value below zero stands as 0, which
-- every test of the code treats alike, and -1 as a rank or a last wave is none. The bound of int64 is
-- named where a text is parsed; the duration of a pass in a stored text wraps around at 64 bits. A rate is in thousandths, a duration and a time in nanoseconds, the
-- tokens of the bucket in 10^-12, so that the arithmetic of the model is exact where the code's
-- float64 rounds; the score of a ticket keeps its rounding to a float64. The clock is later than 200
-- waves after 1970. Texts are lists of bytes, and lower case and white space are those of ASCII. A
-- theme is its JSON text.
--
-- Bounds and fuel. The loop that empties a wave runs on fuel, which is enough when it exceeds the
-- number of the wave's tickets. The loops over batches run on the number of entries, of which every
-- round takes one at least. The rounds of the waves are the difference of the two wave numbers.
--
-- Parameters. Redis, HTTP, ECDSA, argon2, PEM, base64, JSON, HMAC, URL parsing, TOTP, AES-GCM, the
-- anti-robot service, sort.Slice, SHA-256, the order of Go's maps, the rows of SQL queries, random
-- numbers and the time; for pushEdge the client of the Dataplane API. What a theorem needs of them is a
-- named hypothesis. That a payload is read back as it was written is the behaviour of encoding/json on
-- texts that are valid UTF-8 and on times that fit an int64.
--
-- Not modelled. Logs and metrics; goroutines, timers and channels between replicas; Subscribe of the
-- store; the stream of an event handler after its first status; the waves that a scan found before it
-- failed, which the model reads as none. Of the control plane: the inventory, the enrolment, OIDC, users
-- and members, backends, ACME, the bootstrap and the migrations; Tail of a task's log; the journal, and
-- the push that follows a change; of a session the last login;
-- the panic of argon2 on a stored hash whose rounds or lanes are 0; blanks outside ASCII before a number
-- of such a hash.
pub mod Base
pub mod Room
pub mod Redis
pub mod Store
pub mod Pass
pub mod Admitter
pub mod Hub
pub mod Api
pub mod Keys
pub mod Compile
pub mod Reconcile
pub mod QueueClient
pub mod Jobs
pub mod Accounts
pub mod Dataplane
pub mod Control
pub mod Tests
