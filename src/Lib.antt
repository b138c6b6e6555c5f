-- ===== src/Lib.antt =====
-- Verification of the queue, trust and policy core of Waiting-Room, a virtual waiting room in front
-- of an origin. Visitors join a queue; the coordinator promotes them in order under a cap on leases
-- and a rate; the gateway routes requests by the operator's configuration, which it takes only from
-- signed snapshots; operators act in a Backoffice under roles and sessions; the installer proposes
-- plans and judges evidence before a room may be activated.
--
-- Which file models what:
--   Base           strings as bytes, maps as lists of pairs, Boolean tests, signed integers
--   Queue/Policy   internal/policy/fifo.go: the FIFO policy (Eligible)
--   Queue/Model    internal/queue/model/model.go: the model that the queue stores conform to. A
--                  record Model, one function for each method, a type Call with step and run for
--                  histories of calls
--   Trust          internal/configtrust/snapshot.go: Sign and the gate. Codec is the interface to
--                  Go's packages; Gate has Open, Apply, Current and RecoveryRequest
--   Auth           internal/adminauth: policy.go, session.go, totp.go and csrf.go
--   Auth/Store     internal/adminauth/pgstore: the tables; Login has CompleteTOTP (store.go),
--                  Sessions Me, Touch and Logout (sessions.go), Reauth the use of a proof (reauth.go)
--   Admission      internal/admission/token.go: signing and verification of admission tokens
--   Control        internal/control/config.go: validation and MatchURL; Control/Runtime is
--                  runtime.go: runtimes, deliveries and the queue's configuration that they give;
--                  Control/Events its events, with ChangeEvent's change of their table and Tick's change
--                  of a room (events.go of internal/adminauth/pgstore)
--   Keyring        internal/keyring/keyring.go: deployment keys, their roles and their rotation
--   LocalControl   internal/localcontrol/rotation.go: RotateKeys over the journal, the identity files
--                  of the roles (LoadIdentity of identity.go) and the tables
--   Install        internal/installplan/plan.go and preflight/preflight.go
--   Examples       runs of the models at concrete inputs
--
-- How the code is read. A method of a pointer receiver is a function from state to state and
-- result; a Go error is a value of the package's error type. A Go map is a list of pairs without a
-- repeated key, so that iteration has an order; sort.Slice is insertion sort by the same order. Times
-- and counters that the code keeps non-negative are natural numbers; integers that are compared
-- with signed bounds are the type of Base/Int. The sums and differences of dates in a token and the
-- sum of Uncertain wrap around as int64; other sums are exact, as they are in the program while its
-- times are below 2^62.
-- A database is a record of tables, a table with a primary key a list of pairs; an SQL statement is
-- the change it makes. A transaction locks the rows that it reads, so a call is one step; a commit or
-- a file write may fail before or behind its effect, and theorems range over these outcomes.
-- Strings are their bytes. Locks are not modelled: a call is one step. All loops are structural
-- recursion; the one function on fuel, the decimal print, has one more than the number printed.
--
-- What is not modelled: the other stores, scripts, HTTP handlers, cryptography, JSON and randomness. Where
-- a component calls them they are arguments (the codec of snapshots, Ed25519, HMAC, SHA-256, the
-- counter store, URL parsing), and the laws that a theorem relies on are among its hypotheses.
pub mod Base
pub mod Queue
pub mod Trust
pub mod Auth
pub mod Install
pub mod Control
pub mod Keyring
pub mod LocalControl
pub mod Admission
pub mod Examples
