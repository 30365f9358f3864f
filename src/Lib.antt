-- ===== src/Lib.antt =====
-- Verification of fukulow, a chat server for organizations: the crates domain, db, auth and app,
-- that is the rules on roles and owners, the operations on the database and the row-level security
-- that they rely on, passwords and tokens, and the requests over HTTP with their protection.
--
-- The parts, and where they are modelled:
--   Domain      crates/domain/src/lib.rs: the enumerations with `parse` and `as_str` (one file for
--               each), `check_owner_change` (Domain/Owners), `MessageId`, `ChannelScope` and
--               `ChannelSeq` (Domain/Identifiers). What the crate uuid reads out of an id is the
--               parameter `UuidCrate`; the other identifiers are numbers.
--   Db          Db/Schema: the tables of migrations/ as lists of rows. Db/Context and
--               Db/Transaction: crates/db/src/context.rs, transactions, and the errors of
--               crates/db/src/operations/errors.rs. Db/Policies: the row-level security of
--               migrations/ for the role `fukulow_app`. Db/Steps and Db/Keeps: rules of proof.
--               Db/TokenHash: `TokenHash` of context.rs.
--   Auth        crates/auth/src/lib.rs: passwords and tokens over parameters for argon2, sha2 and
--               getrandom (`Crypto`, `Fill`).
--   App         crates/app/src/: App/Sessions and App/Invites have the handlers of sessions.rs and
--               invites.rs, App/Fields and App/PathIdentifier what they read out of a body and a
--               path, App/Routes route_registry.rs and `protect` of http.rs, App/Config config.rs.
--               App/Crates has what other crates do for them, and `State` for `StateData`;
--               App/Http requests, responses and the monad `H` of the handlers. App/Steps has rules
--               of proof; App/Protection, App/Authenticated, App/Refinement, App/Cookie and
--               App/Acceptance the proofs.
--   Audit       crates/db/src/audit.rs: `Event` and `Event::write`.
--   Operations  crates/db/src/operations/: one file for each of membership.rs, teams.rs,
--               channels.rs, messages.rs, identity.rs, invites.rs, sessions.rs and leaving.rs;
--               Operations/Support has mod.rs and authorization.rs. Operations/Calls has the type
--               of all calls that write, one call (`step`) and histories of calls
--               (`run_history`). The proofs stand below it and in the other files of Operations.
--   Common      tests, rows, orders and integers that the other files share; Common/Order/Laws says
--               what a page of sorted rows is.
--   Tests       concrete tables; Examples, HistoryExamples and Runs have the theorems and the
--               operations on them.
--               RequestTests and RequestExamples have concrete requests and the theorems on them.
--
-- How the code corresponds: an `async fn` that takes the pool is a function of its arguments into
-- `M V A`, which runs on a `Tx`: the stored tables, the tables of the transaction, the settings that
-- the context has made, and the number of statements so far. Each `query!` is a `Statement`; it
-- reads and writes the tables through the policies, and fails where a constraint, a policy or a
-- trigger refuses the row. `?` and `return Err` leave the monad; only `commit` makes the tables the
-- stored ones, and `run` gives the stored tables after a call. A `Server` stands for what the
-- program does not decide: which statements fail, the clock, the transaction's number, the ids that
-- `Uuid::now_v7()` draws, and PostgreSQL's `lower`. A theorem takes any `Server`
-- unless its statement restricts it.
--
-- A handler of crates/app is a function of a `State` and a `Request` into `H`: it runs one
-- transaction after the other on the stored tables, each under its own `Server`, and `?` leaves it
-- with a status. What other requests commit between its transactions, and during the password check
-- of a sign-in (`call_among`), is the field `meanwhile`, a history of calls. How axum
-- finds the handler of a request is the parameter `Axum`.
--
-- Loops are recursion on the list of rows, or of bytes, that the code goes through, so there is no
-- fuel but for the digits of a port: a `u16` has at most five. Ids, times and counters are natural
-- numbers, a time of crates/app being in seconds; the counter of a channel has the bound of
-- `bigint`. The `i32` that an invite is created with is an integer.
--
-- Not modelled: waiting on row locks and interleaved transactions (a history runs one call after
-- the other; `sign_in` takes what commits during its password check as a parameter), the crates
-- protocol and realtime, which have no code yet, connecting to the database, binding the listener,
-- shutdown and logging, time stamps that no operation reads, and the roles and grants of the
-- database.
pub mod App
pub mod Common
pub mod Domain
pub mod Db
pub mod Audit
pub mod Auth
pub mod Operations
pub mod Tests
pub mod RequestTests
pub mod RequestExamples
pub mod Examples
pub mod HistoryExamples
pub mod Runs
