-- ===== src/Lib.antt =====
-- The virtual waiting room (crates/): visitors register before an event opens, are put in a random
-- order when it opens, and are admitted by a cursor that moves at the operator's rate.
--
-- Parts and files:
--   Permutation     crates/wr-common/src/permutation/mod.rs: `prp`, the keyed permutation of the
--                   cohort (a Feistel cipher with cycle walking).
--   Assembly        crates/wr-common/src/permutation/assembly.rs: `CohortOffsets`, `assign`, `Shard`.
--   Ids             crates/wr-common/src/ids.rs: phases, admission control, serving state.
--   Possession      crates/wr-common/src/crypto.rs: the secret of a visitor and its digest.
--   Expr            crates/wr-common/src/expr.rs: the keys of the tables.
--   Items           crates/wr-common/src/items.rs: table rows, `Counters::from_item`,
--                   `open_outputs`, `resolve_prequeue`.
--   Tables          the DynamoDB tables of one event, as the live stores read and write them.
--   AssignPosition  crates/assign_position/src/{lib,dynamo}.rs: batches of joins.
--   OpenEvent       crates/open_event/src/{lib,dynamo}.rs: the one open of an event.
--   Controller      crates/controller/src/{lib,dynamo}.rs: the release of one interval.
--   GenerateToken   crates/generate_token/src/{lib,dynamo}.rs: the admission of a visitor.
--   Room            runs of the Lambdas beside one another on `Tables`: batches, opens, requests for a
--                   session and writes of the operator or the controller, each as one step.
--   Read            crates/read/src/lib.rs: the counters cache, `/status` and `/queue_num`.
--   Rules           crates/wr-common/src/rules.rs: which requests the gate covers; `normalized_path`.
--   Sessions        crates/wr-common/src/crypto.rs: `Session::sign` and `Session::verify`.
--   Nojs            crates/nojs/src/lib.rs: the identity cookie and the page to return to.
--   Admin           crates/admin/src/lib.rs: the operator's actions (`apply_phase` and its siblings in
--                   Admin/Actions) over their ports, and the form of the ruleset in Admin/Form;
--                   Admin/Live/{Table,Kvs,Scheduler} are the ports of
--                   crates/admin/src/{dynamo,edge,scheduler}.rs, and the other files of Admin/Live
--                   what the actions keep true over them.
--                   Admin/Readiness is crates/admin/src/readiness.rs, the checks before an event, and
--                   Admin/Sessions crates/admin/src/sessions.rs, the operators' sessions and logins.
--   Prelude, Bits   what the parts share: tests, results, lists, words, bit operations.
--   Tests           concrete runs.
--
-- How they interact: AssignPosition writes rows of `PreQueue` with a pair (shard, local index), or
-- rows of `Positions` with a place of the live line. OpenEvent folds the shard counts into offsets
-- and publishes them with a seed. From then on `resolve_prequeue` gives a pre-queue row its place,
-- which GenerateToken compares with the cursor and Read reports. Controller moves the cursor, and
-- measures arrivals that GenerateToken counts.
--
-- Each store port of the source is a record `Store` over a type of worlds; the live stores are over
-- `Tables`, or over `EventItem` for the controller's pass. `?` chains are `do` blocks over `Result`,
-- an operation on a world gives its answer and the next world. A `u64` is a native natural number
-- with its saturation, overflow check or wrap-around written out. Order in a table is immaterial.
--
-- Admin/Live runs a handler in a world that holds what happens at each of its calls: what others do
-- before it, as any function on what they share, and whether its request or its answer is lost.
-- Theorems name the relation that the others' changes stand in. The item of the event exists there,
-- with its phase, and the edge's document is kept as the configuration that it encodes.
--
-- The checks before an event take reads that answer after some milliseconds or never; joined reads
-- run side by side. A run of the sessions' table is a list of requests, each done, refused, or done
-- with its answer lost, and of the table's own removals.
--
-- Fuel: the cycle walk of `prp` takes fuel, the size of the cipher's domain, and always ends within
-- it: the orbit of an index under an injective step comes back to the cohort. The loop of
-- `normalized_path` takes the path's length, which every round but the last lowers, and `to_string`
-- more than the number has digits.
--
-- Parameters, of packages or the system: HMAC-SHA256 (any function), SHA-256 with base64url, JSON
-- parsing and printing, hex encoding, token encoding, UTF-8 decoding, the calendar, random bytes,
-- the clock, and `f64` (`Float`, with the laws `IsRounding` where a bound needs them).
--
-- Not modelled: the Lambda entry points and the admin console's pages, the probe of the readiness
-- checks and the texts of their rows, security headers and OIDC, the HTML of the no-JavaScript pages,
-- the networks of IP tags, the expression builders (the live stores model what the built requests do),
-- the load harness, and the infrastructure code. Requests to DynamoDB that fail or go unheard are in
-- the generic stores, in Admin/Live and Admin/Sessions, in Controller/Pass/Race for the write of a
-- pass, and in GenerateToken/Live/Faults for the claim and the count of an admission, which is also
-- where a row of `Positions` is reclaimed. The other live stores answer every request, and in Room no
-- row is reclaimed: its lifetime of a day is meant to be longer than an event. In AssignPosition/Live/Shared others change the tables during a batch, but not between the
-- claim of a block of places and its last write. A read gives an item as it is, but in
-- Controller/Pass/Race as it was at some time. What the token package is told to validate is a part of
-- the parameter that decodes a token.
pub mod Prelude
pub mod Bits
pub mod Permutation
pub mod Assembly
pub mod Ids
pub mod Possession
pub mod Items
pub mod Expr
pub mod Controller
pub mod Tables
pub mod AssignPosition
pub mod OpenEvent
pub mod GenerateToken
pub mod Room
pub mod Read
pub mod Rules
pub mod Admin
pub mod Nojs
pub mod Sessions
mod Tests
