-- ===== src/Lib.antt =====
-- netab: a library about the table engine STENG, the service of netab and its access control, and the
-- clusters, the election of leaders and the permissions in CORD.
--
-- The program keeps tables of JSON documents and of blobs. The engine (src/steng/engine) writes
-- documents under generated ids, keeps a log of numbered ops per table, tells subscribers of every
-- change, lets other engines follow the log, deletes what is older than a table's window, and
-- exports and imports tables. The service (src/netab) stands in front of it and checks what the
-- groups of a caller may do. The nodes of a cluster (src/cord) keep a registry of who reaches whom,
-- and elect a leader per shard by collecting lease votes from each other; they keep users, groups and
-- grants of commands in a store of keys and JSON values.
--
-- Which file models what:
--   Common         helpers: equality and tests, lists, maps, texts, and code that throws
--   Json           the values: `undefined`, `null`, Booleans, numbers, texts, arrays, objects
--   Utils          src/shared/utils.ts: deep_merge, shallow_merge, get_field, pick_fields
--   Steng/Types    src/steng/types.ts
--   Steng/Filtering, Steng/ChangeBus, Steng/IdGeneration
--                  the files of src/steng/engine with these names
--   Steng/Host     what the engine takes from Node: clock, random bytes, hashes, JSON, Base64, locale
--   Steng/Engine   src/steng/engine/steng_engine.ts. TableState, StoredDoc and StengEngine are
--                  records; Docs has writeDoc, writeTombstone, appendOp, commitDocOp and
--                  commitDeleteOp; Methods the methods that change one table; Replica read_ops_since
--                  and apply_ops; Tables the directory; Query get_objs; Retention run_retention;
--                  Snapshot the export and import of one table; Access the rest of the interface.
--                  The other children of Steng/Engine hold proofs: Commit, Log, Replication and
--                  CatchUp (replicas; Mirroring has their relation), Shallow, Again, Pages, Reads,
--                  Scans, Stores, Kept, Expiry, Sorting, RoundTrip (export and import), Directory
--                  and Dropping (the tables), Watermarks, Unmoved and Reached (runs of the engine)
--   Netab/Rbac     src/netab/rbac.ts; Netab/Types has the types of src/netab/types.ts
--   Netab/Service  src/netab/netab_service.ts: the services and their directory, who is admitted, and
--                  tables and indexes made on demand. Scope has the restriction to a caller's site,
--                  Reads get_objs with its fallbacks and subscribe_objs, Writes the other methods on
--                  rows, Sites those that give out tokens. Requests, Scope/Written, Scope/Scanned and
--                  Sites/Given hold proofs
--   Cord/Store     src/cord/store.ts: the store that keeps its values in memory
--   Cord/Iam       src/cord/iam.ts. Groups, Users and Commands have the methods of its managers, on
--                  the store; the children of Groups and Commands, and Keys, Calls and Runs, hold
--                  proofs about hierarchies of groups and about who may invoke what
--   Cord/Registry  src/cord/registry.ts
--   Cord/Cluster   src/cord/cluster.ts: the records of members, with its methods in Members, and
--                  execOnCluster in Pool as a step relation; Liveness, Joining and Pool/Ends hold
--                  proofs
--   Cord/Election  src/cord/election.ts: the votes of a follower, their counting, and in Health the
--                  health of an assignment; Shards has the records and keys, Balance the choice of a
--                  leader, Reconcile the reconciliation of a cluster and Manager the other methods.
--                  Votes, Quorum, Choice, Terms, Writes, Fencing and Tenure hold proofs; Tenure has
--                  the runs of the election
--
-- How the code is read. A method is a function from the state to a result and the next state; an
-- exception keeps what was written before it. The methods are `async` and await each other and the
-- store; a call is taken to run to its end before another begins. While a method of CORD's managers
-- runs, the time, what is discovered and the answers of the voters are fixed, and a call of a voter
-- that fails is a missing reply. A `Map` is an association list in insertion order. The two maps of
-- the engine share a table's state; here the map by id holds it and the map by name holds its id.
-- The buckets of the change bus are shared with closures and stand in a store.
-- A callback is a number, and its call a recorded delivery; a callback that throws or that
-- subscribes while it is called is left out. The unsubscribe closure is a record of what it captured.
--
-- Values are trees that nothing changes in place, so a deep clone is the value itself. Numbers are
-- natural: negative numbers, fractions and NaN are left out, and a retention window that begins
-- before time 0 begins at 0, which no natural number is below. Objects have their own properties
-- only, without a prototype, in the order of their insertion; JavaScript would put keys that look
-- like array indices first. The host is a parameter of the definitions, and nothing is assumed of
-- it. Loops run over lists; the digits of a number are computed on fuel above the number,
-- and the recursions through subgroups on fuel above the number of keys in the store; where that
-- runs out they throw `endless`.
--
-- The services of netab refer to each other and stand in a store under numbers; a service reads and
-- issues tokens by functions of its own, and only the in-memory engine stands behind it.
--
-- Not modelled: the SQL engine, the bundle files of snapshots, HTTP, the signing of tokens, the client,
-- and of CORD the transport, the timers, and the stores in files and tables.
mod Common
pub mod Json
pub mod Utils
pub mod Steng
pub mod Netab
pub mod Cord
