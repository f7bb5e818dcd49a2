-- ===== src/Lib.antt =====
-- A model of powdrr-engine's control plane and of parts of its query path: the checkpoints of a table,
-- the metadata service that commits them, cuts nodes over to them, and hands out the work that they
-- need; the pruning of files by statistics; and the Redis, MongoDB and DynamoDB front ends, as far as
-- they read requests and turn them into ranges, filters and updates.
--
-- A table's data is a sequence of checkpoints. A checkpoint lists the speedboat files (fresh writes), the
-- iceberg files, the delete files and the extension files of the table. Commits make new checkpoints
-- from the latest one; extension commits cover the files of a checkpoint with derived files; compactions
-- replace speedboat files by iceberg files, and cleanups delete what they replaced. The latest checkpoint
-- becomes the active one, which nodes serve, once its artifacts are ready and the serving nodes of the
-- current cutover epoch have acknowledged it.
--
-- The parts, and the code that each models:
--   DataContract.Schema      control_plane/src/schema_massager.rs: `PowdrrSchema`, `merge_from`
--   DataContract.FileSet     control_plane/src/data_contract.rs: `FileSetPayload` and its methods
--   DataContract.Types       the same file: the records of commits and checkpoints
--   DataContract.Checkpoint  the same file: coverage by extension files, the clean-up of their metadata
--   DataContract.Commits     the same file: the `apply_` methods of `TableMetadataCheckpoint`
--   Service.Tables           table descriptions, and the modes of control_plane/src/test_api.rs
--   Service.Types            service_lib/src/metadata_store.rs: selectors, epochs, leases, acknowledgements
--   Service.State            service_lib/src/ephemeral_service_impl.rs: the struct, the keys of its maps
--   Service.Cutover          the same file: cutover epochs, membership views, what is still pending
--   Service.Publish          the same file: targets, promotion, the `MetadataStore` operations on them
--   Service.Catalog          the same file: tables, aliases, templates, pipelines, policies
--   Service.Commit           the same file: speedboat, iceberg, extension, compaction, cleanup commits
--   Service.WorkItems        the same file: the work items and their leases
--   Service.Coordination     service_lib/src/read_only_coordination.rs: the phase of a target
--   Service.Snapshots        service_lib/src/ephemeral_service_impl.rs: the snapshot of the state, and the start from one
--   Service.Runs             all of it as a step relation, with the states reached from `new`
--   Redis.Text               the texts and numbers of query_server/src/redis_wire_protocol.rs
--   Redis.Wire               the same file: the encoding of replies, the reading of commands
--   Redis.Decimal, Framing, Lines, RoundTrip: numbers, parts of a stream, lines, commands
--   Json                     `serde_json::Value`, as the query path and the front ends use it
--   Query.Path               query_core/src/query_path.rs: groups of files, pruning by statistics
--   Query.Plan               query_core/src/serving_plan.rs, read_plan.rs: requests and read plans
--   Query.Order, Statistics, Pruning, Groups: the order of scalars, what is pruned, groups
--   DynamoDb.Attributes      query_server/src/dynamodb_protocol.rs: attribute values as JSON
--   DynamoDb.Tokenizer       the same file: the tokens of a filter expression
--   DynamoDb.Tokens, Parser  the same file: `FilterParser`, on tokens; its grammar
--   DynamoDb.Expression      the same file: `parse_filter_expression`, from the text to the nodes
--   DynamoDb.Filter          the same file: filter expressions on rows; Evaluate: their meaning
--   DynamoDb.KeyRange        the same file: keys, the predicates of a sort key, the row of a key
--   DynamoDb.StartKey        the same file: the exclusive start key of a page
--   DynamoDb.Update          the same file: the parser of update expressions, and their actions
--   DynamoDb.Text            the same file: aliases in expressions, and the methods of texts that it calls
--   DynamoDb.Responses       the same file: rows as items, keys and projections of responses
--   DynamoDb.Items           the same file: puts, updates and deletes of items, on the rows of a table
--   MongoDb.Bytes, Wire      query_server/src/mongodb_wire_protocol.rs: messages and their sections
--   MongoDb.Connection       the same file: the loop of a connection; Bounds, RoundTrip: its parser
--   FetchTracker             query_runtime/src/ephemeral_fetch_tracker.rs: what a node fetches next
--   Examples                 small inputs, on which the results below are applied
--   Common                   lists, dictionaries, integers, the order of texts, tests
--
-- Conventions. An operation is a function from the state to the state, with what it returns beside it. A
-- panic (`unwrap`, `panic!`, `assert!`, an index out of range) is `none`. A `HashMap` is an association
-- list, whose order stands for the arbitrary order of iteration. An operation reads the clock once: `now`
-- is a parameter, in milliseconds. `IdInstance::next_id` returns the ids of a sequence `ids`, and the state
-- counts the ids that were issued. The hash functions, the hexadecimal format of the ids of legacy
-- segments and the payloads of JSON, templates, pipelines and policies are parameters. A `u64` epoch and
-- the sum of file sizes wrap at 2^64, as in a release build; times and other sizes do not overflow here.
-- Loops with fuel: that of `FileSetPayload::remove`, by the number of the files, since each round removes
-- a file or moves past one; the filter parser, by three times the number of tokens and three, since
-- each of its three levels is entered once before a token is taken; its tokenizer, by the number of
-- characters and one; the loop over the actions of an update expression, by the same; the sections of a
-- MongoDB message and the messages of a connection, by the number of bytes and one, since each takes a
-- byte at least. The decimal format writes twenty digits at most, which a `u64` does not exceed. A Redis
-- stream is the list of the bytes that the peer sends before it
-- closes, and a text is its UTF-8 bytes.
--
-- Floats are a parameter, `Floats`: their comparison, equality, addition, parsing and printing, and what
-- is assumed of the comparison is `IsOrder`. JSON objects keep the order of insertion (the crate is built
-- with `preserve_order`); the order after a removal is not modelled. The errors of the DynamoDB front end
-- are modelled by their kind, not by their message. The sum of two `i64` in an update wraps, as in a
-- release build. The `bson` crate is a parameter, `Bson`, with `IsBson` as what its format says of the
-- bytes of a document; what a MongoDB command does is a parameter of the connection.
--
-- Writes of DynamoDB items are modelled from the rows that are loaded to the rows that are published: two
-- requests that load the same rows are not ordered by the code, and neither are they here. The names of
-- an object's entries are distinct where a theorem says so, as in a `serde_json::Map`.
--
-- The snapshot of the service's state does not hold its mode and the count of its ids: a start from a
-- snapshot takes both. The runs of the service are without panics, their calls of `add_checkpoint` name
-- each extension by a text that is not empty, and several speedboat commits at once are several steps.
--
-- Not modelled: the DynamoDB-backed and leaderless metadata stores, the HTTP front end, the
-- queries, scans and table configurations of the DynamoDB front end, the commands of MongoDB and
-- Redis, query execution, artifact building, caches, and the I/O around all of it. Logging is left
-- out.
pub mod Common
pub mod DataContract
pub mod Service
pub mod Redis
pub mod Json
pub mod Query
pub mod DynamoDb
pub mod MongoDb
pub mod FetchTracker
pub mod Examples
