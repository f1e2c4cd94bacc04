-- ===== src/Lib.antt =====
-- The case execution engine of execution-engine: it takes over test cases, records one execution
-- per case in a database, and publishes a task per execution to a message broker. A call writes
-- its records and outbox messages in a first transaction, publishes in a second phase outside any
-- transaction, and writes what became of the tasks in a third. A relay takes over the outbox
-- messages that a crash or a failed third phase has left.
--
-- Parts, files and code:
--   Prelude         helpers: Boolean tests, lists, maps and sets keyed by numbers, signed
--                   integers.
--   Text            Go strings as bytes: decimal text, strings.TrimSpace, hexadecimal text.
--   Domain          execution-engine/internal/domain: Status is vo/execution_status.go; Errs is
--                   errs/errors.go; Entity is entity/ (records in Record, cases, tasks and
--                   outbox messages in Outbox) and vo/batch_result.go; Service is
--                   service/execution_service.go. Lifecycle, Batch and Status.Paths prove what
--                   these do together.
--   Dispatch        execution-engine/internal/usecase/dispatch_app_service.go. Ports has the
--                   interfaces of execution-engine/internal/domain/repository,
--                   execution-engine/internal/domain/port and usecase/tx.go; RequestId is
--                   NormalizeRequestID; Partition is completeBatchResult; App has the service
--                   and replayDispatchedStatus; Single is ExecuteCase and
--                   ExecuteCaseWithRequest; Chunk is dispatchOneBatch; Stream has the channels of
--                   dispatchStream and, as a specification, a stream in which nothing goes wrong;
--                   Stream.Group has the goroutines of the code with their errors and their
--                   cancellation, Stream.Slots the slots and the count, and Stream.Calls the calls
--                   that start a stream.
--   Relay           execution-engine/internal/usecase/outbox_relay.go. Config has both
--                   withDefaults; Backoff is retryBackoff; Claim sorts the messages of a pass;
--                   Pass is DispatchOnce; Loop is Run.
--   Rabbit          execution-engine/internal/infrastructure/mq/rabbitmq/executor_client.go.
--                   Confirms is waitConfirms; BatchRun is BatchRun, Execute and failedAll; Pool
--                   is the client with its channels, where Pool.System puts the workers of
--                   borrow and release, the loop of handleDisconnect and reconnect, and Close
--                   side by side, and the other files prove what holds of them.
--   Grpc            execution-engine/internal/infrastructure/grpcserver/handler.go. Errors is
--                   toGRPCErr and toPbDispatchStatus; Handler is ExecuteCase; Streaming has the
--                   two streaming calls and progressForwarder; Server is server.go there.
--   Mysql           execution-engine/internal/infrastructure/persistence/mysql: Rows is po/;
--                   Table is a table of the database with its statements; Lease, Claim, Outbox
--                   and Helpers are outbox_repository.go; Executions is
--                   execution_repository.go, with BatchAdd in Batches and BatchUpdateStatus in
--                   Statuses; Cases is ut_case_repository.go; Repositories fills the interfaces
--                   of Dispatch.Ports with these, Acceptance runs the first phase of
--                   Dispatch.Single over them, with the tables of one database (AreApart), and Retry
--                   a whole call and its repetition.
--   Server          execution-engine/cmd/server/main.go. Settings is appConfig, loadConfig and the
--                   configurations of the parts; Run is run as the effects of its calls in their
--                   order; Shutdown checks the order.
--   Tests           runs of the definitions, and each theorem with hypotheses at a concrete
--                   input, over databases of lists (Tests.Memory, Tests.Tables).
--
-- How the code is modelled. A struct is a record, an enum a data type. A function that returns a
-- value and an error returns a Reply or an Option of an error. State is passed on: D is the state
-- of the database and Q that of the broker, and an operation on the database is a function from D
-- to a reply and the next D. A mutation through a pointer returns the new record. What a call
-- reads from time.Now or crypto/rand is an argument. Identifiers are natural numbers, since the
-- database counts them up from 1; a case number in a request is a signed one. The int32 counts of
-- a progress are taken modulo 2^32, and a backoff is an int64 as its bit pattern modulo 2^64. A
-- map is the list of its assignments, and a set a list.
--
-- The interfaces are parameters: the repositories, the broker's client and the transaction runner
-- are records of functions, about which the theorems assume nothing, except that a transaction
-- commits what its function did or leaves the database as it was (IsTxRunner, the comment of
-- usecase/tx.go), where a theorem says so. A table of the database is a record of the statements
-- that the repositories run, with what SQL says of each where it succeeds (IsTable): a row is
-- inserted where no row clashes with it under the unique index, an UPDATE changes and counts the
-- rows that its condition meets, with the time that GORM writes for autoUpdateTime, a SELECT under SKIP LOCKED takes the first of the free ones. A
-- collation gives each text a weight, and request identifiers, versions and channels are equal where their
-- weights are; states and lease tokens, of which the code writes only its own constants and lower-case
-- hexadecimal text, are compared byte by byte. The pages that FindInBatches reads are a parameter. An attempt to connect to the broker is a record
-- of the errors of its calls. The steps of the pool take any condition on the channels that a
-- worker returns as whole as a parameter; ReturnsCurrent is one. Random bytes are sixteen where IsRandom is assumed
-- (crypto/rand). The channel of the RabbitMQ library is a list of events in the order in which the
-- select reads them, with the errors of its publications; a list that ends early means that the
-- deadline fires.
--
-- Recursion is structural throughout. Only the digits of a number are written on fuel, which is
-- the number itself plus one and so more than its digits.
--
-- Not modelled: logging; the closing of channels and connections; the choice between the transaction of a
-- context and the root handle (FromCtx); the interceptors of the server; the inside of configuration
-- files; tools and generated code. Of json.Marshal only the error counts.
mod Prelude
pub mod Text
pub mod Domain
pub mod Dispatch
pub mod Relay
pub mod Rabbit
pub mod Grpc
pub mod Mysql
pub mod Server
mod Tests
