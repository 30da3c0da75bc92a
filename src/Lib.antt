-- ===== src/Lib.antt =====
-- A model of the opensds multi-cloud controller in Go, with what makes it correct.
--
-- The program is a set of services. `api` is the gateway: it takes the REST requests, checks each one
-- against the policy (api/pkg/policy), and calls the services `s3` (buckets and the metadata of
-- objects), `backend` (the registered clouds) and `dataflow` (migration plans, their triggers and the
-- jobs they start). `dataflow` sends a job by kafka to `datamover`, which moves the objects between
-- the clouds and writes its progress to the job in the database that both share.
--
-- What is modelled, file by file:
--   Policy             api/pkg/policy: the checks and their Exec (checks.go) in Check, Exec and Rules,
--                      the tokens and the reductions of the rule parser (parser.go) in Token and
--                      Parse, the enforcer with its rule files (policy.go) in Enforcer.
--   Datamover.Movers   the interface MoveWorker (datamover/pkg/utils/data_type.go) and the choice of an
--                      implementation in datamover/pkg/drivers/https/migration.go.
--   Datamover.Parts    multipartMoveObj of migration.go: part by part from the source to the
--                      destination; Laws is what the storages promise.
--                      Chunks is the read loop of datamover/pkg/hw/obs/obsmover.go, which does not keep that.
--   Datamover.Move     getConnLocation, refreshSrcLocation, moveObj, deleteObj and move.
--   Datamover.Settings the environment's numbers.
--   Datamover.Collect  the loops of doMigration and migrateResult over what the moves send.
--   Datamover.Routines the goroutines and channels of doMove, move and doMigration, as a step relation.
--   Datamover.Sources  the listing of the objects of a job, getOsdsS3Objs to getSourceObjs.
--   Datamover.RunJob   prepare4Run, analysisHandle, asistHandle, the post handling and runjob.
--   Datamover.Messages HandleMsg of migration.go, and the loop of datamover/pkg/kafka/consumer.go.
--   Datamover.Job      updateJob of migration.go, and UpdateJob of
--                      datamover/pkg/db/drivers/mongo/mongo.go.
--   Dataflow.Lock      lock and unlock of dataflow/pkg/db/drivers/mongo/mongo.go.
--   Dataflow.Run       Run, getLocation and buildConn of dataflow/pkg/plan/plan.go.
--   Dataflow.Connectors checkConnValidation of dataflow/pkg/plan/plan.go.
--   Dataflow.Types     the documents and errors of dataflow/pkg/model/dataflow_type.go, and the context
--                      of api/pkg/filters/context.
--   Dataflow.Driver    dataflow/pkg/db/drivers/mongo/mongo.go: the lock of the manager, and in the
--                      modules below it the policies, the plans and the jobs.
--   Dataflow.Triggers  dataflow/pkg/scheduler/trigger: the cron trigger, and the manager.
--   Dataflow.Updates   the fields of a plan that the body of an update may change (plan.go).
--   Dataflow.Plans     Create, Update, Delete, Get and List of dataflow/pkg/plan/plan.go.
--   Dataflow.Scheduler LoadAllPlans of dataflow/pkg/scheduler/scheduler.go.
--   Dataflow.Policies  dataflow/pkg/policy/policy.go.
--   Dataflow.Convert   the conversions of dataflow/pkg/service.go.
--   Dataflow.Handlers  its handlers.
--   Gateway            in front of the handlers of api: Context has the two contexts of a request and
--                      the credentials of a policy, Auth the filters of api/pkg/filters/auth, Params the
--                      parameters of api/pkg/common/common.go, and Routes the handlers and routers of
--                      api/pkg/backend and api/pkg/dataflow. Objects has the handlers of
--                      buckets and whole objects of api/pkg/s3, Multipart those of an upload in
--                      parts, and Objects.Router chooses among them.
--   Backend            backend/pkg: the repository (db/drivers/mongo) and the service (service.go).
--   S3                 s3/pkg: the driver of the metadata (s3/pkg/db/drivers/mongo), the service
--                      (service.go), and what the metadata says after its calls.
--   Common             lists, text, results, actions and what they promise, which the parts share.
-- The files Tests under a part, and the modules below them, hold the theorems at concrete inputs.
--
-- How code becomes a definition. A function of the source has the name of the source in lower case
-- with underscores; a helper stands for a piece of a function, and its comment says which. State is
-- passed on explicitly: a call that uses the outside world is an action (Common.Actions), from a world
-- to a world with a value, an error or a panic, and a `do` block is a Go block that returns at the
-- first error. Services, storages, the database, the clock and the operating system are records of
-- operations over an arbitrary world.
--
-- Bounds and fuel. A rule check may call another rule by its name and so without end; the number of
-- nested rule checks is fuel, a rule that has a rank needs no more than its rank, and more fuel does
-- not change an answer. The parser's reduction runs on fuel as well, which the number of values on its
-- stack bounds. The loops over pages of plans are given a number of turns, and one more than there are
-- plans is enough. Every other loop is structural. The loop over the parts of an object is driven by
-- the number of parts that the source computes.
--
-- Simplifications. A text is the list of its ASCII codes. An int64 is a number with no upper bound, and
-- where the source can have a negative one it is an integer; sizes of objects are not negative. The
-- order in which Go visits a map is a list, over which the theorems quantify. Logging is left out. A
-- storage type is an enumeration with a case for every other text. A time is a number.
--
-- Not modelled: the XML of the answers of api/pkg/s3; the drivers of the storages (calls of their SDKs,
-- which enter as interfaces with stated promises; theorems on copies ask them only of the movers of the
-- two locations, and leave open what a store of the gateway gives for what was put), the choice of a driver and the read of the settings
-- when a service starts, the logging filter, the generated protocol code, the copy of the OBS SDK under
-- api/pkg/utils/obs, and the vendored packages. MongoDB, the cron library and the JSON of a request
-- enter as records of operations. The trigger keeps only the crons that run and where they are found;
-- a cron that runs starts the plan by its time table.
pub mod Backend
pub mod Common
pub mod Dataflow
pub mod Datamover
pub mod Gateway
pub mod Policy
pub mod S3
