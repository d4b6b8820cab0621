-- ===== src/Lib.antt =====
-- The vega operator (ccb-operator): a Kubernetes operator that runs bulks of stellar calculations
-- on pools of workers. Its parts share objects of the API server: the dispatcher's controllers
-- assign the calculations of a bulk to available workers and follow their phases, a worker runs
-- the steps of a calculation and reports them, the janitor deletes old calculations, and the HTTP
-- interface and the results service answer requests.
--
-- Base: lists, texts, sorting and Go maps over native numbers. A Go map is a list of entries in
--   the order of its range, and `none` is a nil map, which panics when it is written.
-- Go: errors and actions. An action takes a world to an outcome (a value, an error or a panic) and
--   a new world. Go.Rules and Go.Answers have the rules by which the theorems reason about them.
-- Api: the custom resources of pkg/apis, with a time as a number of nanoseconds.
-- Cluster: the client, the clock and RetryOnConflict as a record of parameters. Cluster.Laws is the
--   documented behaviour that theorems rely on, for a client that no other one interferes with:
--   a call that fails has changed nothing, a read returns what is stored, and RetryOnConflict runs
--   its function again only after a conflict. Cluster.Modify is the get, change and update under
--   RetryOnConflict that the handlers write out, and Cluster.Ready describes a cluster whose
--   calls succeed.
-- Util: pkg/util (NewCalculation, GetSortedCreatedCalculations, UpdateWorkerStatusInPool and so
--   on). Formatting, hashing and sort.Slice are parameters.
--   Util.Workers.First.Sorts is what sort.Slice documents.
-- Events, Grpc: the events of a watch, and pkg/grpc/client.go over a connection.
-- Dispatcher: pkg/dispatcher, a module for each controller with its handler and `reconcile`.
--   Dispatcher.Workers.Waiting.Recovers describes a cluster on which a lost pod can be handled.
-- Worker: pkg/worker. Worker.Controller is controller.go, Worker.Pools workerpools/workerpools.go
--   and Worker.Executor executor/executor.go. What the executor sends over its channels is kept in
--   the order of sending; the machine (files, commands) is a record of parameters.
--   Worker.Operator is the process of a worker from operator.go's Run on, as steps.
-- Pipelines: pkg/pipelines/vega.go, with the text of a model as bytes.
-- Janitor: the loop and the cleaning of cmd/janitor/main.go. A duration is an int64, and time.Since
--   stops at its ends. Janitor.Cleaned.Serves describes a cluster where the
--   calls of a cleaning succeed.
-- ApiServer: the handlers of cmd/apiserver/server.go over a request context, and the table of routes
--   of cmd/apiserver/main.go.
-- Results: pkg/db and pkg/grpc/server.go over a database.
-- Flags, Setup, Commands: the package flag, what client-go, controller-runtime and grpc offer to set
--   a command up, with pkg/util/config.go, and the main of each directory of cmd.
-- System: the whole program on one cluster. System.Turn is one part at work, and System.Reaches any
--   interleaving of turns, those in which a worker waits for its executor included. System.Execution
--   and System.Delivery follow one calculation through the worker and the dispatcher.
-- Examples: a cluster in memory that meets the laws, other instances, and each theorem applied.
--
-- No function runs on fuel: every loop goes through a list, and the attempts of RetryOnConflict are
-- a relation. Not modelled: how arguments are split into flags and requests into routes, logs and
-- metrics, generated code (proto, deepcopy, docs), the registration of types with the client, the
-- network and the database. The hash in the name of a calculation takes its text from a parameter
-- that is a function of the contents; fmt prints the address of input files, which no state has here.
pub mod Base
pub mod Api
pub mod Go
pub mod Cluster
pub mod Util
pub mod Events
pub mod Grpc
pub mod Flags
pub mod Dispatcher
pub mod Worker
pub mod Pipelines
pub mod Janitor
pub mod ApiServer
pub mod Results
pub mod Setup
pub mod Commands
pub mod System
pub mod Examples
