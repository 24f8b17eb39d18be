-- ===== src/Lib.antt =====
-- A verification library for Torvix, a program that collects cloud bills, keeps them in a database,
-- finds anomalies in them and sends cost reports.
--
-- The parts of the program and the modules that model them:
-- - internal/domain/models.go, the records that all parts exchange: Domain. A float64 is a type `F`
--   with the operations of Prelude.Float64, a time.Time is the number of nanoseconds since Go's
--   absolute zero (Prelude.Clock), a map is an association list or a function.
-- - internal/config/config.go: Config. Types has the records, Names the environment variables,
--   Environment applyEnvOverrides and its helpers, Defaults the WithDefaults methods, Limits the
--   ingestion limits, Load the whole of Load.
-- - internal/waste/rules/oci.go and internal/waste/types.go: Waste. Exclusion has hasExclusionTag,
--   Signals what the rules read off a resource and its costs, Unused and Stopped the rules themselves,
--   Rules EvaluateOCI. internal/waste/engine/service.go: Defaults has WithDefaults, Engine has
--   NewService and Run, Findings the other methods.
-- - internal/adapters/postgres/migrator.go: Postgres.Migrator, with Run as migrate.
-- - internal/adapters/providers/oci/collector.go: Oci. Names has costReportStartName and
--   costReportNumber, Search findCostReportStartNumber and binarySearchCostReportStart, Listing
--   listObjectsFrom and listRecentCostReportObjects; Objects has the client of client.go. Parser has
--   buildHeaderIndex, parseRow and their helpers of parser.go, Mapper the functions of mapper.go.
-- - internal/core/alerting/service.go: Alerting. Summary has summarize, formatCostVariances,
--   formatAnomalies and their helpers; Payload and Reports have the messages; Delivery has
--   ReportDestinations, SendReport, SendReportToDestination, SendNotification and what they call.
-- - internal/core/reporting/service.go, with what it calls of internal/core/analytics/service.go and
--   internal/core/forecasting/service.go: Reporting. Ranges has DefaultRangeWithOptions,
--   previousReportRange and comparisonWindows; Movements has topCostMovements; Service has the
--   interfaces of the database and of the sender; Building has Build and incompleteSkipReason; Delivery
--   has DeliverScheduledReport, DeliverDefaultReportsWithOptions and DeliverReport.
-- - internal/ports/http/ingestion_jobs.go: Http.Jobs, with one function for each method of the store.
-- - internal/ports/http/handler.go: Http.Ingestion, with runIngestionJob, ingestionResponses and
--   ingestionNotification.
-- - internal/core/collect/service.go and internal/core/normalize/service.go: Collect. Lookback has
--   effectiveSince and filterRecordsWithinLookback; Batches has collectProvider and
--   storeNormalizedBatch; Run has Run.
-- - internal/app/report_cron.go: Schedule. Cron has the parser, Next and DueAtOrBefore; the functions of
--   strings and strconv that it and others need are in Prelude.Words.
-- - internal/core/intelligence/service.go: Intelligence. Queue has the submits and Close, Process has
--   process; Order has the queue over its whole life.
--
-- How they interact: collection stores what the collectors find and refreshes the aggregates;
-- reporting builds a report from the repository, when the schedule says so, and hands it to a sender,
-- which in the program is the alerting service; the HTTP handlers start ingestion jobs through the job
-- store; the AI service makes its notes from a queue on its own.
--
-- State: a service's database and network are one state `W`, which every call that changes it takes
-- and returns; an error is its text. The mutex of the job store makes each method one step, and
-- Http.Jobs.Lifecycle has the steps in any order, as Intelligence.Order has those of the queue. In
-- Collect.Run a collector's goroutine is one step, and the list of the collectors is the order in which
-- they finish.
--
-- Bounds and fuel: times and counts are natural numbers, which do not overflow where the program's
-- 64-bit numbers do not; negative numbers are ℤ of Prelude.Int. The loop over the days of a range in
-- Reporting.Building takes one unit of fuel for each civil day and one more, which
-- Reporting.Completeness shows to be enough. Next of report_cron.go makes at most eight rounds, which
-- Schedule.Next shows to be enough for a schedule in range. The
-- search of Oci.Search makes at most 32 probes, as the source does, and the listing of Oci.Listing takes
-- one unit of fuel for each page, of which Oci.Listing.Limit shows the limit to be enough. All other
-- loops run along a list.
--
-- Not modelled: log lines, metrics and contexts; the SQL of the PostgreSQL adapter, the cloud SDKs and
-- the HTTP transport, which are parameters; the collectors beyond their listing and the parsing
-- of a row, the inputs of the AI client,
-- the handlers' JSON, and the application's wiring.
pub mod Prelude
pub mod Domain
pub mod Config
pub mod Waste
pub mod Postgres
pub mod Oci
pub mod Collect
pub mod Schedule
pub mod Intelligence
pub mod Alerting
pub mod Reporting
pub mod Http
