-- ===== src/Lib.antt =====
-- The mimir operator: a Kubernetes operator that copies the PrometheusRule resources selected by a
-- MimirRules resource to the ruler of a Mimir tenant, and an Alertmanager configuration to Mimir.
--
-- The parts, in the order of a synchronisation:
-- * Auth is internal/utils/utils.go (`ExtractAuth`, `FindSecretByRef`, `FindValueByKeyInSecret`)
--   with the block `Auth` of api/v1alpha1/common.go. `RemoveDuplicate` is in Selection.
-- * Client is internal/controller/mimirapi/client.go, Ruler is rules.go and alerts.go beside it.
-- * Domain holds the resources of api/v1alpha1, Prometheus those of the prometheus-operator API.
-- * Selection, Overrides, ExternalLabels, Names and Sync are internal/controller/mimirrules/rules.go:
--   the resources that are selected, the changes to their rules, the namespace that each gets in
--   Mimir, and the calls that bring the ruler to that state.
-- * Reconcile and Watch are mimirrules_controller.go beside it: `Reconcile` with its finalizer and
--   status, and `reconcileOnPrometheusRuleChange`.
-- * Alertmanager is internal/controller/mimiralertmanagerconfig.
-- * Duration is `ParseDuration` and `Duration.String` of
--   internal/controller/mimirapi/rwrulefmt/model/time.go.
-- * Base has the shared notation, lists and maps; Exec has errors and the chains of calls.
--
-- A function that returns an error is a function from a world to an outcome and a world: a value,
-- an error, or a Go panic. What was done before an error stays done. Cluster lists what the
-- repository calls and does not implement, as the fields of a record: the Kubernetes API, the HTTP
-- transport, net/url, the YAML and JSON encoders, finalizer helpers, and the order in which Go
-- visits a map. A theorem about a function that calls one of them holds for all of them, or names
-- what it needs.
--
-- Server is the ruler of Mimir as the client relies on it: what it holds for a tenant, and what a
-- post, a deletion and a listing do to it, as the fields and laws of a record. Alertmanager/Server
-- is the same for the Alertmanager of Mimir. Sync/Ruler is about what a synchronisation leaves in
-- any ruler that obeys these laws. Reconcile/Stored, Reconcile/Reported and their like under
-- Alertmanager are what is relied on of Kubernetes for the finalizer and for the status.
--
-- Client/Asked is the request that a call is to send, by its address and its headers, whatever the
-- code does; Client/Builds shows that the code makes it, and Client/Joined is the joining of two
-- paths. Server/Signed is a request as a client builds it, which is the one that is asked for,
-- Server/Requests the log of those that were sent, and Sync/Sent, Reconcile/Tenant and
-- Alertmanager/Tenant are about that log. Server/Sends and the modules named Keeps follow a
-- property of the world through a chain of calls, whatever fails. Server/Answering, and the modules
-- named Live, are about a Mimir and a Kubernetes that answer. Sync/Visits is the order in which Go
-- visits the map of texts, any order and another one at each range; Sync/Sorted shows that sorting
-- forgets it. Reconcile/Reach is about many reconciliations, with what others do between them,
-- Sync/Again about a second synchronisation, and Watch/Tracked about a synchronisation and the
-- watch together.
--
-- The two controllers are alike but for the type of the object and the calls of Mimir. Controller
-- is what they share, and Controller/Instances makes each an instance of it. Controller/Guard,
-- Controller/Keeps and Controller/Errors are about any controller, and both use them.
--
-- Overrides is the one part where the source aliases memory: it removes entries of a slice while a
-- loop ranges over the old slice, so a slice is a window on an array there. Elsewhere slices and
-- maps are values. A map is an association list. Numbers are natural numbers; a duration is below
-- 2^63 nanoseconds, and `ParseDuration` takes its sums modulo 2^64, as uint64 does.
--
-- Loops are recursions on what they range over. `parse_loop` has the number of bytes as fuel: each
-- round reads a digit at least, so it never ends for want of fuel. `decimal` prints on fuel above
-- the number of digits.
--
-- Not modelled: the error of `http.NewRequestWithContext` and the content length of a request;
-- logging; events; the registration with the manager of controller-runtime and
-- cmd/main.go, which only wire libraries; generated deep copies; durations below zero; `Time` and
-- the wrappers for JSON, YAML and flags in time.go, a file that is copied from prometheus/common
-- and of which the operator uses durations only.
pub mod Base
pub mod Prometheus
pub mod Overrides
pub mod Exec
pub mod Names
pub mod Selection
pub mod Auth
pub mod Client
pub mod Domain
pub mod Ruler
pub mod Cluster
pub mod Server
pub mod Sync
pub mod Reconcile
pub mod Watch
pub mod Alertmanager
pub mod Controller
pub mod Duration
pub mod ExternalLabels
pub mod Tests
