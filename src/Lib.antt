-- ===== src/Lib.antt =====
-- The pprof operator and its sidecar, as far as their own logic goes.
--
-- The operator (cmd/main.go) runs an admission webhook and a controller. The webhook
-- (internal/webhook/v1) adds a profiling sidecar to the pods whose annotations ask for one, set up
-- by a Profiler resource (api/v1), and takes it away where profiling is switched off. The
-- controller (internal/controller) only watches the resource. The sidecar (sidecar) reads its
-- environment, asks the kubelet for the usage of the target container at every tick, and when a
-- threshold is exceeded fetches a profile from the container and stores it in S3.
--
-- Which file models which code:
--   Prelude            shared names, Boolean tests, lists, results, signed integers with the wrap of
--                      Go's int64
--   Text               what is used of Go's strings, strconv, fmt and path/filepath
--   Api                api/v1/profiler_types.go
--   Api/Memory, Api/DeepCopy
--                      the same types with their pointers, in a heap, and
--                      api/v1/zz_generated.deepcopy.go
--   Api/Scheme         api/v1/groupversion_info.go and the registration of the types
--   Kube               the fields of the Kubernetes types that the program builds and reads
--   Webhook/Annotations, Settings, ScrapeTarget
--                      internal/webhook/v1/constants.go and utility.go
--   Webhook/Builder    BuildProfilerSidecar of internal/webhook/v1/sidecar_manager.go
--   Webhook/Mutator    Handle and removeSidecarIfExists of internal/webhook/v1/pod_webhook.go, with
--                      the metrics of internal/metrics/metrics.go that they move
--   Webhook/Mutator/Server
--                      the handler in one goroutine for each request
--   Webhook/Registration
--                      InjectDecoder and SetupPodWebhookWithManager of the same file
--   Controller         internal/controller/profiler_controller.go
--   Sidecar/Types      sidecar/pkg/types/types.go
--   Sidecar/Config     loadConfig and getScrapTarget of sidecar/cmd/main.go
--   Sidecar/Collect    collectAndUploadProfile of sidecar/cmd/main.go
--   Sidecar/Monitor    monitorResourceUsage of sidecar/cmd/main.go
--   Sidecar/Monitor/System
--                      the same loop with the ticker and the signals of main
--   Sidecar/Monitor/Bucket
--                      what a run of the loop stores
--   Sidecar/Kubelet, Storage, Metrics, Logging
--                      the packages of that name under sidecar/pkg
--   Sidecar/Start      main of sidecar/cmd/main.go
--   Manager            main and init of cmd/main.go
--   Prometheus, Webhook/Collectors, Sidecar/Collectors
--                      the metrics of internal/metrics/metrics.go and
--                      sidecar/pkg/metrics/metrics.go, and their registration
--   Http, SampleApp    what is used of net/http, and config/samples/examples/sample-app/main.go
--   Contract           the operator's output as the sidecar's input; the sidecar beside the sample
--                      application
--   Tests              concrete inputs and runs
--
-- A function keeps its Go name in this library's spelling: getAWSConfiguration is
-- get_aws_configuration. Logging calls are left out. State is passed explicitly: the operator's
-- metrics through Handle, the sidecar's metrics and the time of the last CPU profile through the
-- loop. A run of the webhook is a list of requests, a run of the loop is the list of events that
-- its select receives, and the outside world answers each of them through a record: Services for
-- the webhook (decoder, list of profilers, printing of a pod), Answers for the kubelet and the
-- API server, World for a collection, Cloud for an upload, Surroundings for the start of the
-- sidecar. A collection also yields its effects in order, deferred calls included. The start of
-- the operator is the list of its calls to controller-runtime, of which a Framework says which
-- succeed. Requests that are handled at once are a step relation on the metrics and on what each
-- goroutine has yet to do to them. The sidecar's process is a step relation: the ticker sends, a
-- signal cancels the context, and select takes a tick or returns.
--
-- Parameters: float64 is the record Floats, the quantities of Kubernetes are Quantities; nothing
-- is supposed of either, but for the laws of IEEE 754 that Sidecar/Monitor/Thresholds and
-- Sidecar/Monitor/Unlimited name where they use them. Delivers states what Kubernetes promises of
-- a container's environment: the last entry of a name counts, a literal with no "$" arrives as it
-- is, a reference to a secret gives what the secret holds, and of the variables that the sidecar
-- reads one with no entry is empty. DeliversFields adds the entries that
-- refer to a field of the pod. Registry and Promhttp stand for the Prometheus client: a registry
-- takes a collector whose name it does not have, and a page shows a vector only once it is in use.
-- Machinery and Runtime stand for the API machinery and controller-runtime, Network for the ports
-- of a pod.
--
-- Bounds: ints and durations of the sidecar are 64-bit, with wrap64 where the source multiplies or
-- adds; the CRD's numbers are int32. The printing of a number n takes fuel n + 1, of which it uses
-- one unit per digit; that it never runs out is part of the round trip in Text/Decimal/RoundTrip.
-- Every other recursion is structural. Time is a natural number of nanoseconds on the monotonic
-- clock.
--
-- Not modelled: what controller-runtime, Prometheus and the API machinery do with what the program
-- registers, the logger and its flags, connections over HTTP, and the load that the sample
-- application makes. Texts that
-- are not valid UTF-8 are left out.
pub mod Prelude
pub mod Text
pub mod Api
pub mod Kube
pub mod Http
pub mod SampleApp
pub mod Webhook
pub mod Sidecar
pub mod Controller
pub mod Manager
pub mod Prometheus
pub mod Contract
pub mod Tests
