-- ===== src/Webhook/Mutator.antt =====
-- The admission handler: `PodMutator` of internal/webhook/v1/pod_webhook.go, over the metrics of
-- internal/metrics/metrics.go that it moves.
pub mod Containers
pub mod Outcome
pub mod Counting
pub mod Switching
pub mod Settling
pub mod Order
pub mod Injection
pub mod Server
use pprof_operator.Prelude.{
  ℕ, ◌+◌, Bool, true, not, Option, none, some, List, [], ◌∷◌, ◌++◌, String, ◌==◌, lookup,
  get_or_empty, ok, err, if◌then◌else◌,
}
use pprof_operator.Prelude.Int.{ℤ, pos, ◌+ℤ◌, ◌-ℤ◌}
use pprof_operator.Api.{Profiler, ProfilerList}
use pprof_operator.Kube.{Container, Pod}
use pprof_operator.Webhook.Annotations.{annotation_profiler_enable, annotation_profiler_name}
use pprof_operator.Webhook.Settings.{has_sidecar}
use pprof_operator.Webhook.Builder.{BuildError, build_profiler_sidecar}

-- The three metrics that the handler moves. No code moves the other four.
pub record OperatorMetrics : Type 0 where
  pub sidecars_attached : ℕ
  pub sidecars_removed : ℕ
  pub active_sidecars : ℤ

pub data HandleError : Type 0 where
  decoder_not_initialized decode_failed list_failed marshal_failed : HandleError
  profiler_not_found : String → HandleError
  build_failed : BuildError → HandleError

-- `admission.Response`: a refusal with a status, an admission with a message, or a patch, given by
-- the text of the object before and after.
pub data Response : Type 0 where
  errored : ℕ → HandleError → Response
  allowed : String → Response
  patched : (raw marshaled : String) → Response

pub record Request : Type 0 where
  pub namespace : String
  pub raw : String

-- What the handler calls: the decoder, which is nil until it is injected, the API server's list of
-- profilers, and `json.Marshal`.
pub record Services : Type 0 where
  pub decoder : Option (String → Option Pod)
  pub list : String → Option ProfilerList
  pub marshal : Pod → Option String

abbrev pub sidecar_name : String
sidecar_name = "pprof-sidecar"

-- The loop of `removeSidecarIfExists`.
unfoldable pub without_sidecar : List Container → List Container
without_sidecar [] = []
without_sidecar (c ∷ cs) =
    let rest = without_sidecar cs in if not (c.name == sidecar_name) then c ∷ rest else rest

-- The loop over the listed profilers.
unfoldable pub find_profiler : String → List Profiler → Option Profiler
find_profiler name [] = none
find_profiler name (p ∷ ps) = if p.name == name then some p else find_profiler name ps

-- `value == "false" || exists == false`.
unfoldable pub is_disabled : Pod → Bool
is_disabled pod = elim (lookup annotation_profiler_enable pod.annotations) [
  | none ↦ true
  | some value ↦ value == "false"
]

module _ (s : Services) where
  -- The end of both paths: the patch of the request's object to `pod`.
  unfoldable pub respond : Request → Pod → Response
  respond req pod = elim (s.marshal pod) [
    | none ↦ errored 500 marshal_failed
    | some text ↦ patched req.raw text
  ]

  unfoldable pub remove_sidecar_if_exists :
      Pod → Request → OperatorMetrics → OperatorMetrics × Response
  remove_sidecar_if_exists pod req m =
      if not (has_sidecar pod.containers sidecar_name)
      then (m, allowed "Pod does not have profiler sidecar")
      else (
        record m {
          sidecars_removed = m.sidecars_removed + 1;
          active_sidecars = m.active_sidecars -ℤ pos 1;
        },
        respond req (record pod { containers = without_sidecar pod.containers }),
      )

  -- From the call of `BuildProfilerSidecar` on.
  unfoldable pub attach : Pod → Profiler → Request → OperatorMetrics → OperatorMetrics × Response
  attach pod p req m = elim (build_profiler_sidecar p pod) [
    | err e ↦ (m, errored 500 (build_failed e))
    | ok sidecar ↦ (
      record m {
        sidecars_attached = m.sidecars_attached + 1;
        active_sidecars = m.active_sidecars +ℤ pos 1;
      },
      respond req (record pod { containers = pod.containers ++ (sidecar ∷ []) }),
    )
  ]

  abbrev pub choose :
      Pod → String → List Profiler → Request → OperatorMetrics → OperatorMetrics × Response
  choose pod name [] req m = (m, allowed "No profiler found in namespace")
  choose pod name (p ∷ ps) req m = elim (find_profiler name (p ∷ ps)) [
    | none ↦ (m, errored 500 (profiler_not_found name))
    | some q ↦ attach pod q req m
  ]

  unfoldable pub handle_enabled : Pod → Request → OperatorMetrics → OperatorMetrics × Response
  handle_enabled pod req m = elim (lookup annotation_profiler_name pod.annotations) [
    | none ↦ (m, allowed "No profiler name specified")
    | some name ↦ elim (s.list req.namespace) [
      | none ↦ (m, errored 500 list_failed)
      | some l ↦ choose pod name l.items req m
    ]
  ]

  unfoldable pub handle_pod : Pod → Request → OperatorMetrics → OperatorMetrics × Response
  handle_pod pod req m =
      if is_disabled pod
      then if has_sidecar pod.containers sidecar_name
        then remove_sidecar_if_exists pod req m
        else (m, allowed "Pod does not have profiler.pprof.dev/enable=true annotation")
      else handle_enabled pod req m

  -- `Handle`.
  unfoldable pub handle : Request → OperatorMetrics → OperatorMetrics × Response
  handle req m = elim s.decoder [
    | none ↦ (m, errored 500 decoder_not_initialized)
    | some decode ↦ elim (decode req.raw) [
      | none ↦ (m, errored 400 decode_failed)
      | some pod ↦ handle_pod pod req m
    ]
  ]

  -- A sequence of requests.
  unfoldable pub handle_all : List Request → OperatorMetrics → OperatorMetrics × List Response
  handle_all [] m = (m, [])
  handle_all (r ∷ rs) m =
      let (m', a) = handle r m in let (n, as') = handle_all rs m' in (n, a ∷ as')
