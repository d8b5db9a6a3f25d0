-- ===== src/Sidecar/Kubelet.antt =====
-- The usage of the target container in percent: sidecar/pkg/kubelet/metrics.go. The API server and
-- the kubelet answer through `Answers`, quantities are read by `Quantities`, and `float64` is the
-- interface `Floats`, since the checker has no floating-point numbers.
pub mod Search
pub mod Reading
pub mod Limits
pub mod Usage
use pprof_operator.Prelude.{
  ℕ, Bool, true, false, ◌&&◌, ◌||◌, Option, none, some, List, [], ◌∷◌, String, ◌<>◌, ◌==◌, lookup,
  eqb, Result, ok, err, ◌>>=◌, or_err, if◌then◌else◌, or_else,
}
use pprof_operator.Prelude.Int.{ℤ, is_zero, pos, ◌*ℤ◌, wrap64}
use pprof_operator.Kube.{ResourceList, Container, Pod}

-- `float64`: the conversion of integers, and the operations that the sidecar uses.
pub record Floats : Type 1 where
  pub F : Type 0
  pub of_int : ℤ → F
  pub div : F → F → F
  pub mul : F → F → F
  pub ge : F → F → Bool

-- `Quantity.MilliValue` and `Quantity.Value`.
pub record Quantities : Type 0 where
  pub milli_value : String → ℤ
  pub value : String → ℤ

pub record KubeletConfig : Type 0 where
  pub namespace : String
  pub pod_name : String
  pub target_container : String

pub record ContainerStats : Type 0 where
  pub name : String
  pub usage_nano_cores : ℕ
  pub working_set_bytes : ℕ

-- `uid` is what the kubelet sends and no code reads.
pub record PodStats : Type 0 where
  pub name : String
  pub namespace : String
  pub uid : String
  pub containers : List ContainerStats

-- The answers to the four calls: a pod by its namespace and name, what the API server has at a path,
-- which may come and not be JSON, and the capacity of a node by its name.
pub record Answers : Type 0 where
  pub pod : String → String → Option Pod
  pub raw : String → Option String
  pub unmarshal : String → Option (List PodStats)
  pub node_capacity : String → Option ResourceList

pub data KubeletError : Type 0 where
  names_not_available pod_failed no_node_name raw_failed parse_failed node_failed stats_not_found :
      KubeletError

abbrev pub amount : (String → ℤ) → Option String → ℤ
amount read none = pos 0
amount read (some q) = read q

-- The limits of the first container with the name, 0 for a limit that is not set.
unfoldable pub container_limits : Quantities → String → List Container → ℤ × ℤ
container_limits q name [] = (pos 0, pos 0)
container_limits q name (c ∷ cs) =
    if c.name == name
    then (
      amount q.milli_value (lookup "cpu" c.resources.limits),
      amount q.value (lookup "memory" c.resources.limits),
    )
    else container_limits q name cs

-- A limit that is 0 is replaced by the node's capacity, if the node states one.
abbrev or_capacity : (String → ℤ) → ℤ → Option String → ℤ
or_capacity read limit capacity = if is_zero limit then amount read capacity else limit

unfoldable pub with_capacity : Quantities → ℤ × ℤ → ResourceList → ℤ × ℤ
with_capacity q (cpu, memory) capacity = (
  or_capacity q.milli_value cpu (lookup "cpu" capacity),
  or_capacity q.value memory (lookup "memory" capacity),
)

-- The node is asked only if one of the limits is 0.
unfoldable pub effective_limits :
    Quantities → ℤ × ℤ → Option ResourceList → Result KubeletError (ℤ × ℤ)
unfolding with_capacity
effective_limits q (cpu, memory) node =
    if is_zero cpu || is_zero memory
    then elim node [
      | none ↦ err node_failed
      | some capacity ↦ ok (with_capacity q (cpu, memory) capacity)
    ]
    else ok (cpu, memory)

-- The inner loop: the first container with the name.
unfoldable pub find_container : String → List ContainerStats → Option ContainerStats
find_container name [] = none
find_container name (c ∷ cs) = if c.name == name then some c else find_container name cs

-- The outer loop: it goes on over the pods until the container is found.
unfoldable pub find_stats : KubeletConfig → List PodStats → Option ContainerStats
unfolding find_container
find_stats cfg [] = none
find_stats cfg (p ∷ ps) =
    let rest = find_stats cfg ps in
    if p.namespace == cfg.namespace && p.name == cfg.pod_name
    then or_else (find_container cfg.target_container p.containers) rest
    else rest

-- The path of a node's statistics.
unfoldable pub kubelet_url : String → String
kubelet_url node = "/api/v1/nodes/" <> (node <> "/proxy/stats/summary")

abbrev guard : Bool → KubeletError → Result KubeletError (Unit {0})
guard b e = if b then err e else ok tt

module _ (f : Floats) where
  open f use {F, of_int, div, mul}

  -- `(float64(usage) / float64(limit)) * 100`.
  abbrev pub percent : ℕ → ℤ → F
  percent usage limit = mul (div (of_int (pos usage)) (of_int limit)) (of_int (pos 100))

  -- The percentages of CPU and memory.
  unfoldable pub percentages : ContainerStats → ℤ × ℤ → F × F
  percentages c (cpu, memory) = (
    percent c.usage_nano_cores (wrap64 (cpu *ℤ pos 1_000_000)),
    percent c.working_set_bytes memory,
  )

  -- `GetKubeletMetrics`.
  unfoldable pub get_kubelet_metrics :
      Quantities → KubeletConfig → Answers → Result KubeletError (F × F)
  unfolding container_limits effective_limits find_stats
  get_kubelet_metrics q cfg a = do
    _ ←
        guard (cfg.pod_name == "" || (cfg.namespace == "" || cfg.target_container == ""))
          names_not_available
    pod ← or_err (a.pod cfg.namespace cfg.pod_name) pod_failed
    _ ← guard (pod.node_name == "") no_node_name
    raw ← or_err (a.raw (kubelet_url pod.node_name)) raw_failed
    stats ← or_err (a.unmarshal raw) parse_failed
    limits ←
        effective_limits q (container_limits q cfg.target_container pod.containers)
          (a.node_capacity pod.node_name)
    c ← or_err (find_stats cfg stats) stats_not_found
    ok (percentages c limits)
