-- ===== src/Sidecar/Kubelet/Usage.antt =====
-- What a reading promises, described without the code of GetKubeletMetrics: the first container of
-- a name, the limit that counts, and the usage over it.
use pprof_operator.Prelude.{
  ◌≡◌, ◌≢◌, ◌↔◌, ◌∙◌, ap, sym, Bool-cases, inl, inr, some, List, [], ◌∷◌, String, ◌<>◌, ◌==◌,
  lookup, arith, eq_iff, ok,
}
use pprof_operator.Prelude.Int.{ℤ, pos, ◌*ℤ◌, wrap64}
use pprof_operator.Kube.{ResourceList, Pod}
use pprof_operator.Sidecar.Kubelet.{
  Floats, Quantities, KubeletConfig, ContainerStats, PodStats, Answers, effective_limits,
  find_container, percentages, kubelet_url, get_kubelet_metrics,
}
use pprof_operator.Sidecar.Kubelet.Search.{own_containers}
use pprof_operator.Sidecar.Kubelet.Reading.{IsReading, get_kubelet_metrics_ok_iff}
use pprof_operator.Sidecar.Kubelet.Limits.{
  OwnLimits, quantity, IsLimit, own_limits, container_limits_of_own, effective_limits-IsLimit,
  effective_limits_of_IsLimit,
}

-- The first of the statistics with the name.
pub data IsFirst (name : String) : List ContainerStats → ContainerStats → Type 0 where
  here :
      (d c : ContainerStats) (cs : List ContainerStats)
      → d.name ≡ name
      → d ≡ c
      → IsFirst name (d ∷ cs) c
  later :
      (d c : ContainerStats) (cs : List ContainerStats)
      → d.name ≢ name
      → IsFirst name cs c
      → IsFirst name (d ∷ cs) c

find_container-IsFirst :
    (name : String) (cs : List ContainerStats) (c : ContainerStats)
    → find_container name cs ≡ some c
    → IsFirst name cs c
unfolding find_container
find_container-IsFirst name [] c h = absurd (ground arith)
find_container-IsFirst name (d ∷ cs) c h = elim (Bool-cases (d.name == name)) [
  | inl named ↦ here d c cs (ground (arith, eq_iff d.name name)) (ground (arith, named))
  | inr other ↦
      later d c cs (λ e. absurd (ground (arith, eq_iff d.name name)))
        (find_container-IsFirst name cs c (ground (arith, other)))
]

find_container_of_first :
    (name : String) (cs : List ContainerStats) (c : ContainerStats)
    → IsFirst name cs c
    → find_container name cs ≡ some c
unfolding find_container
find_container_of_first name _ c (here d _ cs e same) = ground (arith, eq_iff d.name name, same)
find_container_of_first name _ c (later d _ cs ne h) =
    ground (arith, eq_iff d.name name, find_container_of_first name cs c h)

-- What a reading of the target container is made of.
pub record IsUsage (fl : Floats) (q : Quantities) (cfg : KubeletConfig) (a : Answers)
    (r : fl.F × fl.F) : Type 0 where
  pub pod : Pod
  pub raw : String
  pub stats : List PodStats
  pub own : ResourceList
  pub cpu : ℤ
  pub memory : ℤ
  pub container : ContainerStats
  pub has_name : cfg.pod_name ≢ ""
  pub has_namespace : cfg.namespace ≢ ""
  pub has_target : cfg.target_container ≢ ""
  pub answered : a.pod cfg.namespace cfg.pod_name ≡ some pod
  pub scheduled : pod.node_name ≢ ""
  pub received : a.raw ("/api/v1/nodes/" <> (pod.node_name <> "/proxy/stats/summary")) ≡ some raw
  pub parsed : a.unmarshal raw ≡ some stats
  pub limits : OwnLimits cfg.target_container pod.containers own
  pub cpu_limit :
      IsLimit
        (quantity q.milli_value (lookup "cpu" own))
        q.milli_value
        "cpu"
        (a.node_capacity pod.node_name)
        cpu
  pub memory_limit :
      IsLimit
        (quantity q.value (lookup "memory" own))
        q.value
        "memory"
        (a.node_capacity pod.node_name)
        memory
  pub found : IsFirst cfg.target_container (own_containers cfg stats) container
  pub cpu_percent :
      r.0
      ≡ fl.mul
          (fl.div
            (fl.of_int (pos container.usage_nano_cores))
            (fl.of_int (wrap64 (cpu *ℤ pos 1_000_000))))
          (fl.of_int (pos 100))
  pub memory_percent :
      r.1
      ≡ fl.mul
          (fl.div (fl.of_int (pos container.working_set_bytes)) (fl.of_int memory))
          (fl.of_int (pos 100))

module _ (fl : Floats) (q : Quantities) (cfg : KubeletConfig) (a : Answers) (r : fl.F × fl.F) where
  IsReading-IsUsage : IsReading fl q cfg a r → IsUsage fl q cfg a r
  unfolding percentages kubelet_url
  IsReading-IsUsage h =
      let (own, limits) = own_limits q cfg.target_container h.pod.containers in
      let (cpu, memory) =
        effective_limits-IsLimit q cfg.target_container _ _ h.limits.0 h.limits.1 _ (
          ap (λ l. effective_limits q l (a.node_capacity h.pod.node_name))
            (sym (container_limits_of_own q cfg.target_container _ own limits))
          ∙ h.limited) in
      record {
        pod = h.pod;
        raw = h.raw;
        stats = h.stats;
        own = own;
        cpu = h.limits.0;
        memory = h.limits.1;
        container = h.container;
        has_name = h.has_name;
        has_namespace = h.has_namespace;
        has_target = h.has_target;
        answered = h.answered;
        scheduled = h.scheduled;
        received = h.received;
        parsed = h.parsed;
        limits = limits;
        cpu_limit = cpu;
        memory_limit = memory;
        found = find_container-IsFirst cfg.target_container _ h.container h.found;
        cpu_percent = ap (λ x. x.0) h.computed;
        memory_percent = ap (λ x. x.1) h.computed;
      }

  IsUsage-IsReading : IsUsage fl q cfg a r → IsReading fl q cfg a r
  unfolding percentages kubelet_url
  IsUsage-IsReading h = record {
    pod = h.pod;
    raw = h.raw;
    stats = h.stats;
    limits = (h.cpu, h.memory);
    container = h.container;
    has_name = h.has_name;
    has_namespace = h.has_namespace;
    has_target = h.has_target;
    answered = h.answered;
    scheduled = h.scheduled;
    received = h.received;
    parsed = h.parsed;
    limited =
        ap (λ l. effective_limits q l (a.node_capacity h.pod.node_name))
          (container_limits_of_own q cfg.target_container _ h.own h.limits)
        ∙ effective_limits_of_IsLimit q cfg.target_container _ _ h.cpu h.memory _ h.cpu_limit
            h.memory_limit;
    found = find_container_of_first cfg.target_container _ h.container h.found;
    computed = λ i. (h.cpu_percent i, h.memory_percent i);
  }

  -- A reading succeeds exactly if pod, namespace and target are named, the pod is found and
  -- scheduled, the statistics of its node's kubelet come and parse and hold the target container
  -- of a pod with this namespace and name, whatever the pod's UID, and for CPU and memory the
  -- target container has a limit that is not 0 or the node is found. It is then the usage of the
  -- first such container, in percent of its limits, where a limit of 0 is replaced by what the
  -- node's capacity has, 0 if it has nothing of it.
  pub get_kubelet_metrics_iff : (get_kubelet_metrics fl q cfg a ≡ ok r) ↔ IsUsage fl q cfg a r
  get_kubelet_metrics_iff =
      let (reads, is_read) = get_kubelet_metrics_ok_iff fl q cfg a r in
      (λ h. IsReading-IsUsage (reads h), λ h. is_read (IsUsage-IsReading h))
