-- ===== src/Sidecar/Kubelet/Reading.antt =====
-- When a reading succeeds, and what it is.
use pprof_operator.Prelude.{
  ◌≡◌, ◌≢◌, ◌↔◌, ◌∙◌, sym, some, List, String, arith, eq_iff, Option-cases, Result-cases, inl, inr,
  ok,
}
use pprof_operator.Prelude.Int.{ℤ}
use pprof_operator.Kube.{Pod}
use pprof_operator.Sidecar.Kubelet.{
  Floats, Quantities, KubeletConfig, ContainerStats, PodStats, Answers, container_limits,
  effective_limits, kubelet_url, find_container, find_stats, percentages, get_kubelet_metrics,
}
use pprof_operator.Sidecar.Kubelet.Search.{own_containers, find_stats-eq-find}

-- What a reading of the target container is made of.
pub record IsReading (fl : Floats) (q : Quantities) (cfg : KubeletConfig) (a : Answers)
    (r : fl.F × fl.F) : Type 0 where
  pub pod : Pod
  pub raw : String
  pub stats : List PodStats
  pub limits : ℤ × ℤ
  pub container : ContainerStats
  pub has_name : cfg.pod_name ≢ ""
  pub has_namespace : cfg.namespace ≢ ""
  pub has_target : cfg.target_container ≢ ""
  pub answered : a.pod cfg.namespace cfg.pod_name ≡ some pod
  pub scheduled : pod.node_name ≢ ""
  pub received : a.raw (kubelet_url pod.node_name) ≡ some raw
  pub parsed : a.unmarshal raw ≡ some stats
  pub limited :
      effective_limits q
        (container_limits q cfg.target_container pod.containers)
        (a.node_capacity pod.node_name)
      ≡ ok limits
  pub found : find_container cfg.target_container (own_containers cfg stats) ≡ some container
  pub computed : r ≡ percentages fl container limits

module _ (fl : Floats) (q : Quantities) (cfg : KubeletConfig) where
  get_kubelet_metrics_of_IsReading :
      (a : Answers) (r : fl.F × fl.F)
      → IsReading fl q cfg a r
      → get_kubelet_metrics fl q cfg a ≡ ok r
  unfolding get_kubelet_metrics
  get_kubelet_metrics_of_IsReading a r h = ground (
    arith,
    h.answered,
    h.received,
    h.parsed,
    h.limited,
    h.computed,
    h.scheduled,
    h.has_name,
    find_stats-eq-find cfg h.stats,
    h.found,
    eq_iff cfg.pod_name "",
    eq_iff cfg.namespace "",
    eq_iff cfg.target_container "",
    eq_iff h.pod.node_name "",
  )

  get_kubelet_metrics-IsReading :
      (a : Answers) (r : fl.F × fl.F)
      → get_kubelet_metrics fl q cfg a ≡ ok r
      → IsReading fl q cfg a r
  unfolding get_kubelet_metrics
  get_kubelet_metrics-IsReading a r h = elim (Option-cases (a.pod cfg.namespace cfg.pod_name)) [
    | inl nothing ↦ absurd (ground arith)
    | inr (pod, answered) ↦ elim (Option-cases (a.raw (kubelet_url pod.node_name))) [
      | inl nothing ↦ absurd (ground arith)
      | inr (raw, received) ↦ elim (Option-cases (a.unmarshal raw)) [
        | inl nothing ↦ absurd (ground arith)
        | inr (stats, parsed) ↦
            elim (Result-cases (
              effective_limits q (container_limits q cfg.target_container pod.containers)
                (a.node_capacity pod.node_name))) [
                  | inr (e, refused) ↦ absurd (ground arith)
                  | inl (limits, limited) ↦ elim (Option-cases (find_stats cfg stats)) [
                    | inl nothing ↦ absurd (ground arith)
                    | inr (container, found) ↦ record {
                      pod = pod;
                      raw = raw;
                      stats = stats;
                      limits = limits;
                      container = container;
                      has_name = λ e. absurd (ground (arith, eq_iff cfg.pod_name ""));
                      has_namespace = λ e. absurd (ground (arith, eq_iff cfg.namespace ""));
                      has_target = λ e. absurd (ground (arith, eq_iff cfg.target_container ""));
                      answered = answered;
                      scheduled = λ e. absurd (ground (arith, eq_iff pod.node_name ""));
                      received = received;
                      parsed = parsed;
                      limited = limited;
                      found = sym (find_stats-eq-find cfg stats) ∙ found;
                      computed = ground arith;
                    }
                  ]
                ]
      ]
    ]
  ]

  -- A reading succeeds exactly if pod, namespace and target are named, the pod is found and
  -- scheduled, the statistics of its node's kubelet come and parse, the limits are set or that node
  -- is found, and the statistics hold the target container of a pod with this namespace and name.
  -- It is then that container's usage over those limits, in percent.
  pub get_kubelet_metrics_ok_iff :
      (a : Answers) (r : fl.F × fl.F)
      → (get_kubelet_metrics fl q cfg a ≡ ok r) ↔ IsReading fl q cfg a r
  get_kubelet_metrics_ok_iff a r =
      (get_kubelet_metrics-IsReading a r, get_kubelet_metrics_of_IsReading a r)
