-- ===== src/Sidecar/Kubelet/Search.antt =====
-- Which statistics and which limits a reading is made of.
use pprof_operator.Prelude.{
  ◌≡◌, refl, false, ◌&&◌, Option, some, List, [], ◌∷◌, ◌++◌, String, ◌==◌, arith, Bool-cases, inl,
  inr, ok, if◌then◌else◌,
}
use pprof_operator.Prelude.Int.{ℤ}
use pprof_operator.Kube.{ResourceList, Pod}
use pprof_operator.Sidecar.Kubelet.{
  Floats, Quantities, KubeletConfig, ContainerStats, PodStats, Answers, container_limits,
  effective_limits, find_container, find_stats, get_kubelet_metrics,
}
use pprof_operator.Prelude.Int.{is_zero}
use pprof_operator.Prelude.{or_else}

-- The containers of all the pods with the configuration's namespace and name, in order.
abbrev pub own_containers : KubeletConfig → List PodStats → List ContainerStats
own_containers cfg [] = []
own_containers cfg (p ∷ ps) =
    (if p.namespace == cfg.namespace && p.name == cfg.pod_name then p.containers else [])
    ++ own_containers cfg ps

find_container-append :
    (n : String) (xs ys : List ContainerStats)
    → find_container n (xs ++ ys) ≡ or_else (find_container n xs) (find_container n ys)
unfolding find_container
find_container-append n [] ys = refl
find_container-append n (x ∷ xs) ys = ground (arith, find_container-append n xs ys)

-- The nested loops with their two breaks find the first container of the name among the containers
-- of all the pods of the name and namespace.
pub find_stats-eq-find :
    (cfg : KubeletConfig) (ps : List PodStats)
    → find_stats cfg ps ≡ find_container cfg.target_container (own_containers cfg ps)
unfolding find_stats
find_stats-eq-find cfg [] = refl
find_stats-eq-find cfg (p ∷ ps) =
    elim (Bool-cases (p.namespace == cfg.namespace && p.name == cfg.pod_name)) [
      | inl own ↦ rw own (rw (find_container-append, find_stats-eq-find cfg ps) refl)
      | inr other ↦ rw other (find_stats-eq-find cfg ps)
    ]

effective_limits-limited :
    (q : Quantities) (limits : ℤ × ℤ) (capacity : Option ResourceList)
    → is_zero limits.0 ≡ false
    → is_zero limits.1 ≡ false
    → effective_limits q limits capacity ≡ ok limits
unfolding effective_limits
effective_limits-limited q (cpu, memory) capacity c m = ground arith

module _ (fl : Floats) (q : Quantities) (cfg : KubeletConfig) where
  -- The node's answer plays no part where the container has both limits.
  pub get_kubelet_metrics-without_node :
      (a : Answers) (pod : Pod) (capacity : String → Option ResourceList)
      → a.pod cfg.namespace cfg.pod_name ≡ some pod
      → let limits = container_limits q cfg.target_container pod.containers in
        is_zero limits.0 ≡ false
        → is_zero limits.1 ≡ false
        → get_kubelet_metrics fl q cfg a
          ≡ get_kubelet_metrics fl q cfg (record a { node_capacity = capacity })
  unfolding get_kubelet_metrics
  get_kubelet_metrics-without_node a pod capacity h c m = ground (
    arith,
    effective_limits-limited q (container_limits q cfg.target_container pod.containers)
        (a.node_capacity pod.node_name) c m,
    effective_limits-limited q (container_limits q cfg.target_container pod.containers)
        (capacity pod.node_name) c m,
  )
