-- ===== src/Tests/Unlimited.antt =====
-- A container without limits on a node that states no capacity.
use pprof_operator.Prelude.{
  ℕ, ◌*◌, ◌/◌, ◌≡◌, refl, Bool, true, false, none, some, List, [], ◌∷◌, arith, leb, eqb, ok,
  if◌then◌else◌,
}
use pprof_operator.Prelude.Int.{ℤ, pos, negsuc}
use pprof_operator.Kube.{Container, Pod}
use pprof_operator.Sidecar.Metrics.{no_metrics}
use pprof_operator.Sidecar.Kubelet.{
  Floats, ContainerStats, PodStats, container_limits, effective_limits, find_container, percentages,
}
use pprof_operator.Sidecar.Kubelet.Search.{own_containers}
use pprof_operator.Sidecar.Kubelet.Reading.{IsReading}
use pprof_operator.Sidecar.Monitor.{Tick, State, kubelet_config, on_tick}
use pprof_operator.Sidecar.Monitor.Cooldown.{times}
use pprof_operator.Sidecar.Monitor.Unlimited.{HasInfinity, unlimited-heap}
use pprof_operator.Tests.Data.{app, pod_of, off_annotations}
use pprof_operator.Tests.Delivery.{not_empty}
use pprof_operator.Tests.Answers.{config, quantities, tick_at}

data Extended : Type 0 where
  not_a_number : Extended
  infinite : Extended
  finite : ℕ → Extended

abbrev of_integer : ℤ → Extended
of_integer (pos n) = finite n
of_integer (negsuc n) = finite 0

abbrev quotient : Extended → Extended → Extended
quotient (finite a) (finite b) =
    if eqb b 0 then (if eqb a 0 then not_a_number else infinite) else finite (a / b)
quotient infinite (finite b) = infinite
quotient a b = not_a_number

abbrev product : Extended → Extended → Extended
product (finite a) (finite b) = finite (a * b)
product infinite (finite b) = if eqb b 0 then not_a_number else infinite
product a b = not_a_number

abbrev at_least : Extended → Extended → Bool
at_least (finite a) (finite b) = leb b a
at_least infinite (finite b) = true
at_least infinite infinite = true
at_least a b = false

abbrev extended : Floats
extended = record {
  F = Extended;
  of_int = of_integer;
  div = quotient;
  mul = product;
  ge = at_least;
}

infinite-ge : (n : ℤ) → at_least infinite (of_integer n) ≡ true
infinite-ge (pos n) = refl
infinite-ge (negsuc n) = refl

extended-HasInfinity : HasInfinity extended
extended-HasInfinity = record {
  inf = infinite;
  nan = not_a_number;
  div_zero = λ n. ground arith;
  zero_div_zero = refl;
  inf_mul = refl;
  nan_mul = refl;
  inf_ge = infinite-ge;
  nan_ge = λ n. refl;
}

abbrev bare : Container
bare = record app { resources = record { requests = []; limits = [] } }

abbrev bare_pod : Pod
bare_pod = pod_of off_annotations (bare ∷ [])

abbrev used : ContainerStats
used = record { name = "app"; usage_nano_cores = 0; working_set_bytes = 1 }

abbrev own_stats : List PodStats
own_stats = record { name = "pod-1"; namespace = "apps"; uid = "4f2a"; containers = used ∷ [] } ∷ []

abbrev bare_tick : Tick
bare_tick = record (tick_at 3) {
  answers = record {
    pod = λ namespace name. some bare_pod;
    raw = λ path. some "stats";
    unmarshal = λ raw. some own_stats;
    node_capacity = λ node. some [];
  };
}

unlimited :
    effective_limits quantities (container_limits quantities "app" bare_pod.containers) (some [])
    ≡ ok (pos 0, pos 0)
unfolding effective_limits container_limits
unlimited = refl

found :
    find_container "app" (own_containers (kubelet_config extended quantities config) own_stats)
    ≡ some used
unfolding find_container
found = refl

bare-IsReading :
    IsReading extended quantities
      (kubelet_config extended quantities config)
      bare_tick.answers
      (percentages extended used (pos 0, pos 0))
bare-IsReading = record {
  pod = bare_pod;
  raw = "stats";
  stats = own_stats;
  limits = (pos 0, pos 0);
  container = used;
  has_name = not_empty "pod-1" refl;
  has_namespace = not_empty "apps" refl;
  has_target = not_empty "app" refl;
  answered = refl;
  scheduled = not_empty "node-1" refl;
  received = refl;
  parsed = refl;
  limited = unlimited;
  found = found;
  computed = refl;
}

not_limited : (container_limits quantities "app" bare_pod.containers).1 ≡ pos 0
unfolding container_limits
not_limited = refl

abbrev start : State Extended
start = record { last_cpu_time = none; metrics = no_metrics }

unlimited-heap_example :
    times "heap" (on_tick extended quantities config bare_tick start).1 ≡ 3 ∷ []
unfolding bare-IsReading
unlimited-heap_example =
    unlimited-heap extended quantities config extended-HasInfinity bare_tick start
      (percentages extended used (pos 0, pos 0)) [] bare-IsReading not_limited refl refl
