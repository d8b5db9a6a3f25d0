-- ===== src/Tests/Registering.antt =====
-- A registry that is the list of its collectors.
use pprof_operator.Prelude.{
  ◌≡◌, refl, ◌∙◌, arith, Bool, Bool-cases, inl, inr, false, ◌||◌, ◌==◌, Option, none, some, List,
  [], ◌∷◌, String, contains, if◌then◌else◌,
}
use pprof_operator.Prometheus.{Collector, gauge, Registry, names}
use pprof_operator.Webhook.Collectors as Operator
use pprof_operator.Webhook.Collectors.{operator_collectors}
use pprof_operator.Sidecar.Collectors as Sidecar
use pprof_operator.Contract.Collectors.{
  Promhttp, IsServed, exposes, operator_names, more_operator_names, init-IsServed,
}

pub register_all : List Collector → List Collector → Option (List Collector)
register_all [] s = some s
register_all (c ∷ cs) s =
    let rest = register_all cs (c ∷ s) in if contains c.name (names s) then none else rest

pub register_all-cons :
    (c : Collector) (cs s : List Collector)
    → contains c.name (names s) ≡ false
    → (s' : List Collector) × (register_all (c ∷ cs) s ≡ register_all cs s')
      × ((n : String) → contains n (names s') ≡ (c.name == n || contains n (names s)))
unfolding register_all
register_all-cons c cs s free = (c ∷ s, rw free refl, λ n. refl)

pub register_all-nil : (s : List Collector) → register_all [] s ≡ some s
unfolding register_all
register_all-nil s = refl

abbrev pub listed : Registry
listed = record {
  State = List Collector;
  has = λ s n. contains n (names s);
  must_register = register_all;
  new_registry = [];
  new_registry-has = λ n. refl;
  register_nil = register_all-nil;
  register_cons = register_all-cons;
}

abbrev runtime_collectors : List Collector
runtime_collectors = record { kind = gauge; name = "go_goroutines"; labels = [] } ∷ []

register_all-exposes :
    (in_use : String → Bool) (n : String) (cs s s' : List Collector)
    → register_all cs s ≡ some s'
    → exposes s' in_use n ≡ (exposes cs in_use n || exposes s in_use n)
unfolding register_all
register_all-exposes in_use n [] s s' h = ground arith
register_all-exposes in_use n (c ∷ cs) s s' h = elim (Bool-cases (contains c.name (names s))) [
  | inl taken ↦ absurd (ground (arith, taken))
  | inr free ↦
      let rest = register_all-exposes in_use n cs (c ∷ s) s' (ground (arith, free)) in
      ground (arith, rest)
]

pub register_all-shows :
    (cs s : List Collector)
    → register_all cs [] ≡ some s
    → (in_use : String → Bool) (n : String) → exposes s in_use n ≡ exposes cs in_use n
register_all-shows cs s h in_use n = register_all-exposes in_use n cs [] s h ∙ ground arith

-- The handler of a registry is the list of its collectors.
abbrev pub promhttp : Promhttp listed
promhttp = record {
  Handler = List Collector;
  shows = λ h in_use n. exposes h in_use n;
  handler_for = λ s. s;
  handler_for-shows = register_all-shows;
}

init-IsServed_example :
    ((after : List Collector) × (Operator.init listed runtime_collectors ≡ some after)
      × ((n : String)
          → contains n (names after) ≡ (
              contains n operator_names
              || (contains n more_operator_names || contains n (names runtime_collectors)))))
    × ((after : List Collector) × (Sidecar.init listed ≡ some after)
        × IsServed listed promhttp after)
unfolding operator_collectors
init-IsServed_example =
    init-IsServed listed promhttp runtime_collectors
      (refl, (refl, (refl, (refl, (refl, (refl, (refl, tt)))))))
