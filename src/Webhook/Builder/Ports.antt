-- ===== src/Webhook/Builder/Ports.antt =====
-- The port on which the sidecar exposes its metrics.
use pprof_operator.Prelude.{
  ℕ, ◌≤◌, ◌≡◌, refl, ◌∙◌, false, ◌||◌, Option, none, some, [], ◌∷◌, String, ◌<>◌, ◌==◌, arith,
  lookup, ok, err, Result-cases, Bool-cases, Option-cases, inl, inr,
}
use pprof_operator.Prelude.Int.{ℤ, pos, negsuc, leb_ℤ, ltb_ℤ}
use pprof_operator.Text.{trim_space}
use pprof_operator.Text.Decimal.{itoa, atoi}
use pprof_operator.Api.{Profiler}
use pprof_operator.Kube.{literal, Container, Pod}
use pprof_operator.Webhook.Annotations.{annotation_sidecar_metrics_port}
use pprof_operator.Webhook.Builder.{
  BuildError, container_of, checked_port, metrics_port, target_container, sidecar_env,
  build_profiler_sidecar,
}
use pprof_operator.Webhook.Builder.Names.{last_named}
use pprof_operator.Webhook.Builder.Blocks.{last_named-sidecar_env}

-- A port number.
abbrev pub IsPort : ℤ → Type 0
IsPort p = (n : ℕ) × (p ≡ pos n) × (1 ≤ n) × (n ≤ 65535)

usual-IsPort : IsPort (pos 8080)
usual-IsPort = (8080, refl, omega arith, omega arith)

positive-IsPort : (p : ℤ) → (leb_ℤ p (pos 0) || ltb_ℤ (pos 65535) p) ≡ false → IsPort p
positive-IsPort (pos n) h = (n, refl, ground arith, ground arith)
positive-IsPort (negsuc n) h = absurd (ground arith)

checked_port-IsPort : (o : Option ℤ) → IsPort (checked_port o)
checked_port-IsPort none = usual-IsPort
checked_port-IsPort (some p) = elim (Bool-cases (leb_ℤ p (pos 0) || ltb_ℤ (pos 65535) p)) [
  | inl bad ↦ rw bad usual-IsPort
  | inr good ↦ rw good (positive-IsPort p good)
]

metrics_port-IsPort : (pod : Pod) → IsPort (metrics_port pod)
unfolding metrics_port
metrics_port-IsPort pod =
    elim (Option-cases (lookup annotation_sidecar_metrics_port pod.annotations)) [
      | inl unset ↦ rw (unset, metrics_port) usual-IsPort
      | inr (v, set) ↦ elim (Bool-cases (trim_space v == "")) [
        | inl blank ↦ rw (set, metrics_port, blank) usual-IsPort
        | inr text ↦ rw (set, metrics_port, text) (checked_port-IsPort (atoi (trim_space v)))
      ]
    ]

addr_entry :
    (p : Profiler) (pod : Pod) (target : String)
    → last_named "METRICS_ADDR" (sidecar_env p pod target)
      ≡ some (literal "METRICS_ADDR" (":" <> itoa (metrics_port pod)))
addr_entry p pod target = last_named-sidecar_env p pod "METRICS_ADDR" target

container_of-eq :
    (p : Profiler) (pod : Pod) (target : String) {c : Container}
    → target_container pod ≡ ok target
    → build_profiler_sidecar p pod ≡ ok c
    → container_of p pod target ≡ c
unfolding build_profiler_sidecar
container_of-eq p pod target named h = ground arith

not_built :
    (p : Profiler) (pod : Pod) {e : BuildError} {c : Container}
    → target_container pod ≡ err e
    → ¬ (build_profiler_sidecar p pod ≡ ok c)
unfolding build_profiler_sidecar
not_built p pod failed h = ground arith

-- Whatever the annotation says, the sidecar gets one port, named "metrics", between 1 and 65535,
-- and its METRICS_ADDR is that same port behind a colon.
pub build_profiler_sidecar-port :
    (p : Profiler) (pod : Pod) {c : Container}
    → build_profiler_sidecar p pod ≡ ok c
    → (n : ℕ) × (1 ≤ n)
      × (n ≤ 65535)
      × (c.ports ≡ record { name = "metrics"; container_port = pos n; protocol = "TCP" } ∷ [])
      × (last_named "METRICS_ADDR" c.env ≡ some (literal "METRICS_ADDR" (":" <> itoa (pos n))))
build_profiler_sidecar-port p pod h = elim (Result-cases (target_container pod)) [
  | inl (target, named) ↦
      let (n, port, low, high) = metrics_port-IsPort pod in
      let built = container_of-eq p pod target named h in
      (n, low, high, rw (← built, port) refl, rw (← built) (addr_entry p pod target ∙ rw port refl))
  | inr (e, failed) ↦ absurd (not_built p pod failed h)
]
