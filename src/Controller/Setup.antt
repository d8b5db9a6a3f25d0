-- ===== src/Controller/Setup.antt =====
-- How the controller comes to watch: `ProfilerReconciler` and its `SetupWithManager`, of
-- internal/controller/profiler_controller.go. The builder of controller-runtime collects what to
-- watch; its `Complete` is a parameter, and answers with an error or nothing.
use pprof_operator.Prelude.{Bool, Option, none, some, List, [], ◌∷◌, String, Result, ok, err}
use pprof_operator.Api.{Profiler}
use pprof_operator.Api.Scheme.{GoType, profiler_type}
use pprof_operator.Controller.{Request, Outcome, reconcile}

-- The client is known by the one call that the reconciler makes of it.
pub record ProfilerReconciler (Scheme E : Type 0) : Type 0 where
  pub client : Request → Result E Profiler
  pub scheme : Scheme

-- A `ctrl.Manager`, by what the reconciler takes of it.
pub record Manager (Scheme E : Type 0) : Type 0 where
  pub client : Request → Result E Profiler
  pub scheme : Scheme

-- What the controller of the builder is told: the type that it is for, the types of what it owns,
-- its name and what it calls for a request.
pub record Controller (E : Type 0) : Type 0 where
  pub watched : GoType
  pub owned : List GoType
  pub name : String
  pub reconciler : Request → Outcome × Option E

abbrev pub deployment_type : GoType
deployment_type = record { import_path = "k8s.io/api/apps/v1"; name = "Deployment" }

abbrev pub stateful_set_type : GoType
stateful_set_type = record { import_path = "k8s.io/api/apps/v1"; name = "StatefulSet" }

-- The reconciler that `main` of cmd/main.go makes of the manager.
abbrev pub new_reconciler : {Scheme E : Type 0} → Manager Scheme E → ProfilerReconciler Scheme E
new_reconciler mgr = record { client = mgr.client; scheme = mgr.scheme }

module _ {Scheme E : Type 0} (is_not_found : E → Bool) where
  -- What `SetupWithManager` builds.
  unfoldable pub controller_of : ProfilerReconciler Scheme E → Controller E
  controller_of r = record {
    watched = profiler_type;
    owned = deployment_type ∷ stateful_set_type ∷ [];
    name = "profiler";
    reconciler = reconcile is_not_found r.client;
  }

  -- `SetupWithManager`: the controller that the manager runs then.
  unfoldable pub setup_with_manager :
      (Scheme → Controller E → Option String)
      → ProfilerReconciler Scheme E
      → Manager Scheme E
      → Result String (Controller E)
  unfolding controller_of
  setup_with_manager complete r mgr = elim (complete mgr.scheme (controller_of r)) [
    | none ↦ ok (controller_of r)
    | some e ↦ err e
  ]
