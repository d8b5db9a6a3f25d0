-- ===== src/Contract/Watching.antt =====
-- The scheme that the operator's `init` fills, and what the controller and the webhook get of it:
-- the manager's client finds the kind of an object in the scheme, and so does the controller's
-- builder.
use pprof_operator.Prelude.{
  ◌≡◌, ◌≢◌, ◌↔◌, refl, Bool, false, Option, none, some, List, [], ◌∷◌, String, Result, ok, err, All,
  arith, eq_iff, ◌==◌, if◌then◌else◌, ◌*◌, Option-cases, inl, inr,
}
use pprof_operator.Api.{Profiler, ProfilerList}
use pprof_operator.Api.Scheme.{
  GoType, Kind, Machinery, group_version, profiler_type, profiler_list_type, has_type, meta_package,
  add_to_scheme,
}
use pprof_operator.Controller.{Request, minute}
use pprof_operator.Controller.Requeue.{reconcile_iff}
use pprof_operator.Controller.Setup.{
  Manager, Controller, deployment_type, stateful_set_type, new_reconciler, controller_of,
  setup_with_manager,
}
use pprof_operator.Webhook.Registration.{Decoder, Webhook, SetupError, setup_pod_webhook}
use pprof_operator.Manager.Init as Operator

abbrev pub our_types : List GoType
our_types = profiler_type ∷ profiler_list_type ∷ []

abbrev pub kind_in_group : GoType → Kind
kind_in_group t = record {
  group_version = record { group = "observability.pprof-operator.dev"; version = "v1" };
  kind = t.name;
}

unlike : (a b : String) → (a == b) ≡ false → a ≢ b
unlike a b h = λ e. absurd (ground (arith, eq_iff a b))

-- What client-go registers in a new scheme: the Deployments and StatefulSets of Kubernetes, and
-- nothing of the operator's.
pub record IsClientGo (m : Machinery) (base : m.Scheme) : Type 0 where
  pub added : m.client_go m.new_scheme ≡ ok base
  pub no_version : m.has_version base group_version ≡ false
  pub no_types : All (λ t. m.kind_of base t ≡ none) our_types
  pub deployment : Kind
  pub deployment_known : m.kind_of base deployment_type ≡ some deployment
  pub stateful_set : Kind
  pub stateful_set_known : m.kind_of base stateful_set_type ≡ some stateful_set

-- controller-runtime over a scheme. Its client asks the API server for the objects of the kind that
-- the scheme gives the type. `Complete` refuses a controller that is for a type with no kind. Where all
-- its types have kinds, it fails for other reasons alone, `other_failure`, such as a name that is
-- taken.
pub record Runtime (m : Machinery) (E : Type 0) : Type 0 where
  pub stored : Kind → Request → Result E Profiler
  pub is_not_found : E → Bool
  pub get : m.Scheme → Request → Result E Profiler
  pub get_known :
      (s : m.Scheme) (k : Kind) (req : Request)
      → m.kind_of s profiler_type ≡ some k
      → get s req ≡ stored k req
  pub stored_list : Kind → String → Option ProfilerList
  pub list : m.Scheme → String → Option ProfilerList
  pub list_known :
      (s : m.Scheme) (k : Kind) (namespace : String)
      → m.kind_of s profiler_list_type ≡ some k
      → list s namespace ≡ stored_list k namespace
  pub complete : m.Scheme → Controller E → Option String
  pub other_failure : Controller E → Option String
  pub complete_known :
      (s : m.Scheme) (c : Controller E)
      → All (λ t. m.kind_of s t ≢ none) (c.watched ∷ c.owned)
      → complete s c ≡ other_failure c
  pub complete_unknown :
      (s : m.Scheme) (c : Controller E) → m.kind_of s c.watched ≡ none → complete s c ≢ none

module _ (m : Machinery) {E : Type 0} (rt : Runtime m E) where
  abbrev pub manager_of : m.Scheme → Manager m.Scheme E
  manager_of s = record { client = rt.get s; scheme = s }

  -- The controller's setup as `main` calls it.
  abbrev pub set_up : m.Scheme → Result String (Controller E)
  set_up s =
      setup_with_manager rt.is_not_found rt.complete (new_reconciler (manager_of s)) (manager_of s)

  -- The webhook's setup as `main` calls it.
  abbrev pub set_up_webhook : (m.Scheme → Decoder) → m.Scheme → Result SetupError Webhook
  set_up_webhook new_decoder s =
      setup_pod_webhook new_decoder (record { client = rt.list s; scheme = s })

  -- What `init` leaves: the operator's types under its group and version, and all else as before.
  record Filled (base s : m.Scheme) : Type 0 where
    result : Operator.init m ≡ ok s
    kinds :
        (t : GoType)
        → t.import_path ≢ meta_package
        → m.kind_of s t
          ≡ (if has_type t our_types then some (kind_in_group t) else m.kind_of base t)

  module _ (base : m.Scheme) (std : IsClientGo m base) where
    init-Filled : (s : m.Scheme) × Filled base s
    unfolding Operator.init add_to_scheme group_version
    init-Filled =
        let (s, added, kinds) =
          m.add_to_scheme-adds group_version our_types base refl std.no_version std.no_types in
        (s, record { result = rw std.added (rw added refl); kinds = kinds })

    module _ (s : m.Scheme) (full : Filled base s) where
      profiler_known : m.kind_of s profiler_type ≡ some (kind_in_group profiler_type)
      profiler_known = full.kinds profiler_type (unlike _ meta_package refl)

      completed :
          let c = controller_of rt.is_not_found (new_reconciler (manager_of s)) in
          rt.complete s c ≡ rt.other_failure c
      unfolding controller_of
      completed = rt.complete_known s _ (
        λ e. cc (profiler_known),
        (
          λ e. cc (full.kinds deployment_type (unlike _ meta_package refl), std.deployment_known),
          (
            λ e.
                cc (
                  full.kinds stateful_set_type (unlike _ meta_package refl),
                  std.stateful_set_known,
                ),
            tt,
          ),
        ),
      )

      set_up_iff :
          let c = controller_of rt.is_not_found (new_reconciler (manager_of s)) in
          (set_up s ≡ ok c) ↔ (rt.other_failure c ≡ none)
      unfolding setup_with_manager controller_of
      set_up_iff = ground (arith, completed)

    refused : (c : Controller E) → set_up base ≢ ok c
    unfolding setup_with_manager controller_of
    refused c e =
        elim (Option-cases
          (rt.complete base (controller_of rt.is_not_found (new_reconciler (manager_of base))))) [
            | inl taken ↦ absurd (rt.complete_unknown base _ std.no_types.0 taken)
            | inr (why, failed) ↦ ground arith
          ]

    -- Where client-go registers its own types alone: `init` does not panic, and its scheme gives
    -- the operator's types their kinds in the operator's group and version, and every other type,
    -- but those of the package meta/v1, the kind that client-go gave it. With a manager of that scheme the controller is set
    -- up exactly if controller-runtime has no other reason to refuse it; it
    -- asks to be repeated after five minutes exactly if the API server holds the Profiler, and
    -- returns an error exactly if the API server answers with it and it is not "not found". The
    -- webhook is set up and lists the profiler lists that the API server holds. With client-go's
    -- scheme the setup of the controller fails.
    pub init-serves :
        (new_decoder : m.Scheme → Decoder)
        → (s : m.Scheme) × (Operator.init m ≡ ok s)
          × ((t : GoType)
              → t.import_path ≢ meta_package
              → m.kind_of s t
                ≡ (if has_type t our_types then some (kind_in_group t) else m.kind_of base t))
          × (c : Controller E) × ((set_up s ≡ ok c) ↔ (rt.other_failure c ≡ none))
          × ((req : Request)
              → ((c.reconciler req).0.requeue_after ≡ minute * 5
                  ↔ ((p : Profiler) × (rt.stored (kind_in_group profiler_type) req ≡ ok p)))
                × ((e : E)
                    → ((c.reconciler req).1 ≡ some e ↔ (
                        (rt.stored (kind_in_group profiler_type) req ≡ err e)
                        × (rt.is_not_found e ≡ false)))))
          × (w : Webhook) × (set_up_webhook new_decoder s ≡ ok w)
          × ((namespace : String)
              → w.handler.client namespace
                ≡ rt.stored_list (kind_in_group profiler_list_type) namespace)
          × ((d : Controller E) → set_up base ≢ ok d)
    unfolding setup_pod_webhook controller_of
    init-serves new_decoder =
        let (s, full) = init-Filled in
        (
          s,
          full.result,
          full.kinds,
          controller_of rt.is_not_found (new_reconciler (manager_of s)),
          set_up_iff s full,
          λ req.
              rw (← rt.get_known s _ req (profiler_known s full))
                (reconcile_iff rt.is_not_found (rt.get s) req),
          record {
            path = "/mutate-v1-pod";
            handler = record { client = rt.list s; decoder = some (new_decoder s) };
          },
          refl,
          λ namespace.
              rt.list_known s _ namespace
                (full.kinds profiler_list_type (unlike _ meta_package refl)),
          refused,
        )
