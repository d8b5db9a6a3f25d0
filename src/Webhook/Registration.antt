-- ===== src/Webhook/Registration.antt =====
-- How the pod webhook comes to serve: `PodMutator`, `InjectDecoder` and
-- `SetupPodWebhookWithManager` of internal/webhook/v1/pod_webhook.go. The manager gives its client
-- and its scheme, and takes the webhook; `admission.NewDecoder` makes the decoder of a scheme.
use pprof_operator.Prelude.{
  ◌≡◌, ◌≢◌, refl, Option, none, some, List, [], ◌∷◌, lookup, String, Result, ok, err, ◌>>=◌, arith,
  Option-cases, Result-cases, inl, inr,
}
use pprof_operator.Api.{Profiler, ProfilerList}
use pprof_operator.Kube.{Pod}
use pprof_operator.Webhook.Annotations.{annotation_profiler_name}
use pprof_operator.Webhook.Builder.{build_profiler_sidecar}
use pprof_operator.Webhook.Mutator.{
  OperatorMetrics, decoder_not_initialized, errored, Request, Services, handle, handle_pod,
  handle_enabled, attach, respond, choose, find_profiler, remove_sidecar_if_exists, without_sidecar,
}

abbrev pub Decoder : Type 0
Decoder = String → Option Pod

-- The client is known by the one call that the mutator makes of it.
pub record PodMutator : Type 0 where
  pub client : String → Option ProfilerList
  pub decoder : Option Decoder

-- A `ctrl.Manager`, by what the function asks of it.
pub record Manager (Scheme : Type 0) : Type 0 where
  pub client : String → Option ProfilerList
  pub scheme : Scheme

-- What is registered with the webhook server.
pub record Webhook : Type 0 where
  pub path : String
  pub handler : PodMutator

-- The error that the setup would wrap.
pub data SetupError : Type 0 where
  inject_failed : String → SetupError

-- `InjectDecoder` never fails.
unfoldable pub inject_decoder : Decoder → PodMutator → Result String PodMutator
inject_decoder d m = ok (record m { decoder = some d })

abbrev wrapped : Result String PodMutator → Result SetupError PodMutator
wrapped (err e) = err (inject_failed e)
wrapped (ok m) = ok m

abbrev pub new_mutator : {Scheme : Type 0} → Manager Scheme → PodMutator
new_mutator mgr = record { client = mgr.client; decoder = none }

-- The registration that the manager's server is asked for.
unfoldable pub setup_pod_webhook :
    {Scheme : Type 0} → (Scheme → Decoder) → Manager Scheme → Result SetupError Webhook
unfolding inject_decoder
setup_pod_webhook new_decoder mgr = do
  m ← wrapped (inject_decoder (new_decoder mgr.scheme) (new_mutator mgr))
  ok (record { path = "/mutate-v1-pod"; handler = m })

-- A mutator handles requests with `json.Marshal` beside it.
abbrev pub services_of : (Pod → Option String) → PodMutator → Services
services_of marshal m = record { decoder = m.decoder; list = m.client; marshal = marshal }

respond-ne :
    (s : Services) (req : Request) (pod : Pod)
    → respond s req pod ≢ errored 500 decoder_not_initialized
unfolding respond
respond-ne s req pod e = ground arith

attach-ne :
    (s : Services) (pod : Pod) (p : Profiler) (req : Request) (m : OperatorMetrics)
    → (attach s pod p req m).1 ≢ errored 500 decoder_not_initialized
unfolding attach
attach-ne s pod p req m e = elim (Result-cases (build_profiler_sidecar p pod)) [
  | inl (c, built) ↦ respond-ne s req _ (rw (built, attach) at e)
  | inr (x, failed) ↦ cc (rw (failed, attach) at e)
]

choose-ne :
    (s : Services) (pod : Pod) (name : String) (ps : List Profiler) (req : Request)
    (m : OperatorMetrics)
    → (choose s pod name ps req m).1 ≢ errored 500 decoder_not_initialized
choose-ne s pod name [] req m e = cc
choose-ne s pod name (p ∷ ps) req m e = elim (Option-cases (find_profiler name (p ∷ ps))) [
  | inl nothing ↦ absurd (ground arith)
  | inr (q, found) ↦ attach-ne s pod q req m (ground arith)
]

handle_enabled-ne :
    (s : Services) (pod : Pod) (req : Request) (m : OperatorMetrics)
    → (handle_enabled s pod req m).1 ≢ errored 500 decoder_not_initialized
unfolding handle_enabled
handle_enabled-ne s pod req m e =
    elim (Option-cases (lookup annotation_profiler_name pod.annotations)) [
      | inl unnamed ↦ absurd (ground arith)
      | inr (name, named) ↦ elim (Option-cases (s.list req.namespace)) [
        | inl failed ↦ absurd (ground arith)
        | inr (l, listed) ↦ choose-ne s pod name l.items req m (ground arith)
      ]
    ]

handle_pod-ne :
    (s : Services) (pod : Pod) (req : Request) (m : OperatorMetrics)
    → (handle_pod s pod req m).1 ≢ errored 500 decoder_not_initialized
unfolding handle_pod remove_sidecar_if_exists
handle_pod-ne s pod req m e = ground (
  arith,
  handle_enabled-ne s pod req m,
  respond-ne s req (record pod { containers = without_sidecar pod.containers }),
)

served-ne :
    (s : Services) (req : Request) (m : OperatorMetrics) {d : Decoder}
    → s.decoder ≡ some d
    → (handle s req m).1 ≢ errored 500 decoder_not_initialized
unfolding handle
served-ne s req m {d} there e = elim (Option-cases (d req.raw)) [
  | inl refused ↦ absurd (ground arith)
  | inr (pod, decoded) ↦ handle_pod-ne s pod req m (ground arith)
]

module _ {Scheme : Type 0} (new_decoder : Scheme → Decoder) (mgr : Manager Scheme)
    (marshal : Pod → Option String) where
  -- The setup always succeeds, and what it registers, at the path of the webhook, never refuses a
  -- request for want of a decoder, whatever the decoder, the API server and `json.Marshal` answer.
  -- A mutator that was not set up refuses every request so, and moves no metric.
  pub setup_pod_webhook-serves :
      (w : Webhook) × (setup_pod_webhook new_decoder mgr ≡ ok w)
      × (w.path ≡ "/mutate-v1-pod")
      × ((req : Request) (m : OperatorMetrics)
          → (handle (services_of marshal w.handler) req m).1 ≢ errored 500 decoder_not_initialized)
      × ((req : Request) (m : OperatorMetrics)
          → handle (services_of marshal (new_mutator mgr)) req m
            ≡ (m, errored 500 decoder_not_initialized))
  unfolding setup_pod_webhook handle
  setup_pod_webhook-serves =
      let w : Webhook = record {
        path = "/mutate-v1-pod";
        handler = record { client = mgr.client; decoder = some (new_decoder mgr.scheme) };
      } in
      (
        w,
        refl,
        refl,
        λ req m. served-ne (services_of marshal w.handler) req m {d = new_decoder mgr.scheme} refl,
        λ req m. refl,
      )
