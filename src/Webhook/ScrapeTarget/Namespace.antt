-- ===== src/Webhook/ScrapeTarget/Namespace.antt =====
-- The namespace that the CRD's reference to a secret may name.
use pprof_operator.Prelude.{◌≡◌, refl, Option, none, some, String, ap, Option-cases, inl, inr}
use pprof_operator.Api.{Profiler, ScrapTarget, Auth, BasicAuth, SecretRef}
use pprof_operator.Kube.{Pod}
use pprof_operator.Webhook.ScrapeTarget.{
  get_scrape_target_basic_auth, get_crd_auth, basic_auth_vars, get_annotation_auth,
  get_secret_annotation_auth, crd_secret_ref, crd_auth_of, basic_auth_of,
}
use pprof_operator.Webhook.ScrapeTarget.Auth.{
  env_vars, first_some, sources, get_scrape_target_basic_auth-eq-first,
}

abbrev map_some : {A : Type 0} → (A → A) → Option A → Option A
map_some f none = none
map_some f (some a) = some (f a)

abbrev ref_in : String → SecretRef → SecretRef
ref_in ns r = record r { namespace = ns }

abbrev basic_in : String → BasicAuth → BasicAuth
basic_in ns b = record b { secret_ref = map_some (ref_in ns) b.secret_ref }

abbrev auth_in : String → Auth → Auth
auth_in ns a = record a { basic_auth = map_some (basic_in ns) a.basic_auth }

abbrev target_in : String → ScrapTarget → ScrapTarget
target_in ns t = record t { auth = map_some (auth_in ns) t.auth }

-- The CRD with another namespace in its reference to a secret, if it has one.
abbrev pub in_namespace : String → Profiler → Profiler
in_namespace ns p = record p {
  spec = record p.spec { scrap_target = map_some (target_in ns) p.spec.scrap_target };
}

ref_lem :
    (ns : String) (o : Option SecretRef)
    → crd_secret_ref (map_some (ref_in ns) o) ≡ crd_secret_ref o
ref_lem ns none = refl
ref_lem ns (some r) = refl

basic_lem :
    (ns : String) (o : Option BasicAuth) → crd_auth_of (map_some (basic_in ns) o) ≡ crd_auth_of o
basic_lem ns none = refl
basic_lem ns (some b) = rw (ref_lem ns b.secret_ref) refl

-- The chain of nil checks is passed by the same parts.
chain_lem :
    (ns : String) (o : Option ScrapTarget)
    → basic_auth_of (map_some (target_in ns) o) ≡ map_some (basic_in ns) (basic_auth_of o)
chain_lem ns none = refl
chain_lem ns (some t) = elim (Option-cases t.auth) [
  | inl nothing ↦ rw nothing refl
  | inr (a, given) ↦ rw given refl
]

get_crd_auth-in_namespace :
    (ns : String) (p : Profiler) → get_crd_auth (in_namespace ns p) ≡ get_crd_auth p
unfolding get_crd_auth
get_crd_auth-in_namespace ns p =
    rw (chain_lem ns p.spec.scrap_target) (basic_lem ns (basic_auth_of p.spec.scrap_target))

-- The variables are those of the first source that is complete: the annotations' user and password,
-- the annotations' secret, the CRD's user and password, the CRD's secret. With none of them there
-- are no variables. The namespace that the CRD's reference to a secret may name has no part in
-- them: the secret is looked for in the pod's own namespace.
pub get_scrape_target_basic_auth-sources :
    (p : Profiler) (pod : Pod)
    → (get_scrape_target_basic_auth p pod ≡ env_vars (first_some (sources p pod)))
      × ((ns : String)
          → get_scrape_target_basic_auth (in_namespace ns p) pod
            ≡ get_scrape_target_basic_auth p pod)
unfolding get_scrape_target_basic_auth
get_scrape_target_basic_auth-sources p pod = (
  get_scrape_target_basic_auth-eq-first p pod,
  λ ns.
      ap (basic_auth_vars (get_annotation_auth pod) (get_secret_annotation_auth pod))
        (get_crd_auth-in_namespace ns p),
)
