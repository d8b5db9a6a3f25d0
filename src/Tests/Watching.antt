-- ===== src/Tests/Watching.antt =====
-- A scheme that is the list of its types with their kinds.
use pprof_operator.Prelude.{
  ◌≡◌, ◌≢◌, ◌↔◌, refl, true, false, ◌&&◌, ◌||◌, ◌==◌, Bool, Option, none, some, List, [], ◌∷◌, ◌++◌,
  String, Result, ok, err, All, arith, if◌then◌else◌, ◌*◌, eq_iff,
}
use pprof_operator.Api.{Profiler, ProfilerList}
use pprof_operator.Api.Scheme.{
  GoType, GroupVersion, Kind, Machinery, profiler_type, profiler_list_type, same_type, has_type,
  meta_package, group_version,
}
use pprof_operator.Controller.{Request, minute}
use pprof_operator.Controller.Setup.{Controller, deployment_type, stateful_set_type}
use pprof_operator.Manager.Init as Operator
use pprof_operator.Webhook.Registration.{Decoder, Webhook}
use pprof_operator.Contract.Watching.{
  our_types, kind_in_group, IsClientGo, Runtime, set_up, set_up_webhook, init-serves,
}
use pprof_operator.Tests.Data.{profiler}

abbrev Listed : Type 0
Listed = List (GoType × Kind)

abbrev kind_in : Listed → GoType → Option Kind
kind_in [] t = none
kind_in ((u, k) ∷ s) t = if same_type u t then some k else kind_in s t

abbrev version_in : Listed → GroupVersion → Bool
version_in [] gv = false
version_in ((u, k) ∷ s) gv =
    (k.group_version.group == gv.group && k.group_version.version == gv.version) || version_in s gv

record Collected : Type 0 where
  version : GroupVersion
  types : List GoType

abbrev entries : GroupVersion → List GoType → Listed → Listed
entries gv [] s = s
entries gv (t ∷ ts) s = (t, record { group_version = gv; kind = t.name }) ∷ entries gv ts s

kind_in-entries :
    (gv : GroupVersion) (ts : List GoType) (s : Listed) (t : GoType)
    → kind_in (entries gv ts s) t
      ≡ (if has_type t ts then some (record { group_version = gv; kind = t.name }) else kind_in s t)
kind_in-entries gv [] s t = refl
kind_in-entries gv (u ∷ ts) s t =
    ground
      (arith, eq_iff u.name t.name, eq_iff u.import_path t.import_path, kind_in-entries gv ts s t)

abbrev kubernetes : Listed
kubernetes =
    entries (record { group = "apps"; version = "v1" }) (deployment_type ∷ stateful_set_type ∷ [])
      []

abbrev machinery : Machinery
machinery = record {
  Scheme = Listed;
  Builder = Collected;
  kind_of = kind_in;
  has_version = version_in;
  new_scheme = [];
  new_builder = λ gv. record { version = gv; types = [] };
  register = λ ts b. record b { types = b.types ++ ts };
  add_to_scheme = λ b s. ok (entries b.version b.types s);
  client_go = λ s. ok (kubernetes ++ s);
  add_to_scheme-adds =
      λ gv ts s d free none_of. (entries gv ts s, refl, λ t other. kind_in-entries gv ts s t);
}

kubernetes-IsClientGo : IsClientGo machinery kubernetes
unfolding group_version
kubernetes-IsClientGo = record {
  added = refl;
  no_version = refl;
  no_types = (refl, (refl, tt));
  deployment = record {
    group_version = record { group = "apps"; version = "v1" };
    kind = "Deployment";
  };
  deployment_known = refl;
  stateful_set = record {
    group_version = record { group = "apps"; version = "v1" };
    kind = "StatefulSet";
  };
  stateful_set_known = refl;
}

abbrev is_some : {A : Type 0} → Option A → Bool
is_some none = false
is_some (some a) = true

abbrev all_known : Listed → List GoType → Bool
all_known s [] = true
all_known s (t ∷ ts) = is_some (kind_in s t) && all_known s ts

abbrev unknown : String
unknown = "no kind is registered for the type"

-- No other controller is for Deployments.
abbrev name_taken : Controller String → Option String
name_taken c = if c.watched.name == "Deployment" then some "name taken" else none

abbrev complete : Listed → Controller String → Option String
complete s c = if all_known s (c.watched ∷ c.owned) then name_taken c else some unknown

is_some-known : {A : Type 0} (o : Option A) → o ≢ none → is_some o ≡ true
is_some-known none h = absurd (h refl)
is_some-known (some a) h = refl

all_known-All :
    (s : Listed) (ts : List GoType) → All (λ t. kind_in s t ≢ none) ts → all_known s ts ≡ true
all_known-All s [] h = refl
all_known-All s (t ∷ ts) (k, h) = rw (is_some-known (kind_in s t) k) (all_known-All s ts h)

complete-known :
    (s : Listed) (c : Controller String)
    → All (λ t. kind_in s t ≢ none) (c.watched ∷ c.owned)
    → complete s c ≡ name_taken c
complete-known s c h = rw (all_known-All s (c.watched ∷ c.owned) h) refl

complete-unknown :
    (s : Listed) (c : Controller String) → kind_in s c.watched ≡ none → complete s c ≢ none
complete-unknown s c h e = cc (rw h at e)

-- The API server holds one profiler.
abbrev stored : Kind → Request → Result String Profiler
stored k req =
    if req.name == "default" && k.kind == "Profiler" then ok profiler else err "not found"

abbrev stored_list : Kind → String → Option ProfilerList
stored_list k namespace =
    if k.kind == "ProfilerList" then some (record { items = profiler ∷ [] }) else none

abbrev read : {A : Type 0} → Option Kind → (Kind → A) → A → A
read none f a = a
read (some k) f a = f k

abbrev runtime : Runtime machinery String
runtime = record {
  stored = stored;
  is_not_found = λ e. e == "not found";
  get = λ s req. read (kind_in s profiler_type) (λ k. stored k req) (err unknown);
  get_known = λ s k req h. rw h refl;
  stored_list = stored_list;
  list = λ s namespace. read (kind_in s profiler_list_type) (λ k. stored_list k namespace) none;
  list_known = λ s k namespace h. rw h refl;
  complete = complete;
  other_failure = name_taken;
  complete_known = complete-known;
  complete_unknown = complete-unknown;
}

abbrev new_decoder : Listed → Decoder
new_decoder s raw = none

init-serves_example :
    (s : Listed) × (Operator.init machinery ≡ ok s)
    × ((t : GoType)
        → t.import_path ≢ meta_package
        → kind_in s t
          ≡ (if has_type t our_types then some (kind_in_group t) else kind_in kubernetes t))
    × (c : Controller String) × ((set_up machinery runtime s ≡ ok c) ↔ (name_taken c ≡ none))
    × ((req : Request)
        → ((c.reconciler req).0.requeue_after ≡ minute * 5
            ↔ ((p : Profiler) × (stored (kind_in_group profiler_type) req ≡ ok p)))
          × ((e : String)
              → ((c.reconciler req).1 ≡ some e ↔ (
                  (stored (kind_in_group profiler_type) req ≡ err e)
                  × ((e == "not found") ≡ false)))))
    × (w : Webhook) × (set_up_webhook machinery runtime new_decoder s ≡ ok w)
    × ((namespace : String)
        → w.handler.client namespace ≡ stored_list (kind_in_group profiler_list_type) namespace)
    × ((d : Controller String) → set_up machinery runtime kubernetes ≢ ok d)
init-serves_example = init-serves machinery runtime kubernetes kubernetes-IsClientGo new_decoder
