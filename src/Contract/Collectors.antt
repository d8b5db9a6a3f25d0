-- ===== src/Contract/Collectors.antt =====
-- The registration of both programs' metrics, which comes before their `main`, and the server of the
-- sidecar's.
use pprof_operator.Prelude.{
  ◌≡◌, refl, Bool, true, false, not, none, some, List, [], ◌∷◌, String, arith, contains, ◌||◌, ◌&&◌,
  ◌==◌, ◌∙◌, if◌then◌else◌,
}
use pprof_operator.Prometheus.{
  Collector, Registry, names, HasNone, must_register-IsRegistered, new_registry-IsRegistered,
}
use pprof_operator.Webhook.Collectors as Operator
use pprof_operator.Webhook.Collectors.{operator_collectors}
use pprof_operator.Sidecar.Collectors as Sidecar
use pprof_operator.Sidecar.Collectors.{sidecar_collectors}
use pprof_operator.Http.{Mux, Listener, panics, serves, returns, answered_by}
use pprof_operator.Sidecar.Metrics.Server.{start_metrics_server}

-- The operator's `init` does not panic on a registry that has none of its names, and adds exactly
-- these; the sidecar's never panics, and its registry has exactly its names.
pub init-IsRegistered :
    (r : Registry) (s : r.State)
    → HasNone r s (names operator_collectors)
    → ((after : r.State) × (Operator.init r s ≡ some after)
        × ((n : String) → r.has after n ≡ (contains n (names operator_collectors) || r.has s n)))
      × ((after : r.State) × (Sidecar.init r ≡ some after)
          × ((n : String) → r.has after n ≡ contains n (names sidecar_collectors)))
unfolding Operator.init Sidecar.init
init-IsRegistered r s h =
    let done = must_register-IsRegistered r operator_collectors s refl h in
    ((done.after, done.registered, done.known), new_registry-IsRegistered r sidecar_collectors refl)

-- The names that the READMEs give the metrics: those of the operator that README.md lists, those
-- that it has besides, and those of the sidecar without a label and with one.
abbrev pub operator_names : List String
operator_names =
    "pprof_operator_sidecars_attached_total" ∷ "pprof_operator_sidecars_removed_total"
    ∷ "pprof_operator_active_sidecars" ∷ []

abbrev pub more_operator_names : List String
more_operator_names =
    "pprof_operator_profiles_generated_total" ∷ "pprof_operator_profiles_uploaded_total"
    ∷ "pprof_operator_profile_upload_errors_total" ∷ "pprof_operator_threshold_exceeded_total" ∷ []

abbrev pub plain_names : List String
plain_names =
    "pprof_sidecar_profiles_uploaded_total" ∷ "pprof_sidecar_profile_upload_errors_total" ∷ []

abbrev pub labelled_names : List String
labelled_names =
    "pprof_sidecar_profiles_generated_total" ∷ "pprof_sidecar_threshold_exceeded_total"
    ∷ "pprof_sidecar_resource_usage_percent" ∷ []

abbrev has_labels : List String → Bool
has_labels [] = false
has_labels (l ∷ ls) = true

-- What a page shows of the collectors: one without labels always, a vector, which has labels, from
-- the time that one of its children is first used.
abbrev pub exposes : List Collector → (String → Bool) → String → Bool
exposes [] in_use n = false
exposes (c ∷ cs) in_use n =
    (c.name == n && (not (has_labels c.labels) || in_use n)) || exposes cs in_use n

-- `promhttp`: what a handler shows while some of the vectors are in use, and that the handler of a
-- new registry that has taken collectors shows these.
pub record Promhttp (r : Registry) : Type 1 where
  pub Handler : Type 0
  pub shows : Handler → (String → Bool) → String → Bool
  pub handler_for : r.State → Handler
  pub handler_for-shows :
      (cs : List Collector) (s : r.State)
      → r.must_register cs r.new_registry ≡ some s
      → (in_use : String → Bool) (n : String) → shows (handler_for s) in_use n ≡ exposes cs in_use n

module _ (r : Registry) (p : Promhttp r) where
  -- A reader of the path is shown the names without labels, those with labels that are in use, and
  -- no other, and of any other path nothing.
  pub record ShowsMetrics (mux : Mux p.Handler) : Type 0 where
    pub page : p.Handler
    pub answered :
        (path : String) → answered_by mux path ≡ (if "/metrics" == path then some page else none)
    pub shown :
        (in_use : String → Bool) (n : String)
        → p.shows page in_use n
          ≡ (contains n plain_names || (in_use n && contains n labelled_names))

  -- What the sidecar's `init` leaves, as its `main` serves it.
  pub record IsServed (after : r.State) : Type 0 where
    pub mux : Mux p.Handler
    pub metrics : ShowsMetrics mux
    pub listening :
        (listen : Listener) (addr : String)
        → listen addr ≡ none
        → start_metrics_server p.handler_for after listen addr [] ≡ serves addr mux
    pub failing :
        (listen : Listener) (addr e : String)
        → listen addr ≡ some e
        → start_metrics_server p.handler_for after listen addr [] ≡ returns e
    pub again :
        (listen : Listener) (addr : String)
        → start_metrics_server p.handler_for after listen addr mux ≡ panics

  pub init-IsServed_sidecar : (after : r.State) × (Sidecar.init r ≡ some after) × IsServed after
  unfolding Sidecar.init start_metrics_server sidecar_collectors
  init-IsServed_sidecar =
      let (after, done, known) = new_registry-IsRegistered r sidecar_collectors refl in
      (
        after,
        done,
        record {
          mux = ("/metrics", p.handler_for after) ∷ [];
          metrics = record {
            page = p.handler_for after;
            answered = λ path. ground arith;
            shown = λ in_use n.
                p.handler_for-shows sidecar_collectors after done in_use n ∙ ground arith;
          };
          listening = λ listen addr free. ground (arith, free);
          failing = λ listen addr e failed. ground (arith, failed);
          again = λ listen addr. refl;
        },
      )

  -- The operator's `init` does not panic on a registry that has none of its names, and adds exactly
  -- the three metrics that README.md lists and four more. The sidecar's never panics. Where its
  -- address can be listened on, its server shows the readers of "/metrics" exactly the metrics that
  -- README.md lists, those with a label once they are in use, and answers no other path; where it
  -- cannot, the call returns the listener's error. A second start in the same process would panic.
  pub init-IsServed :
      (s : r.State)
      → HasNone r s (names operator_collectors)
      → ((after : r.State) × (Operator.init r s ≡ some after)
          × ((n : String)
              → r.has after n
                ≡ (contains n operator_names || (contains n more_operator_names || r.has s n))))
        × ((after : r.State) × (Sidecar.init r ≡ some after) × IsServed after)
  unfolding operator_collectors
  init-IsServed s h =
      let (after, done, known) = (init-IsRegistered r s h).0 in
      ((after, done, λ n. known n ∙ ground arith), init-IsServed_sidecar)
