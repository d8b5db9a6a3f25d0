-- ===== src/Webhook/Builder/Distinct.antt =====
-- The sidecar's environment is a map.
use pprof_operator.Prelude.{
  ◌≡◌, refl, ap, Bool, true, false, not, ◌&&◌, none, List, [], ◌∷◌, ◌++◌, String, ◌==◌, arith,
  eq_iff, contains, Bool-cases, inl, inr,
}
use pprof_operator.Api.{Profiler, auth_type_basic}
use pprof_operator.Kube.{EnvVar, Pod}
use pprof_operator.Webhook.Settings.{
  get_configured_cpu_threshold, get_configured_memory_threshold, get_configured_monitoring_period,
  get_aws_configuration,
}
use pprof_operator.Webhook.ScrapeTarget.{
  get_scrape_target_configuration, get_scrape_target_url, get_scrape_target_auth_type,
  get_scrape_target_basic_auth, build_basic_auth_env_vars, build_secret_auth_env_vars,
}
use pprof_operator.Webhook.Builder.{base_env, storage_env, debug_env, sidecar_env}
use pprof_operator.Webhook.Builder.Names.{
  last_named, last_named-append, last_named-absent, Names, Block, entries, AllKeep,
}
use pprof_operator.Webhook.Builder.Url.{auth_names, auth_part, auth_part-Names}
use pprof_operator.Webhook.Builder.Blocks.{auth_type-name, blocks, blocks-AllKeep, entries-blocks}

-- No entry has the name of a later one.
abbrev pub IsDistinct : List EnvVar → Type 0
IsDistinct [] = Unit
IsDistinct (e ∷ es) = (last_named e.name es ≡ none) × IsDistinct es

-- None of the names is among the others.
abbrev apart : List String → List String → Bool
apart [] ms = true
apart (n ∷ ns) ms = not (contains n ms) && apart ns ms

abbrev all_apart : List String → List Block → Bool
all_apart ns [] = true
all_apart ns (b ∷ bs) = apart ns b.0 && all_apart ns bs

-- Blocks of distinct entries whose names are apart.
abbrev AreApart : List Block → Type 0
AreApart [] = Unit
AreApart (b ∷ bs) = IsDistinct b.1 × (all_apart b.0 bs ≡ true) × AreApart bs

contains-eq : (k n : String) (ms : List String) → k ≡ n → contains k ms ≡ contains n ms
contains-eq k n ms h = ap (λ j. contains j ms) h

apart-contains :
    (k : String) (ns ms : List String)
    → contains k ns ≡ true
    → apart ns ms ≡ true
    → contains k ms ≡ false
apart-contains k [] ms h a = absurd (ground arith)
apart-contains k (n ∷ ns) ms h a =
    ground (arith, apart-contains k ns ms, contains-eq k n ms, eq_iff n k, eq_iff k n)

absent_later :
    (k : String) (ns : List String) (bs : List Block)
    → contains k ns ≡ true
    → AllKeep bs
    → all_apart ns bs ≡ true
    → last_named k (entries bs) ≡ none
absent_later k ns [] h keep a = refl
absent_later k ns (b ∷ bs) h (names, keep) a =
    rw
      (
        last_named-append k b.1 (entries bs),
        absent_later k ns bs h keep (ground arith),
        last_named-absent k b.0 b.1 names (apart-contains k ns b.0 h (ground arith)),
      )
      refl

append-IsDistinct :
    (ns : List String) (es rest : List EnvVar)
    → Names ns es
    → IsDistinct es
    → ((k : String) → contains k ns ≡ true → last_named k rest ≡ none)
    → IsDistinct rest
    → IsDistinct (es ++ rest)
append-IsDistinct ns [] rest names d absent r = r
append-IsDistinct ns (e ∷ es) rest (name, names) (first, d) absent r = (
  rw (last_named-append e.name es rest, absent e.name name) first,
  append-IsDistinct ns es rest names d absent r,
)

entries-IsDistinct : (bs : List Block) → AllKeep bs → AreApart bs → IsDistinct (entries bs)
entries-IsDistinct [] keep a = tt
entries-IsDistinct (b ∷ bs) (names, keep) (d, apart, later) =
    append-IsDistinct b.0 b.1 (entries bs) names d (λ k h. absent_later k b.0 bs h keep apart)
      (entries-IsDistinct bs keep later)

module _ (p : Profiler) (pod : Pod) where
  aws-IsDistinct : IsDistinct (get_aws_configuration p)
  unfolding get_aws_configuration
  aws-IsDistinct = ground arith

  storage-IsDistinct : IsDistinct (storage_env pod)
  unfolding storage_env
  storage-IsDistinct = ground arith

  debug-IsDistinct : IsDistinct (debug_env pod)
  unfolding debug_env
  debug-IsDistinct = ground arith

  url-Names : Names ("SCRAPE_URL" ∷ []) (get_scrape_target_url p pod)
  unfolding get_scrape_target_url
  url-Names = ground arith

  url-IsDistinct : IsDistinct (get_scrape_target_url p pod)
  unfolding get_scrape_target_url
  url-IsDistinct = ground arith

  basic_auth-IsDistinct :
      IsDistinct (get_scrape_target_basic_auth p pod)
      × (last_named "AUTH_TYPE" (get_scrape_target_basic_auth p pod) ≡ none)
  unfolding get_scrape_target_basic_auth build_basic_auth_env_vars build_secret_auth_env_vars
  basic_auth-IsDistinct = (ground arith, ground arith)

  auth_part-IsDistinct : IsDistinct (auth_part p pod)
  auth_part-IsDistinct =
      let t = get_scrape_target_auth_type p pod in
      elim (Bool-cases (t.value == "")) [
        | inl e ↦ rw e tt
        | inr e ↦ elim (Bool-cases (t.value == auth_type_basic)) [
          | inl b ↦
              rw (e, b)
                (rw (auth_type-name p pod) (basic_auth-IsDistinct.1), basic_auth-IsDistinct.0)
          | inr b ↦ rw (e, b) (refl, tt)
        ]
      ]

  scrape-IsDistinct : IsDistinct (get_scrape_target_configuration p pod)
  unfolding get_scrape_target_configuration
  scrape-IsDistinct =
      append-IsDistinct ("SCRAPE_URL" ∷ []) (get_scrape_target_url p pod) (auth_part p pod)
        url-Names url-IsDistinct
        (λ k h.
          last_named-absent k auth_names (auth_part p pod) (auth_part-Names p pod)
            (apart-contains k ("SCRAPE_URL" ∷ []) auth_names h refl))
        auth_part-IsDistinct

  cpu-IsDistinct : IsDistinct (get_configured_cpu_threshold p)
  unfolding get_configured_cpu_threshold
  cpu-IsDistinct = ground arith

  memory-IsDistinct : IsDistinct (get_configured_memory_threshold p)
  unfolding get_configured_memory_threshold
  memory-IsDistinct = ground arith

  period-IsDistinct : IsDistinct (get_configured_monitoring_period p)
  unfolding get_configured_monitoring_period
  period-IsDistinct = ground arith

  blocks-AreApart : (target : String) → AreApart (blocks p pod target)
  unfolding base_env
  blocks-AreApart target = (
    (refl, (refl, (refl, tt))),
    refl,
    (
      cpu-IsDistinct,
      refl,
      (
        memory-IsDistinct,
        refl,
        (
          period-IsDistinct,
          refl,
          (
            aws-IsDistinct,
            refl,
            (
              scrape-IsDistinct,
              refl,
              (storage-IsDistinct, refl, (debug-IsDistinct, refl, ((refl, tt), refl, tt))),
            ),
          ),
        ),
      ),
    ),
  )

  -- No two entries of the environment that the operator writes for the sidecar have one name,
  -- whatever the CRD and the annotations say.
  pub sidecar_env-IsDistinct : (target : String) → IsDistinct (sidecar_env p pod target)
  sidecar_env-IsDistinct target = rw (← entries-blocks p pod target) (
      entries-IsDistinct (blocks p pod target) (blocks-AllKeep p pod target)
        (blocks-AreApart target))
