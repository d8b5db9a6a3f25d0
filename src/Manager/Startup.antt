-- ===== src/Manager/Startup.antt =====
-- The order in which the operator starts, and what it takes to get there.
use pprof_operator.Prelude.{
  ◌≡◌, refl, ap, ◌↔◌, Bool, true, false, ◌||◌, Option, none, some, List, [], ◌∷◌, ◌++◌, arith, All,
  Bool-cases, inl, inr,
}
use pprof_operator.Manager.{
  Flags, CertWatcher, Step, new_webhook_cert_watcher, new_metrics_cert_watcher, get_config,
  new_manager, setup_controller, setup_pod_webhook, add_metrics_cert_watcher,
  add_webhook_cert_watcher, add_healthz_check, add_readyz_check, start, Framework, Outcome, failed,
  attempt, finished, webhook_cert_watcher, metrics_cert_watcher, options, main,
}

abbrev for_watcher : (CertWatcher → Step) → Option CertWatcher → List Step
for_watcher step none = []
for_watcher step (some w) = step w ∷ []

-- All that is done before the manager is started, in order.
abbrev pub preparations : Flags → List Step
preparations f =
    for_watcher new_webhook_cert_watcher (webhook_cert_watcher f)
    ++ (for_watcher new_metrics_cert_watcher (metrics_cert_watcher f)
        ++ (get_config
            ∷ new_manager (options f)
            ∷ setup_controller
            ∷ setup_pod_webhook
            ∷ (for_watcher add_metrics_cert_watcher (metrics_cert_watcher f)
                ++ (for_watcher add_webhook_cert_watcher (webhook_cert_watcher f)
                    ++ (add_healthz_check ∷ add_readyz_check ∷ [])))))

-- A list of steps up to the first that fails, this one included.
abbrev pub carry_out : Framework → List Step → Outcome
carry_out fw [] = finished
carry_out fw (s ∷ ss) = attempt fw s (carry_out fw ss)

main-eq-carry_out :
    (fw : Framework) (f : Flags) → main fw f ≡ carry_out fw (preparations f ++ (start ∷ []))
unfolding main
main-eq-carry_out fw f = ground arith

abbrev is_start : Step → Bool
is_start start = true
is_start _ = false

abbrev pub has_start : List Step → Bool
has_start [] = false
has_start (s ∷ ss) = is_start s || has_start ss

abbrev pub Succeeds : Framework → Step → Type 0
Succeeds fw s = fw s ≡ true

carry_out-has_start :
    (fw : Framework) (ss : List Step)
    → has_start ss ≡ false
    → (has_start (carry_out fw (ss ++ (start ∷ []))).steps ≡ true) ↔ All (Succeeds fw) ss
carry_out-has_start fw [] h = (λ _. tt, λ _. ground arith)
carry_out-has_start fw (s ∷ ss) h =
    let later = carry_out-has_start fw ss (ground arith) in
    elim (Bool-cases (fw s)) [
      | inl good ↦ (λ k. (good, later.0 (ground arith)), λ (_, all). ground (arith, later.1 all))
      | inr bad ↦ (λ k. absurd (ground arith), λ (good, _). absurd (ground arith))
    ]

preparations-start : (f : Flags) → has_start (preparations f) ≡ false
preparations-start f = ground arith

-- The manager is started exactly if every call before it succeeded.
pub main-has_start_iff :
    (fw : Framework) (f : Flags)
    → (has_start (main fw f).steps ≡ true) ↔ All (Succeeds fw) (preparations f)
main-has_start_iff fw f =
    rw (main-eq-carry_out fw f) (carry_out-has_start fw (preparations f) (preparations-start f))

-- How a program that exits at the first failure goes through its plan: it does all of it, or all up
-- to a step that fails, which is its error.
pub data Ends (fw : Framework) (plan : List Step) (o : Outcome) : Type 0 where
  all_done : All (Succeeds fw) plan → o.steps ≡ plan → o.error ≡ none → Ends fw plan o
  stopped :
      (before after : List Step) (s : Step)
      → plan ≡ before ++ (s ∷ after)
      → All (Succeeds fw) before
      → fw s ≡ false
      → o.steps ≡ before ++ (s ∷ [])
      → o.error ≡ some (failed s)
      → Ends fw plan o

-- A step that succeeds, before the rest of the plan.
Ends-cons :
    (fw : Framework) (s : Step) (ss : List Step) (o : Outcome)
    → fw s ≡ true
    → Ends fw ss o
    → Ends fw (s ∷ ss) (record o { steps = s ∷ o.steps })
Ends-cons fw s ss o good (all_done all steps error) =
    all_done (good, all) (ap (λ l. s ∷ l) steps) error
Ends-cons fw s ss o good (stopped before after t plan all bad steps error) =
    stopped (s ∷ before) after t (ap (λ l. s ∷ l) plan) (good, all) bad (ap (λ l. s ∷ l) steps)
      error

carry_out-Ends : (fw : Framework) (ss : List Step) → Ends fw ss (carry_out fw ss)
carry_out-Ends fw [] = all_done tt refl refl
carry_out-Ends fw (s ∷ ss) = elim (Bool-cases (fw s)) [
  | inl good ↦ rw good (Ends-cons fw s ss (carry_out fw ss) good (carry_out-Ends fw ss))
  | inr bad ↦ rw bad (stopped [] ss s refl tt bad refl refl)
]

-- The operator's `main` goes through one plan: the watchers that the flags ask for, the cluster's
-- configuration, the manager, the setup of controller and webhook, the watchers again, the two
-- checks, and the manager's start. It does all of it, without an error, if every call succeeds, and
-- otherwise all up to the first call that fails, with that one as its error and nothing after it.
pub main-Ends : (fw : Framework) (f : Flags) → Ends fw (preparations f ++ (start ∷ [])) (main fw f)
main-Ends fw f = rw (main-eq-carry_out fw f) (carry_out-Ends fw (preparations f ++ (start ∷ [])))
