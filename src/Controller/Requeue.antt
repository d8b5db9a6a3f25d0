-- ===== src/Controller/Requeue.antt =====
-- When a reconciliation is repeated, and when it reports an error.
use pprof_operator.Prelude.{
  ◌*◌, ◌≡◌, ◌↔◌, Bool, false, some, Result, ok, err, Result-cases, inl, inr, arith, Bool-cases,
}
use pprof_operator.Api.{Profiler}
use pprof_operator.Controller.{Request, minute, reconcile}

module _ {E : Type 0} (is_not_found : E → Bool) where
  requeue_iff :
      (get : Request → Result E Profiler) (req : Request)
      → (reconcile is_not_found get req).0.requeue_after ≡ minute * 5
        ↔ ((p : Profiler) × (get req ≡ ok p))
  unfolding reconcile
  requeue_iff get req = (
    λ h. elim (Result-cases (get req)) [
      | inl found ↦ found
      | inr (e, failed) ↦ elim (Bool-cases (is_not_found e)) [
        | inl gone ↦ absurd (ground arith)
        | inr other ↦ absurd (ground arith)
      ]
    ],
    λ (p, h). ground arith,
  )

  error_iff :
      (get : Request → Result E Profiler) (req : Request) (e : E)
      → (reconcile is_not_found get req).1 ≡ some e ↔ ((get req ≡ err e) × (is_not_found e ≡ false))
  unfolding reconcile
  error_iff get req e = (
    λ h. elim (Result-cases (get req)) [
      | inl (p, found) ↦ absurd (ground arith)
      | inr (d, failed) ↦ ground arith
    ],
    λ (h, n). ground arith,
  )

  -- A reconciliation asks to be repeated after five minutes exactly if the Profiler was read, and
  -- it returns an error exactly if reading it failed with this error and the error is not "not
  -- found".
  pub reconcile_iff :
      (get : Request → Result E Profiler) (req : Request)
      → ((reconcile is_not_found get req).0.requeue_after ≡ minute * 5
          ↔ ((p : Profiler) × (get req ≡ ok p)))
        × ((e : E)
            → ((reconcile is_not_found get req).1 ≡ some e
                ↔ ((get req ≡ err e) × (is_not_found e ≡ false))))
  reconcile_iff get req = (requeue_iff get req, error_iff get req)
