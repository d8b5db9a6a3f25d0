-- ===== src/Webhook/Mutator/Server/Serial.antt =====
-- The interleavings of the goroutines, against handling one request after the other.
use mathlib.Core.Path.{subst}
use pprof_operator.Prelude.{
  ℕ, ◌≤◌, ◌≡◌, refl, ◌∙◌, sym, ap, List, [], ◌∷◌, ◌++◌, arith, All, inl, inr, ◌⊎◌,
}
use pprof_operator.Prelude.Int.{pos_part, neg_part, int_laws}
use pprof_operator.Webhook.Mutator.{OperatorMetrics, Services, Request, Response, handle_all}
use pprof_operator.Webhook.Mutator.Counting.{IsBalanced, handle_all-IsBalanced}
use pprof_operator.Webhook.Mutator.Order.{
  plus, plus_left_comm, zero_metrics, plus-zero_metrics, plus_comm, change, handle-change,
}
use pprof_operator.Webhook.Mutator.Server.{
  MetricMove, Arrival, handled, moves, Server, Step, arrives, goes_on, Reach, here, later, started,
}
use pprof_operator.Webhook.Mutator.Server.Interleaving.{
  delta, total, total_all, plus_assoc, make_move-delta, total_all-first, total-moves,
}
use pprof_operator.Webhook.Mutator.Server.Stages.{
  IsRest, IsRest-tail, unfinished, IsWithin, total_all-IsWithin, moves-IsRest,
}

-- A balanced sum whose second part is within `k` has its first part within `k`.
balanced-IsWithin :
    (k : ℕ) (m n : OperatorMetrics) → IsBalanced (plus m n) → IsWithin k n → IsWithin k m
balanced-IsWithin k m n b h = record {
  above = omega (int_laws, ap pos_part b, ap neg_part b, h.below);
  below = omega (int_laws, ap pos_part b, ap neg_part b, h.above);
}

handled-cons :
    (s : Services) (req : Request) (as' : List Arrival) (m : OperatorMetrics)
    → handled ((s, req) ∷ as') m ≡ plus (change s req) (handled as' m)
unfolding handled
handled-cons s req as' m =
    ap (λ (r : OperatorMetrics × Response). r.0) (handle-change s req (handled as' m))
    ∙ plus_comm (handled as' m) (change s req)

handled-IsBalanced :
    (as' : List Arrival) (m : OperatorMetrics) → IsBalanced m → IsBalanced (handled as' m)
unfolding handled handle_all
handled-IsBalanced [] m b = b
handled-IsBalanced ((s, req) ∷ as') m b =
    handle_all-IsBalanced s (req ∷ []) (handled as' m) (handled-IsBalanced as' m b)

record IsConsistent (m : OperatorMetrics) (p : Server) : Type 0 where
  sums : plus p.metrics (total_all p.pending) ≡ handled p.arrived m
  rests : All IsRest p.pending

All-middle :
    (before : List (List MetricMove)) (l l' : List MetricMove) (after : List (List MetricMove))
    → (IsRest l → IsRest l')
    → All IsRest (before ++ (l ∷ after))
    → All IsRest (before ++ (l' ∷ after))
All-middle [] l l' after f (h, hs) = (f h, hs)
All-middle (x ∷ xs) l l' after f (h, hs) = (h, All-middle xs l l' after f hs)

Step-IsConsistent :
    {m : OperatorMetrics} {p q : Server} → Step p q → IsConsistent m p → IsConsistent m q
Step-IsConsistent {m} {p} (arrives s req) h = record {
  sums =
      plus_left_comm p.metrics (total (moves s req)) (total_all p.pending)
      ∙ rw (total-moves s req) (ap (plus (change s req)) h.sums)
      ∙ sym (handled-cons s req p.arrived m);
  rests = (moves-IsRest s req, h.rests);
}
Step-IsConsistent {m} {p} (goes_on before move rest after e) h = record {
  sums =
      ap (λ n. plus n (total_all (before ++ (rest ∷ after)))) (make_move-delta move p.metrics)
      ∙ plus_assoc p.metrics (delta move) (total_all (before ++ (rest ∷ after)))
      ∙ ap (plus p.metrics) (sym (total_all-first before move rest after))
      ∙ ap (λ (ls : List (List MetricMove)). plus p.metrics (total_all ls)) (sym e)
      ∙ h.sums;
  rests =
      All-middle before (move ∷ rest) rest after (IsRest-tail move rest)
        (subst (All IsRest) e h.rests);
}

Reach-IsConsistent : {m : OperatorMetrics} {p : Server} → Reach (started m) p → IsConsistent m p
unfolding handled
Reach-IsConsistent {m} here = record { sums = plus-zero_metrics m; rests = tt }
Reach-IsConsistent (later r st) = Step-IsConsistent st (Reach-IsConsistent r)

settled : (ls : List (List MetricMove)) → (1 ≤ unfinished ls) ⊎ (total_all ls ≡ zero_metrics)
settled [] = inr refl
settled ([] ∷ ls) = elim (settled ls) [
  | inl busy ↦ inl busy
  | inr still ↦ inr (rw still (plus-zero_metrics zero_metrics))
]
settled ((move ∷ rest) ∷ ls) = inl (omega arith)

-- However requests come, whatever the world answers to each of them and however their goroutines
-- interleave, from metrics that are balanced: the metrics with what the goroutines have yet to add
-- are those of handling the requests one after the other as they came, so that they are the same
-- where no goroutine is in the middle; and at any time the
-- gauge differs from what was attached less what was removed by at most the number of goroutines
-- that are in the middle.
pub Reach-IsSerial :
    {m : OperatorMetrics} {p : Server}
    → Reach (started m) p
    → IsBalanced m
    → (plus p.metrics (total_all p.pending) ≡ handled p.arrived m)
      × ((1 ≤ unfinished p.pending) ⊎ (p.metrics ≡ handled p.arrived m))
      × IsWithin (unfinished p.pending) p.metrics
Reach-IsSerial {m} {p} run b =
    let h = Reach-IsConsistent run in
    (
      h.sums,
      elim (settled p.pending) [
        | inl busy ↦ inl busy
        | inr still ↦
            inr (sym (plus-zero_metrics p.metrics) ∙ ap (plus p.metrics) (sym still) ∙ h.sums)
      ],
      balanced-IsWithin (unfinished p.pending) p.metrics (total_all p.pending)
          (subst IsBalanced (sym h.sums) (handled-IsBalanced p.arrived m b))
          (total_all-IsWithin p.pending h.rests),
    )
