-- ===== src/Manager/Init.antt =====
-- The scheme of the operator: the variable `scheme` and `init` of cmd/main.go.
use pprof_operator.Prelude.{String, Result, ok, err, ◌>>=◌}
use pprof_operator.Api.Scheme.{Machinery, add_to_scheme}

pub data Panic : Type 0 where
  must_failed : String → Panic

-- `utilruntime.Must`.
abbrev pub must : {A : Type 0} → Result String A → Result Panic A
must (ok a) = ok a
must (err e) = err (must_failed e)

-- The scheme that `init` leaves.
unfoldable pub init : (m : Machinery) → Result Panic m.Scheme
unfolding add_to_scheme
init m = do scheme ← must (m.client_go m.new_scheme); must (add_to_scheme m scheme)
