-- ===== src/Tests/Sharing.antt =====
-- The sample application and the sidecar in one pod.
use pprof_operator.Prelude.{
  ℕ, ◌≤◌, eqb, leb, ◌&&◌, arith, Option, ◌≡◌, refl, true, false, none, some, List, [], String,
  if◌then◌else◌,
}
use pprof_operator.Prelude.Int.{ℤ, pos, negsuc}
use Prim.Native.Char.{code}
use text.Mathlib.TextLemmas.{cons-append, nil-append}
use pprof_operator.Text.Decimal.{atoi}
use pprof_operator.Text.Decimal.RoundTrip.{atoi-itoa}
use pprof_operator.Http.{Listener}
use pprof_operator.Contract.Sharing.{address, holds, Network}
use pprof_operator.Sidecar.Collectors as Sidecar

-- The port of an address on all interfaces.
abbrev to_port : Option ℤ → Option ℕ
to_port none = none
to_port (some (negsuc n)) = none
to_port (some (pos n)) = if leb 1 n && leb n 65535 then some n else none

abbrev port_of : String → Option ℕ
port_of String.[] = none
port_of (String.◌∷◌ c s) = if eqb (code c) b':' then to_port (atoi s) else none

port_of-address : (n : ℕ) → 1 ≤ n → n ≤ 65535 → port_of (address n) ≡ some n
port_of-address n low high =
    rw cons-append (rw nil-append (rw (atoi-itoa (pos n) (omega arith)) (ground arith)))

-- Nothing but a port from 1 to 65535 on all interfaces can be listened on.
abbrev listen_at : List ℕ → Option ℕ → Option String
listen_at held none = some "invalid address"
listen_at held (some n) = if holds held n then some "address already in use" else none

abbrev listen_in : List ℕ → Listener
listen_in held a = listen_at held (port_of a)

taken :
    (held : List ℕ) (n : ℕ)
    → 1 ≤ n
    → n ≤ 65535
    → holds held n ≡ true
    → (e : String) × (listen_in held (address n) ≡ some e)
taken held n low high h = ("address already in use", rw (port_of-address n low high) (rw h refl))

free :
    (held : List ℕ) (n : ℕ)
    → 1 ≤ n
    → n ≤ 65535
    → holds held n ≡ false
    → listen_in held (address n) ≡ none
free held n low high h = rw (port_of-address n low high) (rw h refl)

abbrev network : Network
network = record { listen = listen_in; taken = taken; free = free }

abbrev no_env : String → String
no_env n = ""
