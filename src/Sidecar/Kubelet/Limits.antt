-- ===== src/Sidecar/Kubelet/Limits.antt =====
-- The limits that a reading counts with, described without the code of
-- sidecar/pkg/kubelet/metrics.go.
use pprof_operator.Prelude.{
  ◌≡◌, ◌≢◌, ◌↔◌, refl, ◌∙◌, ap, true, false, Bool-cases, inl, inr, Option, none, some, List, [],
  ◌∷◌, String, ◌==◌, lookup, arith, if◌then◌else◌, eq_iff, ok,
}
use pprof_operator.Prelude.Int.{ℤ, pos, negsuc, is_zero}
use pprof_operator.Kube.{ResourceList, Container}
use pprof_operator.Sidecar.Kubelet.{Quantities, amount, container_limits, effective_limits}

-- The limits of the first container with the name, or no limits if there is none.
pub data OwnLimits (name : String) : List Container → ResourceList → Type 0 where
  limits_here :
      (c : Container) (cs : List Container)
      → c.name ≡ name
      → OwnLimits name (c ∷ cs) c.resources.limits
  limits_later :
      (d : Container) (cs : List Container) (l : ResourceList)
      → d.name ≢ name
      → OwnLimits name cs l
      → OwnLimits name (d ∷ cs) l
  no_container : OwnLimits name [] []

-- The amount of a resource in a list, 0 if it is not there.
abbrev pub quantity : (String → ℤ) → Option String → ℤ
quantity read none = pos 0
quantity read (some text) = read text

-- The limit that counts: the container's own, or, if that is 0, the node's capacity.
pub record IsLimit (own : ℤ) (read : String → ℤ) (key : String) (node : Option ResourceList) (v : ℤ)
    : Type 0 where
  pub of_container : own ≢ pos 0 → v ≡ own
  pub of_node :
      own ≡ pos 0
      → (capacity : ResourceList) × (node ≡ some capacity)
        × (v ≡ quantity read (lookup key capacity))

amount-eq-quantity : (read : String → ℤ) (o : Option String) → amount read o ≡ quantity read o
amount-eq-quantity read none = refl
amount-eq-quantity read (some text) = refl

zero_iff : (x : ℤ) → (is_zero x ≡ true) ↔ (x ≡ pos 0)
zero_iff (pos n) = ground arith
zero_iff (negsuc n) = ground arith

module _ (x v : ℤ) (read : String → ℤ) (key : String) where
  IsLimit-without_node : IsLimit x read key none v → (is_zero x ≡ false) × (v ≡ x)
  IsLimit-without_node h = elim (Bool-cases (is_zero x)) [
    | inl unset ↦
        let (capacity, impossible, value) = h.of_node (ground (arith, zero_iff x)) in
        absurd (ground arith)
    | inr set ↦ (set, h.of_container (λ e. absurd (ground (arith, zero_iff x))))
  ]

  IsLimit-with_node :
      (capacity : ResourceList)
      → IsLimit x read key (some capacity) v
      → v ≡ (if is_zero x then amount read (lookup key capacity) else x)
  IsLimit-with_node capacity h = elim (Bool-cases (is_zero x)) [
    | inl unset ↦
        let (c, same, value) = h.of_node (ground (arith, zero_iff x)) in
        let e : capacity ≡ c = ground (arith, same) in
        rw unset (
          value
          ∙ ground (
            arith,
            amount-eq-quantity read (lookup key capacity),
            ap (λ l. quantity read (lookup key l)) e,
          ))
    | inr set ↦ rw set (h.of_container (λ e. absurd (ground (arith, zero_iff x))))
  ]

module _ (q : Quantities) (name : String) where
  pub own_limits : (cs : List Container) → (l : ResourceList) × OwnLimits name cs l
  own_limits [] = ([], no_container)
  own_limits (c ∷ cs) = elim (Bool-cases (c.name == name)) [
    | inl named ↦ (c.resources.limits, limits_here c cs (ground (arith, eq_iff c.name name)))
    | inr other ↦
        let (l, rest) = own_limits cs in
        (l, limits_later c cs l (λ e. absurd (ground (arith, eq_iff c.name name))) rest)
  ]

  pub container_limits_of_own :
      (cs : List Container) (l : ResourceList)
      → OwnLimits name cs l
      → container_limits q name cs
        ≡ (quantity q.milli_value (lookup "cpu" l), quantity q.value (lookup "memory" l))
  unfolding container_limits
  container_limits_of_own _ _ (limits_here c cs e) = ground (
    arith,
    eq_iff c.name name,
    amount-eq-quantity q.milli_value (lookup "cpu" c.resources.limits),
    amount-eq-quantity q.value (lookup "memory" c.resources.limits),
  )
  container_limits_of_own _ _ (limits_later d cs l ne h) =
      ground (arith, eq_iff d.name name, container_limits_of_own cs l h)
  container_limits_of_own _ _ no_container = refl

  pub effective_limits-IsLimit :
      (x y u v : ℤ) (node : Option ResourceList)
      → effective_limits q (x, y) node ≡ ok (u, v)
      → IsLimit x q.milli_value "cpu" node u × IsLimit y q.value "memory" node v
  unfolding effective_limits
  effective_limits-IsLimit x y u v none h = (
    record {
      of_container = λ ne. ground (arith, zero_iff x);
      of_node = λ e. absurd (ground (arith, zero_iff x));
    },
    record {
      of_container = λ ne. ground (arith, zero_iff y);
      of_node = λ e. absurd (ground (arith, zero_iff y));
    },
  )
  effective_limits-IsLimit x y u v (some capacity) h = (
    record {
      of_container = λ ne. ground (arith, zero_iff x);
      of_node = λ e. (
        capacity,
        refl,
        ground (arith, zero_iff x, amount-eq-quantity q.milli_value (lookup "cpu" capacity)),
      );
    },
    record {
      of_container = λ ne. ground (arith, zero_iff y);
      of_node = λ e. (
        capacity,
        refl,
        ground (arith, zero_iff y, amount-eq-quantity q.value (lookup "memory" capacity)),
      );
    },
  )

  pub effective_limits_of_IsLimit :
      (x y u v : ℤ) (node : Option ResourceList)
      → IsLimit x q.milli_value "cpu" node u
      → IsLimit y q.value "memory" node v
      → effective_limits q (x, y) node ≡ ok (u, v)
  unfolding effective_limits
  effective_limits_of_IsLimit x y u v none h k =
      let (set_x, same_x) = IsLimit-without_node x u q.milli_value "cpu" h in
      let (set_y, same_y) = IsLimit-without_node y v q.value "memory" k in ground arith
  effective_limits_of_IsLimit x y u v (some capacity) h k = ground (
    arith,
    IsLimit-with_node x u q.milli_value "cpu" capacity h,
    IsLimit-with_node y v q.value "memory" capacity k,
  )
