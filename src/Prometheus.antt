-- ===== src/Prometheus.antt =====
-- What both programs use of the Prometheus client: collectors, and a registry that takes them. A
-- metric's help text is left out.
use pprof_operator.Prelude.{
  ◌≡◌, refl, ◌∙◌, Bool, true, false, ◌||◌, Option, some, List, [], ◌∷◌, String, ◌==◌, contains,
  are_distinct, arith, eq_iff, All,
}

pub data MetricKind : Type 0 where
  counter gauge : MetricKind

pub record Collector : Type 0 where
  pub kind : MetricKind
  pub name : String
  pub labels : List String

-- `MustRegister` takes collectors one by one and panics at the first that it does not take. It
-- takes every collector whose name it does not have yet.
pub record Registry : Type 1 where
  pub State : Type 0
  pub has : State → String → Bool
  pub must_register : List Collector → State → Option State
  pub new_registry : State
  pub new_registry-has : (n : String) → has new_registry n ≡ false
  pub register_nil : (s : State) → must_register [] s ≡ some s
  pub register_cons :
      (c : Collector) (cs : List Collector) (s : State)
      → has s c.name ≡ false
      → (s' : State) × (must_register (c ∷ cs) s ≡ must_register cs s')
        × ((n : String) → has s' n ≡ (c.name == n || has s n))

abbrev pub names : List Collector → List String
names [] = []
names (c ∷ cs) = c.name ∷ names cs

or_swap : (a b c : Bool) → (a || (b || c)) ≡ ((b || a) || c)
or_swap true true c = refl
or_swap true false c = refl
or_swap false true c = refl
or_swap false false c = refl

or_false : (a : Bool) → (a || false) ≡ a
or_false true = refl
or_false false = refl

module _ (r : Registry) where
  open r use {
    State, has, new_registry, new_registry-has, must_register, register_nil, register_cons,
  }

  -- The registry has none of the names.
  abbrev pub HasNone : State → List String → Type 0
  HasNone s ns = All (λ n. has s n ≡ false) ns

  -- What a registration leaves: the names of before, and the new ones.
  pub record IsRegistered (s : State) (cs : List Collector) : Type 0 where
    pub after : State
    pub registered : must_register cs s ≡ some after
    pub known : (n : String) → has after n ≡ (contains n (names cs) || has s n)

  HasNone-after :
      (s s' : State) (k : String) (ns : List String)
      → ((n : String) → has s' n ≡ (k == n || has s n))
      → contains k ns ≡ false
      → HasNone s ns
      → HasNone s' ns
  HasNone-after s s' k [] known apart h = tt
  HasNone-after s s' k (n ∷ ns) known apart (free, h) = (
    known n ∙ ground (arith, eq_iff k n, eq_iff n k),
    HasNone-after s s' k ns known (ground arith) h,
  )

  none_yet : (ns : List String) → HasNone new_registry ns
  none_yet [] = tt
  none_yet (n ∷ ns) = (new_registry-has n, none_yet ns)

  pub must_register-IsRegistered :
      (cs : List Collector) (s : State)
      → are_distinct (names cs) ≡ true
      → HasNone s (names cs)
      → IsRegistered s cs
  must_register-IsRegistered [] s d h = record {
    after = s;
    registered = register_nil s;
    known = λ n. refl;
  }
  must_register-IsRegistered (c ∷ cs) s d (free, h) =
      let (s', step, known) = register_cons c cs s free in
      let rest =
        must_register-IsRegistered cs s' (ground arith)
          (HasNone-after s s' c.name (names cs) known (ground arith) h) in
      record {
        after = rest.after;
        registered = step ∙ rest.registered;
        known = λ n.
            rest.known n ∙ rw (known n) (or_swap (contains n (names cs)) (c.name == n) (has s n));
      }

  -- On a new registry.
  pub new_registry-IsRegistered :
      (cs : List Collector)
      → are_distinct (names cs) ≡ true
      → (after : State) × (must_register cs new_registry ≡ some after)
        × ((n : String) → has after n ≡ contains n (names cs))
  new_registry-IsRegistered cs d =
      let done = must_register-IsRegistered cs new_registry d (none_yet (names cs)) in
      (
        done.after,
        done.registered,
        λ n. done.known n ∙ rw (new_registry-has n) (or_false (contains n (names cs))),
      )
