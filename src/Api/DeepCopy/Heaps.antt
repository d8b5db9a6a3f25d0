-- ===== src/Api/DeepCopy/Heaps.antt =====
-- How a heap grows.
use pprof_operator.Prelude.{
  set, get_elem?, ℕ, zero, suc, ◌+◌, ◌≤◌, ◌≡◌, ◌≢◌, refl, ap, Option, none, some, List, [], ◌∷◌,
  ◌++◌, length, length-append, arith,
}
use pprof_operator.Api.Memory.{Cell, Heap, Kind, and_then, read}

-- Every cell of the one is the same in the other.
pub record Grows (h h' : Heap) : Type 0 where
  pub keeps : (p : ℕ) (c : Cell) → get_elem? h p ≡ some c → get_elem? h' p ≡ some c
  pub longer : length h ≤ length h'

pub Grows-refl : (h : Heap) → Grows h h
Grows-refl h = record { keeps = λ p c e. e; longer = omega arith }

pub Grows-trans : {h h' h'' : Heap} → Grows h h' → Grows h' h'' → Grows h h''
Grows-trans g g' = record {
  keeps = λ p c e. g'.keeps p c (g.keeps p c e);
  longer = omega (arith, g.longer, g'.longer);
}

get_elem?-append :
    (h : Heap) (cs : List Cell) (p : ℕ) (c : Cell)
    → get_elem? h p ≡ some c
    → get_elem? (h ++ cs) p ≡ some c
get_elem?-append [] cs p c e = cc
get_elem?-append (x ∷ h) cs zero c e = e
get_elem?-append (x ∷ h) cs (suc p) c e = get_elem?-append h cs p c e

pub get_elem?-new : (h : Heap) (c : Cell) → get_elem? (h ++ (c ∷ [])) (length h) ≡ some c
get_elem?-new [] c = refl
get_elem?-new (x ∷ h) c = get_elem?-new h c

pub Grows-new : (h : Heap) (c : Cell) → Grows h (h ++ (c ∷ []))
Grows-new h c = record {
  keeps = λ p d e. get_elem?-append h (c ∷ []) p d e;
  longer = omega (arith, length-append h (c ∷ []));
}

-- A write behind the end of the old heap leaves the old cells.
get_elem?-set :
    (h : Heap) (p q : ℕ) (c d : Cell)
    → p ≢ q
    → get_elem? h q ≡ some d
    → get_elem? (set h p c) q ≡ some d
get_elem?-set [] p q c d n e = e
get_elem?-set (x ∷ h) zero zero c d n e = absurd (n refl)
get_elem?-set (x ∷ h) zero (suc q) c d n e = e
get_elem?-set (x ∷ h) (suc p) zero c d n e = e
get_elem?-set (x ∷ h) (suc p) (suc q) c d n e = get_elem?-set h p q c d (λ r. n (ap suc r)) e

length-set : (h : Heap) (p : ℕ) (c : Cell) → length (set h p c) ≡ length h
length-set [] p c = refl
length-set (x ∷ h) zero c = refl
length-set (x ∷ h) (suc p) c = omega (arith, length-set h p c)

lt-length : (h : Heap) (p : ℕ) (c : Cell) → get_elem? h p ≡ some c → p + 1 ≤ length h
lt-length [] p c e = cc
lt-length (x ∷ h) zero c e = omega arith
lt-length (x ∷ h) (suc p) c e = omega (arith, lt-length h p c e)

pub Grows-set : {h h' : Heap} (p : ℕ) (c : Cell) → length h ≤ p → Grows h h' → Grows h (set h' p c)
Grows-set {h} {h'} p c far g = record {
  keeps = λ q d e.
      get_elem?-set h' p q c d (λ same. absurd (omega (arith, lt-length h q d e, same)))
        (g.keeps q d e);
  longer = omega (arith, length-set h' p c, g.longer);
}

pub and_then-some :
    {A B : Type 0} (o : Option A) (f : A → Option B) (b : B)
    → and_then o f ≡ some b
    → (a : A) × (o ≡ some a) × (f a ≡ some b)
and_then-some none f b e = cc
and_then-some (some a) f b e = (a, refl, e)

pub read-Grows :
    {S : Type 0} (k : Kind S) {h h' : Heap} (p : ℕ) (s : S)
    → Grows h h'
    → read k h p ≡ some s
    → read k h' p ≡ some s
read-Grows k {h} p s g e =
    let (c, found, typed) = and_then-some (get_elem? h p) k.unwrap s e in
    rw (g.keeps p c found) typed

pub read-new :
    {S : Type 0} (k : Kind S) (h : Heap) (s : S) → read k (h ++ (k.wrap s ∷ [])) (length h) ≡ some s
read-new k h s = rw (get_elem?-new h (k.wrap s)) (k.unwrap-wrap s)
