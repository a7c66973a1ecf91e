-- ===== src/Sysvipc/SharedMemory/Counts.antt =====
-- How many mappings a segment has, when mappings come and go.
use neoproot.Base.{
  ℕ, ◌+◌, ◌<◌, ◌≤◌, ◌≡◌, refl, Bool, true, List, [], ◌∷◌, Option, none, some, arith, ◌==◌,
  if◌then◌else◌, Bool-cases, inl, inr, All,
}
use neoproot.Sysvipc.SharedMemory.{SharedMemMap, attached, take_first, skip}
use neoproot.Sysvipc.SharedMemory.Calls.{inherited}
use neoproot.Sysvipc.SharedMemory.Steps.{finish_map}

-- The index of every mapping is that of an entry.
abbrev pub InBounds : ℕ → List SharedMemMap → Type 0
InBounds n ms = All (λ m. m.shm_index < n) ms

pub attached-out : (n : ℕ) (ms : List SharedMemMap) → InBounds n ms → attached n ms ≡ 0
attached-out n [] h = refl
attached-out n (m ∷ ms) h = ground (arith, attached-out n ms h.1, h.0)

pub InBounds-more : (n k : ℕ) (ms : List SharedMemMap) → n ≤ k → InBounds n ms → InBounds k ms
InBounds-more n k [] h b = tt
InBounds-more n k (m ∷ ms) h b = (omega (arith, b.0), InBounds-more n k ms h b.1)

-- What a search finds: the mapping passes the test, and is one mapping fewer of its segment.
abbrev pub IsTaken :
    (SharedMemMap → Bool) → List SharedMemMap → Option (SharedMemMap × List SharedMemMap) → Type 0
IsTaken p ms none = Unit {0}
IsTaken p ms (some (m, rest)) =
    (p m ≡ true)
    × ((idx : ℕ) → attached idx ms ≡ (if m.shm_index == idx then 1 else 0) + attached idx rest)
    × ((n : ℕ) → InBounds n ms → (m.shm_index < n) × InBounds n rest)

skip-IsTaken :
    (p : SharedMemMap → Bool) (m : SharedMemMap) (ms : List SharedMemMap)
    (o : Option (SharedMemMap × List SharedMemMap))
    → IsTaken p ms o
    → IsTaken p (m ∷ ms) (skip m o)
skip-IsTaken p m ms none h = tt
skip-IsTaken p m ms (some (f, rest)) (e, count, bound) =
    let kept : (n : ℕ) → InBounds n (m ∷ ms) → InBounds n (m ∷ rest) =
      λ n b. (b.0, (bound n b.1).1) in
    (e, (λ idx. omega (arith, count idx)), (λ n b. ((bound n b.1).0, kept n b)))

pub take_first-IsTaken :
    (p : SharedMemMap → Bool) (ms : List SharedMemMap) → IsTaken p ms (take_first p ms)
take_first-IsTaken p [] = tt
take_first-IsTaken p (m ∷ ms) = elim (Bool-cases (p m)) [
  | inl e ↦ rw e (e, (λ idx. refl), (λ n b. b))
  | inr e ↦ rw e (skip-IsTaken p m ms (take_first p ms) (take_first-IsTaken p ms))
]

-- A fork: each mapping of the parent is there twice.
pub attached-inherited :
    (idx parent child : ℕ) (ms : List SharedMemMap)
    → attached idx ms ≤ attached idx (inherited parent child ms)
unfolding inherited
attached-inherited idx parent child [] = omega arith
attached-inherited idx parent child (m ∷ ms) =
    ground (arith, attached-inherited idx parent child ms)

pub attached-inherited_zero :
    (idx parent child : ℕ) (ms : List SharedMemMap)
    → attached idx ms ≡ 0
    → attached idx (inherited parent child ms) ≡ 0
unfolding inherited
attached-inherited_zero idx parent child [] h = refl
attached-inherited_zero idx parent child (m ∷ ms) h =
    ground (arith, attached-inherited_zero idx parent child ms)

pub InBounds-inherited :
    (n parent child : ℕ) (ms : List SharedMemMap)
    → InBounds n ms
    → InBounds n (inherited parent child ms)
unfolding inherited
InBounds-inherited n parent child [] h = tt
InBounds-inherited n parent child (m ∷ ms) h =
    ground (arith, InBounds-inherited n parent child ms h.1, h.0)

-- Giving a mapping its place moves no mapping to another segment.
pub attached-finish_map :
    (p : SharedMemMap → Bool) (addr size idx : ℕ) (ms : List SharedMemMap)
    → attached idx (finish_map p addr size ms) ≡ attached idx ms
attached-finish_map p addr size idx [] = refl
attached-finish_map p addr size idx (m ∷ ms) =
    ground (arith, attached-finish_map p addr size idx ms)

pub InBounds-finish_map :
    (p : SharedMemMap → Bool) (addr size n : ℕ) (ms : List SharedMemMap)
    → InBounds n ms
    → InBounds n (finish_map p addr size ms)
InBounds-finish_map p addr size n [] h = tt
InBounds-finish_map p addr size n (m ∷ ms) h =
    ground (arith, InBounds-finish_map p addr size n ms h.1, h.0)
