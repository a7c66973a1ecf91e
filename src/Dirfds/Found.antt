-- ===== src/Dirfds/Found.antt =====
-- src/path/path.c: what dirfd_cache_slot finds.
use neoproot.Base.{
  ℕ, zero, suc, ◌≡◌, refl, sym, true, false, List, [], ◌∷◌, Option, none, some, Bool-cases, inl,
  inr, get_elem?,
}
use mathlib.Core.Option.{some-injective}
use mathlib.Core.Path.{subst}
use neoproot.Dirfds.{
  Slot, Dirfds, holds, holds_at, later, slot_of, noted, by_last, dirfd_cache_slot,
}

-- The slot at the index holds the descriptor, or no slot does.
abbrev pub IsFound : ℕ → ℕ → List Slot → Option ℕ → Type 0
IsFound pid fd ss (some i) = (s : Slot) × (get_elem? ss i ≡ some s) × (holds pid fd s ≡ true)
IsFound pid fd ss none = (i : ℕ) (s : Slot) → get_elem? ss i ≡ some s → holds pid fd s ≡ false

later-IsFound :
    (pid fd : ℕ) (s : Slot) (ss : List Slot) (o : Option ℕ)
    → holds pid fd s ≡ false
    → IsFound pid fd ss o
    → IsFound pid fd (s ∷ ss) (later o)
later-IsFound pid fd s ss (some i) n h = h
later-IsFound pid fd s ss none n h = at
  where
    at : (i : ℕ) (t : Slot) → get_elem? (s ∷ ss) i ≡ some t → holds pid fd t ≡ false
    at zero t e = subst (λ x. holds pid fd x ≡ false) (some-injective s t e) n
    at (suc i) t e = h i t e

slot_of-IsFound : (pid fd : ℕ) (ss : List Slot) → IsFound pid fd ss (slot_of pid fd ss)
unfolding slot_of
slot_of-IsFound pid fd [] = λ i s e. cc
slot_of-IsFound pid fd (s ∷ ss) = elim (Bool-cases (holds pid fd s)) [
  | inl e ↦ rw e (s, refl, e)
  | inr n ↦ rw n (later-IsFound pid fd s ss (slot_of pid fd ss) n (slot_of-IsFound pid fd ss))
]

noted-eq : (c : Dirfds) (o : Option ℕ) → ((noted c o).0 ≡ o) × ((noted c o).1.slots ≡ c.slots)
unfolding noted
noted-eq c none = (refl, refl)
noted-eq c (some i) = (refl, refl)

-- The slot that was found, and the slots, which a lookup leaves.
abbrev pub Looked : ℕ → ℕ → Dirfds → Option ℕ × Dirfds → Type 0
Looked pid fd c r = IsFound pid fd c.slots r.0 × (r.1.slots ≡ c.slots)

noted-Looked : (pid fd : ℕ) (c : Dirfds) → Looked pid fd c (noted c (slot_of pid fd c.slots))
noted-Looked pid fd c =
    let k = noted-eq c (slot_of pid fd c.slots) in
    (subst (λ o. IsFound pid fd c.slots o) (sym k.0) (slot_of-IsFound pid fd c.slots), k.1)

hint-IsFound :
    (pid fd : ℕ) (ss : List Slot) (l : ℕ) (o : Option Slot)
    → get_elem? ss l ≡ o
    → holds_at pid fd o ≡ true
    → IsFound pid fd ss (some l)
hint-IsFound pid fd ss l none e h = cc
hint-IsFound pid fd ss l (some s) e h = (s, e, h)

by_last-Looked :
    (pid fd : ℕ) (c : Dirfds) (last : Option ℕ) → Looked pid fd c (by_last c pid fd last)
unfolding by_last
by_last-Looked pid fd c none = noted-Looked pid fd c
by_last-Looked pid fd c (some l) = elim (Bool-cases (holds_at pid fd (get_elem? c.slots l))) [
  | inl e ↦ rw e (hint-IsFound pid fd c.slots l (get_elem? c.slots l) refl e, refl)
  | inr n ↦ rw n (noted-Looked pid fd c)
]

-- Whatever slot was found last, a lookup answers a slot that holds the descriptor of the process if
-- there is one, and none only if there is none; it changes no slot.
pub dirfd_cache_slot-Looked :
    (c : Dirfds) (pid fd : ℕ) → Looked pid fd c (dirfd_cache_slot c pid (some fd))
unfolding dirfd_cache_slot
dirfd_cache_slot-Looked c pid fd = by_last-Looked pid fd c c.last
