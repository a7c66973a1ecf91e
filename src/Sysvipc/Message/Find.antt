-- ===== src/Sysvipc/Message/Find.antt =====
-- Which message a receiver gets.
use neoproot.Base.{
  zero, suc, ◌≡◌, refl, ap, Bool, true, false, List, [], ◌∷◌, ◌++◌, Option, none, some, Bool-cases,
  inl, inr,
}
use neoproot.Base.Int.{ℤ, pos, negsuc}
use neoproot.Sysvipc.Message.{Item, Found, find, find_at, past}

abbrev pub NoMatch : (Item → Bool) → List Item → Type 0
NoMatch p [] = Unit {0}
NoMatch p (m ∷ ms) = (p m ≡ false) × NoMatch p ms

pub find-first :
    (p : Item → Bool) (before : List Item) (m : Item) (behind : List Item)
    → NoMatch p before
    → p m ≡ true
    → find p (before ++ m ∷ behind) ≡ some (record { before = before; target = m; behind = behind })
unfolding find
find-first p [] m behind h k = rw k refl
find-first p (x ∷ before) m behind h k = rw h.0 (ap (past x) (find-first p before m behind h.1 k))

pub find-none : (p : Item → Bool) (ms : List Item) → NoMatch p ms → find p ms ≡ none
unfolding find
find-none p [] h = refl
find-none p (m ∷ ms) h = rw h.0 (ap (past m) (find-none p ms h.1))

-- A message that was found stands in the list between the two parts.
abbrev pub IsSplit : List Item → Option Found → Type 0
IsSplit ms none = Unit {0}
IsSplit ms (some f) = ms ≡ f.before ++ f.target ∷ f.behind

past-IsSplit :
    (m : Item) (ms : List Item) (o : Option Found) → IsSplit ms o → IsSplit (m ∷ ms) (past m o)
past-IsSplit m ms none h = tt
past-IsSplit m ms (some f) h = ap (λ r. m ∷ r) h

pub find-IsSplit : (p : Item → Bool) (ms : List Item) → IsSplit ms (find p ms)
unfolding find
find-IsSplit p [] = tt
find-IsSplit p (m ∷ ms) = elim (Bool-cases (p m)) [
  | inl e ↦ rw e refl
  | inr e ↦ rw e (past-IsSplit m ms (find p ms) (find-IsSplit p ms))
]

pub find_at-IsSplit : (i : ℤ) (ms : List Item) → IsSplit ms (find_at i ms)
unfolding find_at
find_at-IsSplit (negsuc n) ms = tt
find_at-IsSplit (pos n) [] = tt
find_at-IsSplit (pos zero) (m ∷ ms) = refl
find_at-IsSplit (pos (suc n)) (m ∷ ms) =
    past-IsSplit m ms (find_at (pos n) ms) (find_at-IsSplit (pos n) ms)
