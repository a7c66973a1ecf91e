-- ===== src/Bindings/Sorted.antt =====
-- An insertion sort of bindings, which stands for qsort in the tests.
use neoproot.Base.{
  ℕ, zero, suc, ◌≤◌, ◌≡◌, ◌↔◌, ap, List, [], ◌∷◌, ltb, if◌then◌else◌, Bool-cases, true, false, inl,
  inr, arith, length,
}
use mathlib.Core.Option.{some-injective}
use neoproot.Bindings.{Binding}
use neoproot.Bindings.Longest.{Among, Descending}

abbrev pub size_of : Binding → ℕ
size_of b = length b.layer.guest_path

abbrev insert_sorted : Binding → List Binding → List Binding
insert_sorted b [] = b ∷ []
insert_sorted b (c ∷ l) =
    let rest = insert_sorted b l in if ltb (size_of b) (size_of c) then c ∷ rest else b ∷ c ∷ l

abbrev pub sorted : List Binding → List Binding
sorted [] = []
sorted (b ∷ l) = insert_sorted b (sorted l)

module _ (c : Binding) where
  below :
      (b : Binding) (l m : List Binding)
      → (Among c l → Among c m)
      → Among c (b ∷ l)
      → Among c (b ∷ m)
  below b l m f (zero, e) = (0, e)
  below b l m f (suc i, e) = next (f (i, e))
    where
      next : Among c m → Among c (b ∷ m)
      next (j, q) = (suc j, q)

  exchange : (b d : Binding) (l : List Binding) → Among c (b ∷ d ∷ l) → Among c (d ∷ b ∷ l)
  exchange b d l (zero, e) = (1, e)
  exchange b d l (suc zero, e) = (0, e)
  exchange b d l (suc (suc i), e) = (suc (suc i), e)

  from_insert : (b : Binding) (l : List Binding) → Among c (insert_sorted b l) → Among c (b ∷ l)
  from_insert b [] = λ a. a
  from_insert b (d ∷ l) = elim (Bool-cases (ltb (size_of b) (size_of d))) [
    | inr n ↦ rw n (λ a. a)
    | inl e ↦
        rw e (λ a. exchange d b l (below d (insert_sorted b l) (b ∷ l) (λ x. from_insert b l x) a))
  ]

  into_insert : (b : Binding) (l : List Binding) → Among c (b ∷ l) → Among c (insert_sorted b l)
  into_insert b [] = λ a. a
  into_insert b (d ∷ l) = elim (Bool-cases (ltb (size_of b) (size_of d))) [
    | inr n ↦ rw n (λ a. a)
    | inl e ↦
        rw e (λ a. below d (b ∷ l) (insert_sorted b l) (λ x. into_insert b l x) (exchange b d l a))
  ]

  from_sorted : (l : List Binding) → Among c (sorted l) → Among c l
  from_sorted [] a = a
  from_sorted (b ∷ l) a = below b (sorted l) l (λ x. from_sorted l x) (from_insert b (sorted l) a)

  into_sorted : (l : List Binding) → Among c l → Among c (sorted l)
  into_sorted [] a = a
  into_sorted (b ∷ l) a = into_insert b (sorted l) (below b l (sorted l) (λ x. into_sorted l x) a)

pub sorted-permutes : (l : List Binding) (b : Binding) → Among b (sorted l) ↔ Among b l
sorted-permutes l b = (λ a. from_sorted b l a, λ a. into_sorted b l a)

top-Descending :
    (b : Binding) (l : List Binding)
    → Descending l
    → ((c : Binding) → Among c l → size_of c ≤ size_of b)
    → Descending (b ∷ l)
top-Descending b l d h = (h, d)

insert_sorted-Descending :
    (b : Binding) (l : List Binding) → Descending l → Descending (insert_sorted b l)
insert_sorted-Descending b [] d = ((λ c a. cc), tt)
insert_sorted-Descending b (d ∷ l) (top, k) = elim (Bool-cases (ltb (size_of b) (size_of d))) [
  | inr n ↦ rw n (top-Descending b (d ∷ l) (top, k) (λ c a. first_case n c a))
  | inl e ↦ rw e (
      top-Descending d (insert_sorted b l) (insert_sorted-Descending b l k)
        (λ c a. second_case e c (from_insert c b l a)))
]
  where
    first_case :
        ltb (size_of b) (size_of d) ≡ false
        → (c : Binding) → Among c (d ∷ l)
        → size_of c ≤ size_of b
    first_case n c (zero, e) =
        let same : size_of d ≡ size_of c = ap size_of (some-injective d c e) in ground (arith, same)
    first_case n c (suc i, e) = ground (arith, top c (i, e))

    second_case :
        ltb (size_of b) (size_of d) ≡ true → (c : Binding) → Among c (b ∷ l) → size_of c ≤ size_of d
    second_case e c (zero, q) =
        let same : size_of b ≡ size_of c = ap size_of (some-injective b c q) in ground (arith, same)
    second_case e c (suc i, q) = top c (i, q)

pub sorted-Descending : (l : List Binding) → Descending (sorted l)
sorted-Descending [] = tt
sorted-Descending (b ∷ l) = insert_sorted-Descending b (sorted l) (sorted-Descending l)
