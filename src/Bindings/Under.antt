-- ===== src/Bindings/Under.antt =====
-- src/path/binding.c: the tests of find_best_prefix hold of the bindings that have the path under them.
use neoproot.Base.{
  ℕ, zero, suc, ◌+◌, ◌≤◌, ◌≡◌, ◌⊎◌, refl, ap, ◌∙◌, sym, true, false, not, ◌&&◌, List, [], ◌∷◌, ◌++◌,
  ltb, ◌==◌, Bool-cases, inl, inr, arith, length, length-append,
}
use mathlib.Core.Path.{subst}
use neoproot.Path.{slash, byte_at, same_range}
use neoproot.Bindings.{Binding, is_best}

-- What ends the path of a binding: the path itself ends, or the next component begins.
abbrev pub IsBoundary : List ℕ → List ℕ → Type 0
IsBoundary p [] = Unit {0}
IsBoundary p (c ∷ rest) = (length p ≤ 1) ⊎ (c ≡ slash)

-- The path lies at or under the place of the binding, which is not empty; the root holds every path.
abbrev pub Lies : List ℕ → List ℕ → Type 0
Lies p path = (rest : List ℕ) × (path ≡ p ++ rest) × IsBoundary p rest

same_range-cons :
    (x y : ℕ) (p q : List ℕ) (i n : ℕ) → same_range (x ∷ p) (y ∷ q) (suc i) n ≡ same_range p q i n
unfolding same_range
same_range-cons x y p q i zero = refl
same_range-cons x y p q i (suc n) =
    let shift : suc i + 1 ≡ suc (i + 1) = omega arith in
    ap (λ k. byte_at p i == byte_at q i && same_range (x ∷ p) (y ∷ q) k n) shift
    ∙ ap (λ b. byte_at p i == byte_at q i && b) (same_range-cons x y p q (i + 1) n)

same_range-append : (p rest : List ℕ) → same_range p (p ++ rest) 0 (length p) ≡ true
unfolding same_range
same_range-append [] rest = refl
same_range-append (x ∷ p) rest =
    ground (arith, same_range-cons x x p (p ++ rest) 0 (length p), same_range-append p rest)

same_range-start :
    (p path : List ℕ)
    → length p ≤ length path
    → same_range p path 0 (length p) ≡ true
    → (rest : List ℕ) × (path ≡ p ++ rest)
unfolding same_range
same_range-start [] path h e = (path, refl)
same_range-start (x ∷ p) [] h e = absurd (omega (arith, h))
same_range-start (x ∷ p) (y ∷ path) h e =
    let head_same : x ≡ y = ground arith in
    let tail_same : same_range p path 0 (length p) ≡ true =
      ground (arith, same_range-cons x y p path 0 (length p)) in
    let (rest, q) = same_range-start p path (omega (arith, h)) tail_same in
    (rest, ap (λ z. z ∷ path) (sym head_same) ∙ ap (λ l. x ∷ l) q)

byte_at-append : (p rest : List ℕ) → byte_at (p ++ rest) (length p) ≡ byte_at rest 0
byte_at-append [] rest = refl
byte_at-append (x ∷ p) rest = byte_at-append p rest

boundary :
    (p rest : List ℕ)
    → (ltb 1 (length p)
        && ltb (length p) (length (p ++ rest))
        && not (byte_at (p ++ rest) (length p) == slash))
      ≡ false
    → IsBoundary p rest
boundary p [] e = tt
boundary p (c ∷ rest) e = elim (Bool-cases (ltb 1 (length p))) [
  | inr n ↦ inl (ground arith)
  | inl m ↦ inr (ground (arith, m, byte_at-append p (c ∷ rest), length-append p (c ∷ rest)))
]

pub is_best-Lies :
    (path : List ℕ) (b : Binding) → is_best path b ≡ true → Lies b.layer.guest_path path
unfolding is_best
is_best-Lies path b e =
    let p = b.layer.guest_path in
    let within : length p ≤ length path = ground arith in
    let (rest, q) = same_range-start p path within (ground arith) in
    let ends : (ltb 1 (length p)
          && ltb (length p) (length path)
          && not (byte_at path (length p) == slash))
        ≡ false =
      ground arith in
    let at : (ltb 1 (length p)
          && ltb (length p) (length (p ++ rest))
          && not (byte_at (p ++ rest) (length p) == slash))
        ≡ false =
      subst
        (λ l.
          (ltb 1 (length p) && ltb (length p) (length l) && not (byte_at l (length p) == slash))
          ≡ false)
        q ends in
    (rest, q, boundary p rest at)

ends_at :
    (p rest : List ℕ)
    → IsBoundary p rest
    → (ltb 1 (length p)
        && ltb (length p) (length (p ++ rest))
        && not (byte_at (p ++ rest) (length p) == slash))
      ≡ false
ends_at p [] h = ground (arith, length-append p [])
ends_at p (c ∷ rest) (inl s) = ground arith
ends_at p (c ∷ rest) (inr s) = ground (arith, byte_at-append p (c ∷ rest))

-- A binding of a path that is not empty.
abbrev pub IsPlace : List ℕ → Type 0
IsPlace p = 1 ≤ length p

first-byte : (p rest : List ℕ) → IsPlace p → byte_at p 0 ≡ byte_at (p ++ rest) 0
first-byte [] rest h = absurd (omega (arith, h))
first-byte (x ∷ p) rest h = refl

pub Lies-is_best :
    (path : List ℕ) (b : Binding)
    → IsPlace b.layer.guest_path
    → Lies b.layer.guest_path path
    → is_best path b ≡ true
unfolding is_best
Lies-is_best path b h (rest, q, k) =
    let p = b.layer.guest_path in
    let at : is_best (p ++ rest) b ≡ true = ground (
      arith,
      ends_at p rest k,
      first-byte p rest h,
      same_range-append p rest,
      length-append p rest,
    ) in
    subst (λ l. is_best l b ≡ true) (sym q) at
