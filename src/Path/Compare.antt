-- ===== src/Path/Compare.antt =====
-- compare_paths2 of src/path/path.c.
use neoproot.Base.{
  ℕ, zero, suc, length, [], ◌+◌, ◌*◌, ◌/◌, ◌%◌, ◌≡◌, refl, ap, ◌∙◌, sym, true, false, ◌&&◌, List,
  ◌∷◌, ◌-◌, ◌⊎◌, ◌≤◌, ◌<◌, ltb, arith, ◌==◌, Bool-cases, inl, inr,
}
use mathlib.Core.Path.{subst}
use neoproot.Path.{
  Comparison, paths_are_equal, path1_is_prefix, path2_is_prefix, paths_are_not_comparable, byte_at,
  same_range, same_vectors, same_start, compare_trimmed, compare_paths2, compare_paths, slash,
  trimmed,
}

same_range-add :
    (p q : List ℕ) (i m n : ℕ)
    → same_range p q i (m + n) ≡ (same_range p q i m && same_range p q (i + m) n)
unfolding same_range
same_range-add p q i zero n =
    let whole : 0 + n ≡ n = omega arith in
    let from_start : i ≡ i + 0 = omega arith in
    ap (same_range p q i) whole ∙ ap (λ k. same_range p q k n) from_start
same_range-add p q i (suc m) n =
    let count : suc m + n ≡ suc (m + n) = omega arith in
    let more : same_range p q i (suc m + n) ≡ same_range p q i (suc (m + n)) =
      ap (same_range p q i) count in
    let later : same_range p q (i + 1 + m) n ≡ same_range p q (i + suc m) n =
      ap (λ k. same_range p q k n) (omega arith) in
    ground (arith, more, later, same_range-add p q (i + 1) m n)

same_vectors-eq : (p q : List ℕ) (i n : ℕ) → same_vectors p q i n ≡ same_range p q i (n * 16)
unfolding same_vectors same_range
same_vectors-eq p q i zero = refl
same_vectors-eq p q i (suc n) =
    ap (λ b. same_range p q i 16 && b) (same_vectors-eq p q (i + 16) n)
    ∙ sym (same_range-add p q i 16 (n * 16))
    ∙ ap (same_range p q i) (omega arith)

-- The comparison by vectors of 16 bytes and a rest agrees with the one byte by byte.
pub same_start-eq : (p q : List ℕ) (n : ℕ) → same_start p q n ≡ same_range p q 0 n
unfolding same_start
same_start-eq p q n =
    ap (λ b. b && same_range p q (n / 16 * 16) (n % 16)) (same_vectors-eq p q 0 (n / 16))
    ∙ ap (λ k. same_range p q 0 (n / 16 * 16) && same_range p q k (n % 16)) (omega arith)
    ∙ sym (same_range-add p q 0 (n / 16 * 16) (n % 16))
    ∙ ap (same_range p q 0) (omega arith)

same_range_comm : (p q : List ℕ) (i n : ℕ) → same_range p q i n ≡ same_range q p i n
unfolding same_range
same_range_comm p q i zero = refl
same_range_comm p q i (suc n) = ground (arith, same_range_comm p q (i + 1) n)

abbrev pub swap : Comparison → Comparison
swap paths_are_equal = paths_are_equal
swap path1_is_prefix = path2_is_prefix
swap path2_is_prefix = path1_is_prefix
swap paths_are_not_comparable = paths_are_not_comparable

same_start_comm : (p q : List ℕ) (n : ℕ) → same_start p q n ≡ same_start q p n
same_start_comm p q n = same_start-eq p q n ∙ same_range_comm p q 0 n ∙ sym (same_start-eq q p n)

-- A path may end at this length: there is a slash, or the terminator.
abbrev pub IsEnd : List ℕ → ℕ → Type 0
IsEnd p l = (byte_at p l ≡ slash) ⊎ (byte_at p l ≡ 0)

byte_at-length : (p : List ℕ) → byte_at p (length p) ≡ 0
byte_at-length [] = refl
byte_at-length (b ∷ p) = byte_at-length p

trimmed-IsEnd : (p : List ℕ) → IsEnd p (trimmed p (length p))
trimmed-IsEnd p = elim (Bool-cases (byte_at p (length p - 1) == slash)) [
  | inl e ↦ rw e (inl (ground arith))
  | inr e ↦ rw e (inr (byte_at-length p))
]

compare_same-swap :
    (p q : List ℕ) (l : ℕ)
    → IsEnd p l
    → IsEnd q l
    → compare_trimmed q l p l ≡ swap (compare_trimmed p l q l)
unfolding compare_trimmed
compare_same-swap p q l a b =
    let n : ltb l l ≡ false = ground arith in rw (n, same_start_comm q p l) (ground arith)

compare_trimmed-swap :
    (p q : List ℕ) (l1 l2 : ℕ)
    → IsEnd p l1
    → IsEnd q l2
    → compare_trimmed q l2 p l1 ≡ swap (compare_trimmed p l1 q l2)
unfolding compare_trimmed
compare_trimmed-swap p q l1 l2 a b = elim (Bool-cases (ltb l1 l2)) [
  | inl h ↦
      (let n : ltb l2 l1 ≡ false = ground arith in rw (h, n, same_start_comm q p l1) (ground arith))
  | inr h ↦ elim (Bool-cases (ltb l2 l1)) [
    | inl k ↦ rw (h, k, same_start_comm q p l2) (ground arith)
    | inr k ↦
        (let e : l1 ≡ l2 = ground arith in
          subst (λ l. compare_trimmed q l p l1 ≡ swap (compare_trimmed p l1 q l)) e
            (compare_same-swap p q l1 a (subst (IsEnd q) (sym e) b)))
  ]
]

-- Comparing two paths the other way round gives the opposite answer.
compare_paths-swap : (p q : List ℕ) → compare_paths q p ≡ swap (compare_paths p q)
unfolding compare_paths compare_paths2
compare_paths-swap p q = ground (
  arith,
  compare_trimmed-swap p q (trimmed p (length p)) (trimmed q (length q)) (trimmed-IsEnd p)
      (trimmed-IsEnd q),
)

same_range-byte :
    (p q : List ℕ) (i n k : ℕ)
    → same_range p q i n ≡ true
    → i ≤ k
    → k < i + n
    → byte_at p k ≡ byte_at q k
unfolding same_range
same_range-byte p q i zero k e a b = absurd (omega arith)
same_range-byte p q i (suc n) k e a b = elim (Bool-cases (k == i)) [
  | inl h ↦
      (let here : i ≡ k = ground arith in
        subst (λ j. byte_at p j ≡ byte_at q j) here (ground arith))
  | inr h ↦ same_range-byte p q (i + 1) n k (ground arith) (ground arith) (omega arith)
]

-- What the answer says of the bytes, where `l1` and `l2` are the lengths without a last slash.
abbrev Told : List ℕ → ℕ → List ℕ → ℕ → Comparison → Type 0
Told p l1 q l2 paths_are_equal = (l1 ≡ l2) × (same_start p q l1 ≡ true)
Told p l1 q l2 path1_is_prefix = (l1 < l2) × (same_start p q l1 ≡ true) × IsEnd q l1
Told p l1 q l2 path2_is_prefix = (l2 < l1) × (same_start p q l2 ≡ true) × IsEnd p l2
Told p l1 q l2 paths_are_not_comparable =
    (l1 ≡ l2 → same_start p q l1 ≡ true → ⊥)
    × (l1 < l2 → same_start p q l1 ≡ true → IsEnd q l1 → ⊥)
    × (l2 < l1 → same_start p q l2 ≡ true → IsEnd p l2 → ⊥)

compare_trimmed-Told :
    (p q : List ℕ) (l1 l2 : ℕ) → IsEnd p l1 → Told p l1 q l2 (compare_trimmed p l1 q l2)
unfolding compare_trimmed
compare_trimmed-Told p q l1 l2 end = elim (Bool-cases (ltb l1 l2)) [
  | inl h ↦ rw h (ground arith)
  | inr h ↦ elim (Bool-cases (l1 == l2)) [
    | inl e ↦
        (let end2 : IsEnd p l2 = subst (IsEnd p) (ground arith) end in
          rw (h, e) (ground (arith, end2)))
    | inr e ↦ rw (h, e) (ground arith)
  ]
]

-- The first `n` bytes of the paths are the same.
abbrev pub Same : List ℕ → List ℕ → ℕ → Type 0
Same p q n = (k : ℕ) → k < n → byte_at p k ≡ byte_at q k

-- What an answer means: of the paths without a last slash, they have the same bytes, or all bytes of
-- the shorter are the first of the longer, where a component ends, or one path is empty or none of
-- these holds.
abbrev pub Means : List ℕ → ℕ → List ℕ → ℕ → Comparison → Type 0
Means p l1 q l2 paths_are_equal = (l1 ≡ l2) × Same p q l1
Means p l1 q l2 path1_is_prefix = (l1 < l2) × Same p q l1 × IsEnd q l1
Means p l1 q l2 path2_is_prefix = (l2 < l1) × Same p q l2 × IsEnd p l2
Means p l1 q l2 paths_are_not_comparable =
    (length p ≡ 0)
    ⊎ ((length q ≡ 0)
        ⊎ ((l1 ≡ l2 → Same p q l1 → ⊥)
            × (l1 < l2 → Same p q l1 → IsEnd q l1 → ⊥)
            × (l2 < l1 → Same p q l2 → IsEnd p l2 → ⊥)))

Same-start : (p q : List ℕ) (n : ℕ) → same_start p q n ≡ true → Same p q n
Same-start p q n e k h =
    same_range-byte p q 0 n k (sym (same_start-eq p q n) ∙ e) (omega arith) (omega arith)

range-Same :
    (p q : List ℕ) (i n : ℕ)
    → ((k : ℕ) → i ≤ k → k < i + n → byte_at p k ≡ byte_at q k)
    → same_range p q i n ≡ true
unfolding same_range
range-Same p q i zero same = refl
range-Same p q i (suc n) same = ground (
  arith,
  same i (omega arith) (omega arith),
  range-Same p q (i + 1) n (λ k a b. same k (omega arith) (omega arith)),
)

start-Same : (p q : List ℕ) (n : ℕ) → Same p q n → same_start p q n ≡ true
start-Same p q n same = same_start-eq p q n ∙ range-Same p q 0 n (λ k a b. same k (omega arith))

Told-Means : (p q : List ℕ) (l1 l2 : ℕ) (c : Comparison) → Told p l1 q l2 c → Means p l1 q l2 c
Told-Means p q l1 l2 paths_are_equal h = (h.0, Same-start p q l1 h.1)
Told-Means p q l1 l2 path1_is_prefix h = (h.0, Same-start p q l1 h.1, h.2)
Told-Means p q l1 l2 path2_is_prefix h = (h.0, Same-start p q l2 h.1, h.2)
Told-Means p q l1 l2 paths_are_not_comparable (equal, first, second) = inr (
    inr (
      (λ e same. equal e (start-Same p q l1 same)),
      (λ lt same end. first lt (start-Same p q l1 same) end),
      (λ lt same end. second lt (start-Same p q l2 same) end),
    ))

-- Where compare_paths answers that the paths are equal, they have the same bytes but for a last
-- slash; where it answers that one is a prefix, all its bytes, a last slash left out, are the first
-- bytes of the other, which is longer and has a slash or its end behind them; and where it answers
-- that they are not comparable, one of them is empty, or they are in none of these three relations.
pub compare_paths-Means :
    (p q : List ℕ) → Means p (trimmed p (length p)) q (trimmed q (length q)) (compare_paths p q)
unfolding compare_paths compare_paths2
compare_paths-Means p q = elim (Bool-cases (length p == 0)) [
  | inl e ↦ rw e (inl (ground arith))
  | inr e ↦ elim (Bool-cases (length q == 0)) [
    | inl f ↦ rw (e, f) (inr (inl (ground arith)))
    | inr f ↦
        rw (e, f)
          (Told-Means p q (trimmed p (length p)) (trimmed q (length q)) _ (
            compare_trimmed-Told p q (trimmed p (length p)) (trimmed q (length q))
              (trimmed-IsEnd p)))
  ]
]
