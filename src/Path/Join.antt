-- ===== src/Path/Join.antt =====
-- src/path/path.c: join_paths.
use neoproot.Base.{
  ℕ, ◌+◌, ◌<◌, ◌≤◌, ◌≡◌, refl, Bool, true, false, not, ◌&&◌, List, [], ◌∷◌, ◌++◌, Option, none,
  some, ltb, leb, ◌==◌, if◌then◌else◌, Bool-cases, inl, inr, arith, All, length, length-append,
  drop,
}
use neoproot.Path.{slash, byte_at, path_max}

-- The byte in front of the terminator.
abbrev pub last_byte : List ℕ → ℕ
last_byte [] = 0
last_byte (x ∷ []) = x
last_byte (x ∷ y ∷ l) = last_byte (y ∷ l)

abbrev pub need_slash : List ℕ → List ℕ → Bool
need_slash result path =
    ltb 0 (length result) && not (last_byte result == slash) && not (byte_at path 0 == slash)

abbrev pub has_both : List ℕ → List ℕ → Bool
has_both result path = ltb 0 (length result) && last_byte result == slash && byte_at path 0 == slash

abbrev pub joined : List ℕ → List ℕ → List ℕ
joined result path =
    if need_slash result path
    then result ++ slash ∷ path
    else if has_both result path
    then result ++ drop 1 path
    else result ++ path

-- One round of join_paths on a path that is not empty; none where the result would be too long.
unfoldable pub join_one : List ℕ → List ℕ → Option (List ℕ)
join_one result path =
    if leb path_max (length result + length path + (if need_slash result path then 1 else 0) + 1)
    then none
    else some (joined result path)

-- The loop of join_paths; none stands for a null pointer among the paths, and for -ENAMETOOLONG.
unfoldable pub join_from : List ℕ → List (Option (List ℕ)) → Option (List ℕ)
unfolding join_one
join_from result [] = some result
join_from result (none ∷ ps) = join_from result ps
join_from result (some [] ∷ ps) = join_from result ps
join_from result (some (x ∷ p) ∷ ps) = elim (join_one result (x ∷ p)) [
  | none ↦ none
  | some r ↦ join_from r ps
]

-- join_paths.
unfoldable pub join_paths : List (Option (List ℕ)) → Option (List ℕ)
unfolding join_from
join_paths ps = join_from [] ps

-- No two slashes in a row.
unfoldable pub IsClean : List ℕ → Type 0
IsClean [] = Unit {0}
IsClean (x ∷ l) = ((x == slash && byte_at l 0 == slash) ≡ false) × IsClean l

append-IsClean :
    (a b : List ℕ)
    → IsClean a
    → IsClean b
    → (ltb 0 (length a) && last_byte a == slash && byte_at b 0 == slash) ≡ false
    → IsClean (a ++ b)
unfolding IsClean
append-IsClean [] b h k n = k
append-IsClean (x ∷ []) b h k n = (ground arith, k)
append-IsClean (x ∷ y ∷ l) b (h, t) k n = (h, append-IsClean (y ∷ l) b t k (ground arith))

drop-IsClean : (p : List ℕ) → IsClean p → IsClean (drop 1 p)
unfolding IsClean
drop-IsClean [] h = tt
drop-IsClean (x ∷ p) h = h.1

dropped-start :
    (p : List ℕ) → IsClean p → byte_at p 0 ≡ slash → (byte_at (drop 1 p) 0 == slash) ≡ false
unfolding IsClean
dropped-start [] h e = ground arith
dropped-start (x ∷ p) h e = ground (arith, h.0)

slash-IsClean : (p : List ℕ) → IsClean p → (byte_at p 0 == slash) ≡ false → IsClean (slash ∷ p)
unfolding IsClean
slash-IsClean p h n = (ground (arith, n), h)

both-start : (r p : List ℕ) → has_both r p ≡ true → byte_at p 0 ≡ slash
both-start r p e = ground arith

joined-IsClean : (r p : List ℕ) → IsClean r → IsClean p → IsClean (joined r p)
joined-IsClean r p h k = elim (Bool-cases (need_slash r p)) [
  | inl e ↦ rw e (append-IsClean r (slash ∷ p) h (slash-IsClean p k (ground arith)) (ground arith))
  | inr n ↦ rw n (elim (Bool-cases (has_both r p)) [
    | inl e ↦ rw e (
        append-IsClean r (drop 1 p) h (drop-IsClean p k)
          (ground (arith, dropped-start p k (both-start r p e))))
    | inr e ↦ rw e (append-IsClean r p h k e)
  ])
]

drop-short : (p : List ℕ) → length (drop 1 p) ≤ length p
drop-short [] = omega arith
drop-short (x ∷ p) = omega arith

joined-short : (r p : List ℕ) → length (joined r p) ≤ length r + length p + 1
joined-short r p = elim (Bool-cases (need_slash r p)) [
  | inl e ↦ rw e (omega (arith, length-append r (slash ∷ p)))
  | inr n ↦ rw n (elim (Bool-cases (has_both r p)) [
    | inl e ↦ rw e (omega (arith, length-append r (drop 1 p), drop-short p))
    | inr e ↦ rw e (omega (arith, length-append r p))
  ])
]

join_one-eq : (r p : List ℕ) → length r + length p + 2 < path_max → join_one r p ≡ some (joined r p)
unfolding join_one
join_one-eq r p lt = ground arith

-- The bytes of the paths, with one more for each.
abbrev pub room : List (Option (List ℕ)) → ℕ
room [] = 0
room (none ∷ ps) = room ps
room (some p ∷ ps) = length p + 1 + room ps

abbrev pub IsCleanPath : Option (List ℕ) → Type 0
IsCleanPath none = Unit {0}
IsCleanPath (some p) = IsClean p

abbrev pub Joins : ℕ → Option (List ℕ) → Type 0
Joins most o = (r : List ℕ) × (o ≡ some r) × IsClean r × (length r ≤ most)

join_from-Joins :
    (most : ℕ) (r : List ℕ) (ps : List (Option (List ℕ)))
    → IsClean r
    → All IsCleanPath ps
    → length r + room ps ≤ most
    → most + 1 < path_max
    → Joins most (join_from r ps)
unfolding join_from
join_from-Joins most r [] h k le lt = (r, refl, h, omega arith)
join_from-Joins most r (none ∷ ps) h k le lt = join_from-Joins most r ps h k.1 le lt
join_from-Joins most r (some [] ∷ ps) h k le lt = join_from-Joins most r ps h k.1 (omega arith) lt
join_from-Joins most r (some (x ∷ p) ∷ ps) h k le lt =
    rw (join_one-eq r (x ∷ p) (omega (arith, le, lt)), join_from)
      (join_from-Joins most (joined r (x ∷ p)) ps (joined-IsClean r (x ∷ p) h k.0) k.1
        (omega (arith, joined-short r (x ∷ p), le)) lt)

-- Where the paths have no two slashes in a row, and fit with one byte more for each, join_paths
-- succeeds, and its result has no two slashes in a row and at most those bytes.
pub join_paths-Joins :
    (ps : List (Option (List ℕ)))
    → All IsCleanPath ps
    → room ps + 1 < path_max
    → Joins (room ps) (join_paths ps)
unfolding join_paths IsClean
join_paths-Joins ps k lt = join_from-Joins (room ps) [] ps tt k (omega arith) lt
