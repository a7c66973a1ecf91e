-- ===== src/Path.antt =====
-- src/path/path.c: comparing paths, and replacing a prefix of a path. A path is the list of its bytes
-- up to the terminator, which reads as 0 at the end.
pub mod Compare
pub mod Substitute
pub mod Join
pub mod Tests
use neoproot.Base.{
  ℕ, zero, suc, ◌+◌, ◌-◌, ◌*◌, ◌/◌, ◌%◌, ◌^◌, Bool, true, false, not, ◌&&◌, ◌||◌, List, [], ◌∷◌,
  ◌++◌, ltb, leb, ◌==◌, if◌then◌else◌, length, take, drop,
}

pub data Comparison : Type 0 where
  paths_are_equal path1_is_prefix path2_is_prefix paths_are_not_comparable : Comparison

abbrev pub slash : ℕ
slash = 47

abbrev pub byte_at : List ℕ → ℕ → ℕ
byte_at [] i = 0
byte_at (b ∷ bs) zero = b
byte_at (b ∷ bs) (suc i) = byte_at bs i

-- The `n` bytes from `i` on are the same in both paths: one comparison of a vector, or the plain loop.
unfoldable pub same_range : List ℕ → List ℕ → ℕ → ℕ → Bool
same_range p q i zero = true
same_range p q i (suc n) = byte_at p i == byte_at q i && same_range p q (i + 1) n

-- The loop over vectors of 16 bytes.
unfoldable pub same_vectors : List ℕ → List ℕ → ℕ → ℕ → Bool
same_vectors p q i zero = true
same_vectors p q i (suc n) = same_range p q i 16 && same_vectors p q (i + 16) n

-- Both loops, over the first `n` bytes.
unfoldable pub same_start : List ℕ → List ℕ → ℕ → Bool
same_start p q n = same_vectors p q 0 (n / 16) && same_range p q (n / 16 * 16) (n % 16)

-- A length without the last byte if that is a slash.
abbrev pub trimmed : List ℕ → ℕ → ℕ
trimmed p len = if byte_at p (len - 1) == slash then len - 1 else len

abbrev pub order : ℕ → ℕ → Comparison
order l1 l2 =
    if l1 == l2 then paths_are_equal else if ltb l1 l2 then path1_is_prefix else path2_is_prefix

-- The part of compare_paths2 that follows the cut of the last slashes.
unfoldable pub compare_trimmed : List ℕ → ℕ → List ℕ → ℕ → Comparison
compare_trimmed p l1 q l2 =
    let min_len = if ltb l1 l2 then l1 else l2 in
    let end = if ltb l1 l2 then byte_at q min_len else byte_at p min_len in
    if not (end == slash) && not (end == 0)
    then paths_are_not_comparable
    else if not (same_start p q min_len)
    then paths_are_not_comparable
    else order l1 l2

unfoldable pub compare_paths2 : List ℕ → ℕ → List ℕ → ℕ → Comparison
unfolding compare_trimmed
compare_paths2 p l1 q l2 =
    if l1 == 0 || l2 == 0
    then paths_are_not_comparable
    else compare_trimmed p (trimmed p l1) q (trimmed q l2)

unfoldable pub compare_paths : List ℕ → List ℕ → Comparison
unfolding compare_paths2
compare_paths p q = compare_paths2 p (length p) q (length q)

abbrev pub path_max : ℕ
path_max = 4096

-- `-ENAMETOOLONG` as a `size_t`.
abbrev pub name_too_long : ℕ
name_too_long = 2 ^ 64 - 36

-- A result of substitute_path_prefix: the length that it returns, and the path.
abbrev pub fits : ℕ → List ℕ → List ℕ → ℕ × List ℕ
fits new_len path result = if leb path_max new_len then (name_too_long, path) else (new_len, result)

-- The prefix to replace is no longer than the path: a longer one makes the source copy out of bounds.
unfoldable pub substitute_path_prefix : List ℕ → ℕ → List ℕ → ℕ → ℕ × List ℕ
substitute_path_prefix path old_prefix_len new_prefix new_prefix_len =
    let path_len = length path in
    let put = take new_prefix_len new_prefix in
    if new_prefix_len == 1
    then (if path_len - old_prefix_len == 0
        then (1, slash ∷ [])
        else (path_len - old_prefix_len, drop old_prefix_len path))
    else if old_prefix_len == 1
    then (if path_len == 1
        then fits new_prefix_len path put
        else fits (new_prefix_len + path_len) path (put ++ path))
    else fits (new_prefix_len + (path_len - old_prefix_len)) path (put ++ drop old_prefix_len path)
