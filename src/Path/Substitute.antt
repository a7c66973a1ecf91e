-- ===== src/Path/Substitute.antt =====
-- substitute_path_prefix of src/path/path.c.
use neoproot.Base.{
  ℕ, ◌+◌, ◌<◌, ◌≡◌, refl, ap, List, [], ◌∷◌, ◌++◌, arith, length, take, drop, ◌==◌, if◌then◌else◌,
  length-append,
}
use neoproot.Path.{slash, path_max, substitute_path_prefix}

drop-append : (p r : List ℕ) → drop (length p) (p ++ r) ≡ r
drop-append [] r = refl
drop-append (x ∷ p) r = drop-append p r

take-length : (p : List ℕ) → take (length p) p ≡ p
take-length [] = refl
take-length (x ∷ p) = ap (λ r. x ∷ r) (take-length p)

-- The prefix `old` of a path is replaced by `new`, where neither is "/" and the result is below the
-- limit.
pub substitute_path_prefix-eq :
    (old new rest : List ℕ)
    → 1 < length old
    → 1 < length new
    → length new + length rest < path_max
    → substitute_path_prefix (old ++ rest) (length old) new (length new)
      ≡ (length new + length rest, new ++ rest)
unfolding substitute_path_prefix
substitute_path_prefix-eq old new rest a b small =
    rw (drop-append old rest, take-length new, length-append old rest) (ground arith)

-- Replacing a prefix and then replacing it back gives the path again, with the lengths, where neither
-- prefix is "/" and both paths are below the limit.
pub substitute_path_prefix_back :
    (old new rest : List ℕ)
    → 1 < length old
    → 1 < length new
    → length new + length rest < path_max
    → length old + length rest < path_max
    → substitute_path_prefix
        (substitute_path_prefix (old ++ rest) (length old) new (length new)).1
        (length new)
        old
        (length old)
      ≡ (length old + length rest, old ++ rest)
substitute_path_prefix_back old new rest a b k l =
    rw (substitute_path_prefix-eq old new rest a b k) (substitute_path_prefix-eq new old rest b a l)

root-eq :
    (new rest : List ℕ)
    → 1 < length new
    → length new + 1 + length rest < path_max
    → (substitute_path_prefix (slash ∷ rest) 1 new (length new)).1
      ≡ (if length rest == 0 then new else new ++ slash ∷ rest)
unfolding substitute_path_prefix
root-eq new rest b k = rw (take-length new) (ground arith)

whole : (new : List ℕ) → drop (length new) new ≡ []
whole [] = refl
whole (x ∷ new) = whole new

-- From the root of the guest to a host directory and back: every absolute path comes back, the root
-- itself included, where the host path is below the limit.
substitute_root_back :
    (new rest : List ℕ)
    → 1 < length new
    → length new + 1 + length rest < path_max
    → (substitute_path_prefix
        (substitute_path_prefix (slash ∷ rest) 1 new (length new)).1
        (length new)
        (slash ∷ [])
        1).1
      ≡ slash ∷ rest
unfolding substitute_path_prefix
substitute_root_back new [] b k = rw (root-eq new [] b k) (ground arith)
substitute_root_back new (r ∷ rest) b k =
    let first : (substitute_path_prefix (slash ∷ r ∷ rest) 1 new (length new)).1
        ≡ new ++ slash ∷ r ∷ rest =
      ground (arith, root-eq new (r ∷ rest) b k) in
    rw (first, length-append new (slash ∷ r ∷ rest), drop-append new (slash ∷ r ∷ rest))
      (ground arith)
