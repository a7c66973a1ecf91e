-- ===== src/Path/Tests.antt =====
-- Witnesses and runs at concrete inputs.
use neoproot.Base.{ℕ, ◌≡◌, refl, List, [], ◌∷◌, ◌++◌, arith}
use neoproot.Base.{All, Option, none, some}
use neoproot.Path.Join.{IsClean, IsCleanPath, Joins, room, join_paths, join_paths-Joins}
use neoproot.Path.{
  slash, same_start, same_range, same_vectors, compare_trimmed, compare_paths, compare_paths2,
  path1_is_prefix, paths_are_not_comparable, substitute_path_prefix,
}
use neoproot.Path.Compare.{Means, compare_paths-Means}
use neoproot.Path.Substitute.{substitute_path_prefix_back}

-- "/a/"
abbrev dir : List ℕ
dir = slash ∷ 97 ∷ slash ∷ []

-- "/a/b"
abbrev file : List ℕ
file = slash ∷ 97 ∷ slash ∷ 98 ∷ []

-- "/data/r"
abbrev rootfs : List ℕ
rootfs = slash ∷ 100 ∷ 97 ∷ 116 ∷ 97 ∷ slash ∷ 114 ∷ []

dir_before_file : compare_paths dir file ≡ path1_is_prefix
unfolding compare_paths compare_paths2 compare_trimmed same_start same_range same_vectors
dir_before_file = refl

-- "/a" is no prefix of "/ab".
no_prefix_inside_name :
    compare_paths (slash ∷ 97 ∷ []) (slash ∷ 97 ∷ 98 ∷ []) ≡ paths_are_not_comparable
unfolding compare_paths compare_paths2 compare_trimmed same_start same_range same_vectors
no_prefix_inside_name = refl

compare_paths-Means_example : Means dir 2 file 4 (compare_paths dir file)
compare_paths-Means_example = compare_paths-Means dir file

substitute_path_prefix_back_example :
    substitute_path_prefix (substitute_path_prefix (dir ++ file) 3 rootfs 7).1 7 dir 3
    ≡ (7, dir ++ file)
substitute_path_prefix_back_example =
    substitute_path_prefix_back dir rootfs file (omega arith) (omega arith) (omega arith)
      (omega arith)

-- "/a/" and "/b" and "c", with a null pointer between.
abbrev three_paths : List (Option (List ℕ))
three_paths = some (47 ∷ 97 ∷ 47 ∷ []) ∷ some (47 ∷ 98 ∷ []) ∷ none ∷ some (99 ∷ []) ∷ []

three_paths-IsCleanPath : All IsCleanPath three_paths
unfolding IsClean
three_paths-IsCleanPath = ground arith

join_paths-Joins_example : Joins (room three_paths) (join_paths three_paths)
join_paths-Joins_example = join_paths-Joins three_paths three_paths-IsCleanPath (omega arith)
