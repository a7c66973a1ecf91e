-- ===== src/Cwd/Tests.antt =====
-- The working directory at concrete bindings, with an insertion sort in the place of qsort.
use neoproot.Base.{ℕ, ◌≡◌, refl, true, false, List, [], ◌∷◌, ◌++◌, none, some}
use neoproot.Path.{
  compare_paths2, compare_trimmed, same_start, same_vectors, same_range, substitute_path_prefix,
}
use neoproot.Dirfds.{dirfd_cache_init}
use neoproot.Bindings.{Binding, root_path, is_best, first_best, get_binding, substitute_binding}
use neoproot.Bindings.Insort.{new_binding}
use neoproot.Bindings.Sorted.{sorted}
use neoproot.Cwd.{
  View, oldroot, path_has_prefix, same_host, is_candidate, longest_host, rebase_to, rebase_by,
  is_still_alias, rebase_at, rebase_from, rebase_cwd_alias, chop_finality,
}
use neoproot.Cwd.Rebased.{Rebased, rebase_cwd_alias-Rebased}

abbrev substituted : ℕ → List ℕ → List ℕ → Binding
substituted address host_path guest_path =
    let b = new_binding address host_path guest_path 0 in
    record b { layer = record (b.layer) { need_substitution = true } }

-- The root and its alias are "/h" on the host, and "/a" is "/h/d".
abbrev bindings : List Binding
bindings =
    substituted 1 (47 ∷ 104 ∷ 47 ∷ 100 ∷ []) (47 ∷ 97 ∷ [])
    ∷ substituted 2 (47 ∷ 104 ∷ []) oldroot
    ∷ substituted 3 (47 ∷ 104 ∷ []) root_path
    ∷ []

-- In "/oldroot/d/x".
abbrev after_pivot : View
after_pivot = record {
  fs = record {
    guest_list = bindings;
    host_list = [];
    pending_list = [];
    entries = none;
    cached_root = none;
    has_cache = false;
    pid = 11;
    dirfds = dirfd_cache_init;
  };
  cwd = oldroot ++ 47 ∷ 100 ∷ 47 ∷ 120 ∷ [];
  cwd_alias_prefix = some oldroot;
}

abbrev moved_path : List ℕ
moved_path = 47 ∷ 97 ∷ 47 ∷ 120 ∷ []

moves_to_a : (rebase_cwd_alias sorted after_pivot).1.cwd ≡ moved_path
unfolding rebase_cwd_alias rebase_from get_binding path_has_prefix rebase_at is_still_alias
    same_host substitute_binding rebase_by longest_host is_candidate rebase_to
    substitute_path_prefix compare_paths2 compare_trimmed same_start same_vectors same_range
    first_best is_best
moves_to_a = refl

rebase_cwd_alias-Rebased_example :
    Rebased sorted after_pivot
      ((rebase_cwd_alias sorted after_pivot).0, (rebase_cwd_alias sorted after_pivot).1.cwd)
rebase_cwd_alias-Rebased_example = rebase_cwd_alias-Rebased sorted after_pivot

-- "/a/b." becomes "/a/".
chops_dot : chop_finality (47 ∷ 97 ∷ 47 ∷ 98 ∷ 46 ∷ []) ≡ 47 ∷ 97 ∷ 47 ∷ []
unfolding chop_finality
chops_dot = refl
