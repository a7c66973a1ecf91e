-- ===== src/Bindings/Tests.antt =====
-- Witnesses at concrete inputs, with an insertion sort in the place of qsort.
use neoproot.Base.{ℕ, zero, suc, ◌≡◌, refl, true, false, List, [], ◌∷◌, none, some, inl, inr, arith}
use mathlib.Core.Path.{subst}
use mathlib.Core.Option.{some-injective}
use neoproot.Path.{compare_paths2, same_start, same_vectors, same_range}
use neoproot.Dirfds.{dirfd_cache_init}
use neoproot.Bindings.{guest, host, Binding, Fs, get_binding, root_path}
use neoproot.Bindings.Insort.{new_binding, insort_binding}
use neoproot.Bindings.Cache.{
  IsCoherent, step, look, root, add, take_out, run_bindings, run_bindings-IsCoherent,
}
use neoproot.Bindings.Cleared.{IsReady, change-NoneBelow}
use neoproot.Dirfds.Tests.{used, used-IsUnique}
use neoproot.Dirfds.Cleared.{NoneBelow}
use neoproot.Bindings.Under.{IsPlace}
use neoproot.Bindings.Longest.{Places, IsBest, get_binding-IsBest}
use neoproot.Bindings.Misplaced.{insort_binding-misplaced}
use neoproot.Bindings.Sorted.{sorted, sorted-permutes, sorted-Descending}

-- "/a", and "/a/b".
abbrev place : List ℕ
place = 47 ∷ 97 ∷ []

abbrev inner_place : List ℕ
inner_place = 47 ∷ 97 ∷ 47 ∷ 98 ∷ []

-- "/a/b/c".
abbrev file : List ℕ
file = 47 ∷ 97 ∷ 47 ∷ 98 ∷ 47 ∷ 99 ∷ []

abbrev root_binding : Binding
root_binding = new_binding 1 (47 ∷ 104 ∷ []) root_path 0

abbrev inner_binding : Binding
inner_binding = new_binding 2 (47 ∷ 120 ∷ []) inner_place 0

abbrev two_bindings : Fs
two_bindings = record {
  guest_list = root_binding ∷ inner_binding ∷ [];
  host_list = root_binding ∷ inner_binding ∷ [];
  pending_list = [];
  entries = none;
  cached_root = none;
  has_cache = false;
  pid = 11;
  dirfds = dirfd_cache_init;
}

two_bindings-Places : Places two_bindings.guest_list
two_bindings-Places c (zero, e) =
    subst (λ b. IsPlace b.layer.guest_path) (some-injective root_binding c e) (omega arith)
two_bindings-Places c (suc zero, e) =
    subst (λ b. IsPlace b.layer.guest_path) (some-injective inner_binding c e) (omega arith)
two_bindings-Places c (suc (suc i), e) = cc

get_binding-IsBest_example :
    (b : Binding) × ((get_binding sorted two_bindings guest file).0 ≡ some b)
    × IsBest file two_bindings.guest_list (some b)
get_binding-IsBest_example =
    get_binding-IsBest sorted sorted-permutes sorted-Descending two_bindings file inner_binding
      (inl refl) two_bindings-Places refl (1, refl) (47 ∷ 99 ∷ [], refl, inr refl)

run_bindings-IsCoherent_example : IsCoherent sorted (
    run_bindings sorted two_bindings
      (look guest file ∷ add 3 (47 ∷ 121 ∷ []) place 0 ∷ look guest file ∷ root ∷ take_out 2 ∷ []))
run_bindings-IsCoherent_example =
    run_bindings-IsCoherent sorted two_bindings
      (look guest file ∷ add 3 (47 ∷ 121 ∷ []) place 0 ∷ look guest file ∷ root ∷ take_out 2 ∷ [])
      (inl refl)

-- The host paths "/a" and "/", in the order in which a lookup visits them.
abbrev outer_host : Binding
outer_host = new_binding 4 place (47 ∷ 111 ∷ []) 0

abbrev root_host : Binding
root_host = new_binding 5 root_path (47 ∷ 114 ∷ []) 0

abbrev inner_host : Binding
inner_host = new_binding 6 inner_place (47 ∷ 105 ∷ []) 0

abbrev nested : Fs
nested = record two_bindings { host_list = outer_host ∷ root_host ∷ [] }

insort_binding-misplaced_example :
    ((insort_binding host inner_host nested).1.host_list ≡ outer_host ∷ inner_host ∷ root_host ∷ [])
    × ((get_binding sorted (insort_binding host inner_host nested).1 host file).0 ≡ some outer_host)
unfolding compare_paths2 same_start same_vectors same_range
insort_binding-misplaced_example =
    insort_binding-misplaced sorted inner_host outer_host root_host [] nested file refl refl refl tt
      refl refl

-- The bindings of the process 11, which has a translated descriptor.
abbrev looked_at : Fs
looked_at = record two_bindings { has_cache = true; dirfds = used }

looked_at-IsReady : IsReady 11 looked_at
looked_at-IsReady = record { made = refl; mine = refl; unique = used-IsUnique }

change-NoneBelow_example :
    NoneBelow 11 64
      (run_bindings sorted
        (step sorted looked_at (add 3 (47 ∷ 121 ∷ []) place 0))
        (look guest file ∷ take_out 2 ∷ [])).dirfds.slots
change-NoneBelow_example =
    change-NoneBelow 11 refl sorted looked_at (add 3 (47 ∷ 121 ∷ []) place 0)
      (look guest file ∷ take_out 2 ∷ []) refl looked_at-IsReady
