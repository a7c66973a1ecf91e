-- ===== src/Bindings/Insort.antt =====
-- src/path/binding.c: how bindings are put in and taken out of the lists.
use neoproot.Base.{
  ℕ, zero, suc, ◌+◌, Bool, true, false, not, List, [], ◌∷◌, Option, none, some, ◌==◌, if◌then◌else◌,
  length,
}
use neoproot.Path.{
  paths_are_equal, path1_is_prefix, path2_is_prefix, paths_are_not_comparable, compare_paths2,
  compare_paths,
}
use neoproot.Bindings.{
  Side, guest, host, pending, Layer, Binding, Fs, path_on, list_of, invalidate_binding_cache,
  is_equal,
}

abbrev pub insert_at : ℕ → Binding → List Binding → List Binding
insert_at zero b l = b ∷ l
insert_at (suc i) b [] = b ∷ []
insert_at (suc i) b (c ∷ l) = c ∷ insert_at i b l

-- A list without the binding at this address.
unfoldable pub without : ℕ → List Binding → List Binding
without address [] = []
without address (b ∷ l) =
    let rest = without address l in if b.layer.address == address then l else b ∷ rest

-- remove_binding_from_all_lists.
unfoldable pub remove_binding_from_all_lists : Fs → ℕ → Fs
unfolding without
remove_binding_from_all_lists fs address =
    let fs1 = invalidate_binding_cache fs in
    record fs1 {
      guest_list = without address fs1.guest_list;
      host_list = without address fs1.host_list;
      pending_list = without address fs1.pending_list;
    }

-- What the loop of insort_binding ends with: a binding of the same path and its index, or `prev` and
-- `next`, by their indices. No index stands for a null pointer and for the first element.
pub data Spot : Type 0 where
  same_path : ℕ → Binding → Spot
  between : Option ℕ → Option ℕ → Spot

abbrev pub is_host : Side → Bool
is_host host = true
is_host guest = false
is_host pending = false

-- `next == CIRCLEQ_FIRST`: the first element itself leaves `next` as it is.
abbrev pub next_at : ℕ → Option ℕ → Option ℕ
next_at i (some n) = some n
next_at zero none = none
next_at (suc i) none = some (suc i)

-- The loop from the index `i` on.
unfoldable pub spot : Side → Layer → List Binding → ℕ → Option ℕ → Option ℕ → Spot
spot side b [] i prev next = between prev next
spot side b (c ∷ l) i prev next =
    elim (compare_paths2 (path_on side b) (length (path_on side b)) (path_on side c.layer)
      (length (path_on side c.layer))) [
        | paths_are_equal ↦ if is_host side then between (some i) next else same_path i c
        | path1_is_prefix ↦ spot side b l (i + 1) (some i) next
        | path2_is_prefix ↦ spot side b l (i + 1) prev (next_at i next)
        | paths_are_not_comparable ↦ spot side b l (i + 1) prev next
      ]

abbrev pub put_between : Binding → List Binding → Option ℕ → Option ℕ → List Binding
put_between b l (some i) next = insert_at (i + 1) b l
put_between b l none (some i) = insert_at i b l
put_between b l none none = insert_at 0 b l

abbrev pub put_list : Side → List Binding → Fs → Fs
put_list guest l fs = record fs { guest_list = l }
put_list host l fs = record fs { host_list = l }
put_list pending l fs = record fs { pending_list = l }

-- The binding with what it covers now, and the lists.
unfoldable pub put : Side → Binding → Fs → Spot → Binding × Fs
unfolding remove_binding_from_all_lists
put side b fs (between prev next) =
    (b, put_list side (put_between b (list_of side fs) prev next) fs)
put side b fs (same_path i c) =
    let b1 : Binding = record b { covered = c.layer ∷ c.covered } in
    (
      b1,
      remove_binding_from_all_lists (put_list side (insert_at (i + 1) b1 (list_of side fs)) fs)
          c.layer.address,
    )

abbrev pub invalidated_for : Side → Fs → Fs
invalidated_for guest fs = invalidate_binding_cache fs
invalidated_for host fs = fs
invalidated_for pending fs = fs

-- insort_binding.
unfoldable pub insort_binding : Side → Binding → Fs → Binding × Fs
unfolding put spot
insort_binding side b fs =
    let fs1 = invalidated_for side fs in
    put side b fs1 (spot side b.layer (list_of side fs1) 0 none none)

-- insort_binding2.
unfoldable pub insort_binding2 : Binding → Fs → Binding × Fs
unfolding insort_binding
insort_binding2 b fs =
    let equal = is_equal (compare_paths b.layer.host_path b.layer.guest_path) in
    let b1 : Binding = record b { layer = record (b.layer) { need_substitution = not equal } } in
    let (b2, fs1) = insort_binding guest b1 fs in insort_binding host b2 fs1

abbrev pub restored : List Layer → Fs → Fs
restored [] fs = fs
restored (l ∷ ls) fs = (insort_binding2 (record { layer = l; covered = ls }) fs).1

-- remove_binding_and_restore_covered.
unfoldable pub remove_binding_and_restore_covered : Binding → Fs → Fs
remove_binding_and_restore_covered b fs =
    restored b.covered (remove_binding_from_all_lists fs b.layer.address)

abbrev pub new_binding : ℕ → List ℕ → List ℕ → ℕ → Binding
new_binding address host_path guest_path mount_kind = record {
  layer = record {
    address = address;
    host_path = host_path;
    guest_path = guest_path;
    need_substitution = false;
    readonly = false;
    source_readonly = false;
    mount_flags = 0;
    source_mount_flags = 0;
    mount_kind = mount_kind;
  };
  covered = [];
}

-- insort_binding4, with the address of the new binding.
unfoldable pub insort_binding4 : ℕ → List ℕ → List ℕ → ℕ → Fs → Binding × Fs
unfolding insort_binding2
insort_binding4 address host_path guest_path mount_kind fs =
    insort_binding2 (new_binding address host_path guest_path mount_kind) fs
