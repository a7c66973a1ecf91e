-- ===== src/Bindings/Cleared.antt =====
-- src/path/binding.c, src/path/path.c: a change of the bindings clears the translated descriptors.
use neoproot.Base.{
  ℕ, ◌+◌, Option, none, some, Bool-cases, inl, inr, ◌≡◌, refl, sym, Bool, true, false, not, List,
  [], ◌∷◌, ◌==◌,
}
use mathlib.Core.Path.{subst}
use neoproot.Path.{compare_paths, byte_at, slash}
use neoproot.Dirfds.{Dirfds, dirfd_cache_size, clear_translated_dirfds}
use neoproot.Dirfds.Unique.{IsUnique, forget_from-IsUnique}
use neoproot.Dirfds.Cleared.{NoneBelow, clear_translated_dirfds-NoneBelow}
use neoproot.Bindings.{
  invalidate_binding_cache, get_binding_cache, root_path, Side, guest, host, pending, Layer,
  Binding, Fs, get_root, root_by, root_of, get_binding, find_best_prefix, build_guest_binding_cache,
  substitute_binding, is_equal, list_of, or_else, last_of,
}
use neoproot.Bindings.Insort.{
  Spot, same_path, between, put, insort_binding, insort_binding2, insort_binding4, restored,
  new_binding, remove_binding_from_all_lists, remove_binding_and_restore_covered, spot, put_list,
  insert_at,
}
use neoproot.Bindings.Cache.{
  Op, look, substitute, root, add, add_pending, take_out, remove_and_restore, step, run_bindings,
}

-- The cache of this tracee was made, and no two slots hold the same descriptor.
pub record IsReady (p : ℕ) (fs : Fs) : Type 0 where
  pub made : fs.has_cache ≡ true
  pub mine : fs.pid ≡ p
  pub unique : IsUnique fs.dirfds.slots

-- And no slot holds a descriptor of it.
pub record IsClean (p : ℕ) (fs : Fs) : Type 0 where
  pub ready : IsReady p fs
  pub clear : NoneBelow p dirfd_cache_size fs.dirfds.slots

module _ (p : ℕ) (real : (p == 0) ≡ false) where
  invalidated-dirfds :
      (fs : Fs)
      → IsReady p fs
      → (invalidate_binding_cache fs).dirfds ≡ clear_translated_dirfds fs.dirfds p
  unfolding invalidate_binding_cache
  invalidated-dirfds fs r = rw (r.made, r.mine, real) refl

  cleared-IsUnique : (c : Dirfds) → IsUnique c.slots → IsUnique (clear_translated_dirfds c p).slots
  unfolding clear_translated_dirfds
  cleared-IsUnique c u = forget_from-IsUnique (λ s. true) p dirfd_cache_size 0 c u

  invalidate-IsClean : (fs : Fs) → IsReady p fs → IsClean p (invalidate_binding_cache fs)
  unfolding invalidate_binding_cache
  invalidate-IsClean fs r =
      let e = sym (invalidated-dirfds fs r) in
      record {
        ready = record {
          made = r.made;
          mine = r.mine;
          unique = subst (λ c. IsUnique c.slots) e (cleared-IsUnique fs.dirfds r.unique);
        };
        clear =
            subst (λ c. NoneBelow p dirfd_cache_size c.slots) e
              (clear_translated_dirfds-NoneBelow fs.dirfds p r.unique);
      }

  removed-IsClean :
      (fs : Fs) (address : ℕ) → IsReady p fs → IsClean p (remove_binding_from_all_lists fs address)
  unfolding remove_binding_from_all_lists
  removed-IsClean fs address r =
      let c = invalidate-IsClean fs r in
      record {
        ready = record { made = c.ready.made; mine = c.ready.mine; unique = c.ready.unique };
        clear = c.clear;
      }

  put_list-IsClean :
      (side : Side) (l : List Binding) (fs : Fs) → IsClean p fs → IsClean p (put_list side l fs)
  put_list-IsClean guest l fs c = record {
    ready = record { made = c.ready.made; mine = c.ready.mine; unique = c.ready.unique };
    clear = c.clear;
  }
  put_list-IsClean host l fs c = record {
    ready = record { made = c.ready.made; mine = c.ready.mine; unique = c.ready.unique };
    clear = c.clear;
  }
  put_list-IsClean pending l fs c = record {
    ready = record { made = c.ready.made; mine = c.ready.mine; unique = c.ready.unique };
    clear = c.clear;
  }

  put-IsClean :
      (side : Side) (b : Binding) (fs : Fs) (s : Spot)
      → IsClean p fs
      → IsClean p (put side b fs s).1
  unfolding put
  put-IsClean side b fs (between prev next) c = put_list-IsClean side _ fs c
  put-IsClean side b fs (same_path i d) c =
      let b1 : Binding = record b { covered = d.layer ∷ d.covered } in
      let fs1 = put_list side (insert_at (i + 1) b1 (list_of side fs)) fs in
      removed-IsClean fs1 d.layer.address (put_list-IsClean side _ fs c).ready

  insort_guest-IsClean :
      (b : Binding) (fs : Fs) → IsReady p fs → IsClean p (insort_binding guest b fs).1
  unfolding insort_binding
  insort_guest-IsClean b fs r =
      let fs1 = invalidate_binding_cache fs in
      put-IsClean guest b fs1 (spot guest b.layer fs1.guest_list 0 none none)
        (invalidate-IsClean fs r)

  insort-IsClean :
      (side : Side) (b : Binding) (fs : Fs) → IsClean p fs → IsClean p (insort_binding side b fs).1
  unfolding insort_binding
  insort-IsClean guest b fs c = insort_guest-IsClean b fs c.ready
  insort-IsClean host b fs c = put-IsClean host b fs (spot host b.layer fs.host_list 0 none none) c
  insort-IsClean pending b fs c =
      put-IsClean pending b fs (spot pending b.layer fs.pending_list 0 none none) c

  insort_binding2-IsClean :
      (b : Binding) (fs : Fs) → IsReady p fs → IsClean p (insort_binding2 b fs).1
  unfolding insort_binding2
  insort_binding2-IsClean b fs r =
      let equal = is_equal (compare_paths b.layer.host_path b.layer.guest_path) in
      let b1 : Binding = record b { layer = record (b.layer) { need_substitution = not equal } } in
      let first = insort_binding guest b1 fs in
      insort-IsClean host first.0 first.1 (insort_guest-IsClean b1 fs r)

  restored-IsClean : (ls : List Layer) (fs : Fs) → IsClean p fs → IsClean p (restored ls fs)
  restored-IsClean [] fs c = c
  restored-IsClean (l ∷ ls) fs c =
      insort_binding2-IsClean (record { layer = l; covered = ls }) fs c.ready

  -- The bindings that are looked up by are changed.
  abbrev pub is_change : Op → Bool
  is_change (add address h g kind) = true
  is_change (take_out address) = true
  is_change (remove_and_restore b) = true
  is_change _ = false

  module _ (sort : List Binding → List Binding) where
    change-IsClean :
        (fs : Fs) (op : Op) → is_change op ≡ true → IsReady p fs → IsClean p (step sort fs op)
    unfolding step insort_binding4 remove_binding_and_restore_covered
    change-IsClean fs (look side path) e r = absurd cc
    change-IsClean fs (substitute side path) e r = absurd cc
    change-IsClean fs root e r = absurd cc
    change-IsClean fs (add_pending b) e r = absurd cc
    change-IsClean fs (add address h g kind) e r =
        insort_binding2-IsClean (new_binding address h g kind) fs r
    change-IsClean fs (take_out address) e r = removed-IsClean fs address r
    change-IsClean fs (remove_and_restore b) e r =
        restored-IsClean b.covered (remove_binding_from_all_lists fs b.layer.address)
          (removed-IsClean fs b.layer.address r)

    get_binding-IsClean :
        (fs : Fs) (side : Side) (path : List ℕ)
        → IsClean p fs
        → IsClean p (get_binding sort fs side path).1
    unfolding get_binding find_best_prefix build_guest_binding_cache
    get_binding-IsClean fs guest path c = elim (Bool-cases (not (byte_at path 0 == slash))) [
      | inl e ↦ rw e c
      | inr e ↦ rw e (record {
        ready = record { made = refl; mine = c.ready.mine; unique = c.ready.unique };
        clear = c.clear;
      })
    ]
    get_binding-IsClean fs host path c = elim (Bool-cases (not (byte_at path 0 == slash))) [
      | inl e ↦ rw e c
      | inr e ↦ rw e c
    ]
    get_binding-IsClean fs pending path c = elim (Bool-cases (not (byte_at path 0 == slash))) [
      | inl e ↦ rw e c
      | inr e ↦ rw e c
    ]

    root_of-IsClean : (fs : Fs) (o : Option Binding) → IsClean p fs → IsClean p (root_of fs o).1
    unfolding root_of
    root_of-IsClean fs none c = c
    root_of-IsClean fs (some b) c =
        elim (Bool-cases (is_equal (compare_paths b.layer.guest_path root_path))) [
          | inl e ↦ rw e (record {
            ready = record { made = c.ready.made; mine = c.ready.mine; unique = c.ready.unique };
            clear = c.clear;
          })
          | inr e ↦ rw e c
        ]

    get_root-IsClean : (fs : Fs) → IsClean p fs → IsClean p (get_root fs).1
    unfolding get_root root_by
    get_root-IsClean fs c = by_cache fs.cached_root
      where
        by_cache : (o : Option (List ℕ)) → IsClean p (root_by (get_binding_cache fs) o).1
        by_cache (some r) = (record {
          ready = record { made = refl; mine = c.ready.mine; unique = c.ready.unique };
          clear = c.clear;
        })
        by_cache none =
            root_of-IsClean (get_binding_cache fs)
              (or_else (last_of fs.guest_list) (last_of fs.pending_list))
              (record {
                ready = record { made = refl; mine = c.ready.mine; unique = c.ready.unique };
                clear = c.clear;
              })

    step-IsClean : (fs : Fs) (op : Op) → IsClean p fs → IsClean p (step sort fs op)
    unfolding step substitute_binding
    step-IsClean fs (look side path) c = get_binding-IsClean fs side path c
    step-IsClean fs (substitute side path) c = get_binding-IsClean fs side path c
    step-IsClean fs root c = get_root-IsClean fs c
    step-IsClean fs (add_pending b) c = insort-IsClean pending b fs c
    step-IsClean fs (add address h g kind) c = change-IsClean fs (add address h g kind) refl c.ready
    step-IsClean fs (take_out address) c = change-IsClean fs (take_out address) refl c.ready
    step-IsClean fs (remove_and_restore b) c = change-IsClean fs (remove_and_restore b) refl c.ready

    run_bindings-IsClean :
        (fs : Fs) (ops : List Op) → IsClean p fs → IsClean p (run_bindings sort fs ops)
    unfolding run_bindings
    run_bindings-IsClean fs [] c = c
    run_bindings-IsClean fs (op ∷ ops) c =
        run_bindings-IsClean (step sort fs op) ops (step-IsClean fs op c)

    -- Where the cache of a tracee was made and no two slots hold the same, an addition or a removal of
    -- a binding, and any lookups and changes after it, leave none of the 64 slots with a translated
    -- descriptor of the tracee.
    pub change-NoneBelow :
        (fs : Fs) (op : Op) (ops : List Op)
        → is_change op ≡ true
        → IsReady p fs
        → NoneBelow p 64 (run_bindings sort (step sort fs op) ops).dirfds.slots
    change-NoneBelow fs op ops e r =
        (run_bindings-IsClean (step sort fs op) ops (change-IsClean fs op e r)).clear
