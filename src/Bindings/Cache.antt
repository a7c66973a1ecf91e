-- ===== src/Bindings/Cache.antt =====
-- src/path/binding.c: the table of guest bindings and the list that it is made from.
use neoproot.Base.{
  ℕ, ◌+◌, ◌≡◌, ◌⊎◌, refl, false, not, List, [], ◌∷◌, Option, none, some, inl, inr, arith,
}
use neoproot.Path.{compare_paths}
use neoproot.Bindings.{
  is_guest, get_binding_cache, invalidate_binding_cache, Side, guest, host, pending, Layer, Binding,
  Fs, table_of, built, build_guest_binding_cache, find_best_prefix, get_binding, get_root, root_by,
  root_of, or_else, last_of, substitute_binding, is_equal, list_of,
}
use neoproot.Bindings.Insort.{
  Spot, same_path, between, put, insort_binding, insort_binding2, insort_binding4, restored,
  new_binding, remove_binding_from_all_lists, remove_binding_and_restore_covered, spot, put_list,
  insert_at,
}

-- What reads and changes the bindings.
pub data Op : Type 0 where
  look : Side → List ℕ → Op
  substitute : Side → List ℕ → Op
  root : Op
  add : ℕ → List ℕ → List ℕ → ℕ → Op
  add_pending : Binding → Op
  take_out : ℕ → Op
  remove_and_restore : Binding → Op

module _ (sort : List Binding → List Binding) where
  -- The table is not built, or it is made from the list as it is now.
  abbrev pub IsCoherent : Fs → Type 0
  IsCoherent fs = (fs.entries ≡ none) ⊎ (fs.entries ≡ table_of sort fs.guest_list)

  pub built-again : (l : List Binding) → built sort l (table_of sort l) ≡ table_of sort l
  built-again [] = refl
  built-again (b ∷ l) = refl

  pub built-eq :
      (fs : Fs) → IsCoherent fs → built sort fs.guest_list fs.entries ≡ table_of sort fs.guest_list
  built-eq fs (inl e) = rw e refl
  built-eq fs (inr e) = rw e (built-again fs.guest_list)

  build-IsCoherent : (fs : Fs) → IsCoherent fs → IsCoherent (build_guest_binding_cache sort fs)
  unfolding build_guest_binding_cache
  build-IsCoherent fs h = inr (built-eq fs h)

  get_binding-IsCoherent :
      (fs : Fs) (side : Side) (path : List ℕ)
      → IsCoherent fs
      → IsCoherent (get_binding sort fs side path).1
  unfolding get_binding find_best_prefix
  get_binding-IsCoherent fs guest path h = ground (arith, h, build-IsCoherent fs h)
  get_binding-IsCoherent fs host path h = ground (arith, h)
  get_binding-IsCoherent fs pending path h = ground (arith, h)

  root_of-IsCoherent : (fs : Fs) (o : Option Binding) → IsCoherent fs → IsCoherent (root_of fs o).1
  unfolding root_of
  root_of-IsCoherent fs none h = h
  root_of-IsCoherent fs (some b) h = ground (arith, h)

  get_root-IsCoherent : (fs : Fs) → IsCoherent fs → IsCoherent (get_root fs).1
  unfolding get_root root_by
  get_root-IsCoherent fs h = by_cache fs.cached_root
    where
      by_cache : (o : Option (List ℕ)) → IsCoherent (root_by (get_binding_cache fs) o).1
      by_cache (some r) = h
      by_cache none =
          root_of-IsCoherent (get_binding_cache fs)
            (or_else (last_of fs.guest_list) (last_of fs.pending_list)) h

  removed-IsCoherent :
      (fs : Fs) (address : ℕ) → IsCoherent (remove_binding_from_all_lists fs address)
  unfolding remove_binding_from_all_lists invalidate_binding_cache
  removed-IsCoherent fs address = inl refl

  put-IsCoherent :
      (side : Side) (b : Binding) (fs : Fs) (s : Spot)
      → fs.entries ≡ none
      → IsCoherent (put side b fs s).1
  unfolding put
  put-IsCoherent guest b fs (between prev next) e = inl e
  put-IsCoherent host b fs (between prev next) e = inl e
  put-IsCoherent pending b fs (between prev next) e = inl e
  put-IsCoherent side b fs (same_path i c) e =
      let b1 : Binding = record b { covered = c.layer ∷ c.covered } in
      removed-IsCoherent (put_list side (insert_at (i + 1) b1 (list_of side fs)) fs) c.layer.address

  -- What is put in another list than that of the guest paths leaves the table right.
  put_apart-IsCoherent :
      (side : Side) (b : Binding) (fs : Fs) (s : Spot)
      → is_guest side ≡ false
      → IsCoherent fs
      → IsCoherent (put side b fs s).1
  unfolding put
  put_apart-IsCoherent guest b fs (between prev next) n h = cc
  put_apart-IsCoherent host b fs (between prev next) n h = h
  put_apart-IsCoherent pending b fs (between prev next) n h = h
  put_apart-IsCoherent side b fs (same_path i c) n h =
      let b1 : Binding = record b { covered = c.layer ∷ c.covered } in
      removed-IsCoherent (put_list side (insert_at (i + 1) b1 (list_of side fs)) fs) c.layer.address

  insort_binding-IsCoherent :
      (side : Side) (b : Binding) (fs : Fs)
      → IsCoherent fs
      → IsCoherent (insort_binding side b fs).1
  unfolding insort_binding invalidate_binding_cache
  insort_binding-IsCoherent guest b fs h =
      let fs1 = invalidate_binding_cache fs in
      put-IsCoherent guest b fs1 (spot guest b.layer fs.guest_list 0 none none) refl
  insort_binding-IsCoherent host b fs h =
      put_apart-IsCoherent host b fs (spot host b.layer fs.host_list 0 none none) refl h
  insort_binding-IsCoherent pending b fs h =
      put_apart-IsCoherent pending b fs (spot pending b.layer fs.pending_list 0 none none) refl h

  insort_binding2-IsCoherent :
      (b : Binding) (fs : Fs) → IsCoherent fs → IsCoherent (insort_binding2 b fs).1
  unfolding insort_binding2
  insort_binding2-IsCoherent b fs h =
      let equal = is_equal (compare_paths b.layer.host_path b.layer.guest_path) in
      let b1 : Binding = record b { layer = record (b.layer) { need_substitution = not equal } } in
      let first = insort_binding guest b1 fs in
      insort_binding-IsCoherent host first.0 first.1 (insort_binding-IsCoherent guest b1 fs h)

  restored-IsCoherent : (ls : List Layer) (fs : Fs) → IsCoherent fs → IsCoherent (restored ls fs)
  restored-IsCoherent [] fs h = h
  restored-IsCoherent (l ∷ ls) fs h =
      insort_binding2-IsCoherent (record { layer = l; covered = ls }) fs h

  unfoldable pub step : Fs → Op → Fs
  step fs (look side path) = (get_binding sort fs side path).1
  step fs (substitute side path) = (substitute_binding sort fs side path).1
  step fs root = (get_root fs).1
  step fs (add address h g kind) = (insort_binding4 address h g kind fs).1
  step fs (add_pending b) = (insort_binding pending b fs).1
  step fs (take_out address) = remove_binding_from_all_lists fs address
  step fs (remove_and_restore b) = remove_binding_and_restore_covered b fs

  step-IsCoherent : (fs : Fs) (op : Op) → IsCoherent fs → IsCoherent (step fs op)
  unfolding step substitute_binding insort_binding4 remove_binding_and_restore_covered
  step-IsCoherent fs (look side path) h = get_binding-IsCoherent fs side path h
  step-IsCoherent fs (substitute side path) h = get_binding-IsCoherent fs side path h
  step-IsCoherent fs root h = get_root-IsCoherent fs h
  step-IsCoherent fs (add address h g kind) k =
      insort_binding2-IsCoherent (new_binding address h g kind) fs k
  step-IsCoherent fs (add_pending b) h = insort_binding-IsCoherent pending b fs h
  step-IsCoherent fs (take_out address) h = removed-IsCoherent fs address
  step-IsCoherent fs (remove_and_restore b) h =
      restored-IsCoherent b.covered (remove_binding_from_all_lists fs b.layer.address)
        (removed-IsCoherent fs b.layer.address)

  unfoldable pub run_bindings : Fs → List Op → Fs
  run_bindings fs [] = fs
  run_bindings fs (op ∷ ops) = run_bindings (step fs op) ops

  -- Over any sequence of lookups, substitutions, additions and removals, the table of guest bindings
  -- is not built or is the one that the list as it is then gives: no lookup reads a stale table.
  pub run_bindings-IsCoherent :
      (fs : Fs) (ops : List Op) → IsCoherent fs → IsCoherent (run_bindings fs ops)
  unfolding run_bindings
  run_bindings-IsCoherent fs [] h = h
  run_bindings-IsCoherent fs (op ∷ ops) h =
      run_bindings-IsCoherent (step fs op) ops (step-IsCoherent fs op h)
