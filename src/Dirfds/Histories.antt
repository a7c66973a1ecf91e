-- ===== src/Dirfds/Histories.antt =====
-- src/path/path.c: what holds of the descriptor cache over any sequence of its operations.
use neoproot.Base.{
  ℕ, zero, suc, refl, sym, true, List, [], ◌∷◌, Option, none, some, ◌==◌, Bool-cases, inl, inr,
  get_elem?,
}
use mathlib.Core.Path.{subst}
use neoproot.Dirfds.{
  Slot, Dirfds, dirfd_cache_size, close_host_dirfd_slot, dirfd_cache_slot, is_in_range,
  forget_translated_dirfd, forget_translated_dirfds_range, clear_translated_dirfds,
  remember_translated_dirfd,
}
use neoproot.Dirfds.Copies.{
  attached_host, attach_at, attach_by, attach_host_dirfd, dup_of, copy_slot, copy_by,
  copy_translated_dirfd, inherit_slot, inherit_from, inherit_translated_dirfds,
}
use neoproot.Dirfds.Found.{dirfd_cache_slot-Looked}
use neoproot.Dirfds.Unique.{
  IsUnique, set_at-IsUnique, close_host_dirfd_slot-IsUnique, forget_translated_dirfd-IsUnique,
  forget_from-IsUnique, remember_translated_dirfd-IsUnique,
}

attach_at-IsUnique :
    (c : Dirfds) (o : Option ℕ) (host_fd : ℕ) (identity : ℕ × ℕ)
    → IsUnique c.slots
    → IsUnique (attach_at c o host_fd identity).slots
unfolding attach_at
attach_at-IsUnique c none host_fd identity h = h
attach_at-IsUnique c (some i) host_fd identity h =
    let c1 = close_host_dirfd_slot c i in
    set_at-IsUnique c1.slots i (get_elem? c1.slots i) (attached_host host_fd identity) refl
      (λ s pid fd. refl) (close_host_dirfd_slot-IsUnique c i h)

lookup-IsUnique :
    (c : Dirfds) (pid : ℕ) (fd : Option ℕ)
    → IsUnique c.slots
    → IsUnique (dirfd_cache_slot c pid fd).1.slots
unfolding dirfd_cache_slot
lookup-IsUnique c pid none h = h
lookup-IsUnique c pid (some fd) h = subst IsUnique (sym (dirfd_cache_slot-Looked c pid fd).1) h

attach_by-IsUnique :
    (c : Dirfds) (pid : ℕ) (fd : Option ℕ) (host_fd : ℕ) (identity : Option (ℕ × ℕ))
    → IsUnique c.slots
    → IsUnique (attach_by c pid fd host_fd identity).slots
unfolding attach_by
attach_by-IsUnique c pid fd host_fd none h = h
attach_by-IsUnique c pid fd host_fd (some identity) h =
    let r = dirfd_cache_slot c pid fd in
    attach_at-IsUnique r.1 r.0 host_fd identity (lookup-IsUnique c pid fd h)

-- What the cache is told of: a descriptor that was translated, closed, or closed with a range of
-- others, one that was duplicated, a fork, and a change of the bindings or an execve.
pub data Use : Type 0 where
  translated : ℕ → Option ℕ → List ℕ → List ℕ → Use
  attached_fd : ℕ → Option ℕ → Option ℕ → Use
  closed : ℕ → Option ℕ → Use
  closed_range : ℕ → ℕ → ℕ → Use
  duplicated : ℕ → Option ℕ → Option ℕ → Use
  forked : ℕ → ℕ → Use
  cleared : ℕ → Use

module _ (dup_cloexec : ℕ → Option ℕ) (fstat : ℕ → Option (ℕ × ℕ)) where
  attach_host_dirfd-IsUnique :
      (c : Dirfds) (pid : ℕ) (fd host_fd : Option ℕ)
      → IsUnique c.slots
      → IsUnique (attach_host_dirfd dup_cloexec fstat c pid fd host_fd).slots
  unfolding attach_host_dirfd
  attach_host_dirfd-IsUnique c pid fd none h = h
  attach_host_dirfd-IsUnique c pid fd (some host_fd) h =
      attach_by-IsUnique c pid fd host_fd (fstat host_fd) h

  copy_slot-IsUnique :
      (c : Dirfds) (pid : ℕ) (target : Option ℕ) (o : Option Slot)
      → IsUnique c.slots
      → IsUnique (copy_slot dup_cloexec fstat c pid target o).slots
  unfolding copy_slot
  copy_slot-IsUnique c pid target none h = h
  copy_slot-IsUnique c pid target (some s) h =
      attach_host_dirfd-IsUnique (remember_translated_dirfd c pid target s.proc_path s.guest_dir)
        pid target (dup_of dup_cloexec fstat s.host_fd)
        (remember_translated_dirfd-IsUnique c pid target s.proc_path s.guest_dir h)

  copy_by-IsUnique :
      (c : Dirfds) (pid : ℕ) (target o : Option ℕ)
      → IsUnique c.slots
      → IsUnique (copy_by dup_cloexec fstat c pid target o).slots
  unfolding copy_by
  copy_by-IsUnique c pid target none h = forget_translated_dirfd-IsUnique c pid target h
  copy_by-IsUnique c pid target (some i) h = copy_slot-IsUnique c pid target (get_elem? c.slots i) h

  inherit_slot-IsUnique :
      (c : Dirfds) (parent child : ℕ) (o : Option Slot)
      → IsUnique c.slots
      → IsUnique (inherit_slot dup_cloexec fstat c parent child o).slots
  unfolding inherit_slot
  inherit_slot-IsUnique c parent child none h = h
  inherit_slot-IsUnique c parent child (some s) h = elim (Bool-cases (s.pid == parent)) [
    | inl e ↦ rw e (copy_slot-IsUnique c child s.fd (some s) h)
    | inr e ↦ rw e h
  ]

  inherit_from-IsUnique :
      (parent child n i : ℕ) (c : Dirfds)
      → IsUnique c.slots
      → IsUnique (inherit_from dup_cloexec fstat parent child n i c).slots
  unfolding inherit_from
  inherit_from-IsUnique parent child zero i c h = h
  inherit_from-IsUnique parent child (suc n) i c h =
      inherit_from-IsUnique parent child n (suc i)
        (inherit_slot dup_cloexec fstat c parent child (get_elem? c.slots i))
        (inherit_slot-IsUnique c parent child (get_elem? c.slots i) h)

  pub use_dirfds : Dirfds → Use → Dirfds
  use_dirfds c (translated pid fd proc_path guest_dir) =
      remember_translated_dirfd c pid fd proc_path guest_dir
  use_dirfds c (attached_fd pid fd host_fd) = attach_host_dirfd dup_cloexec fstat c pid fd host_fd
  use_dirfds c (closed pid fd) = forget_translated_dirfd c pid fd
  use_dirfds c (closed_range pid first last) = forget_translated_dirfds_range c pid first last
  use_dirfds c (duplicated pid source target) =
      copy_translated_dirfd dup_cloexec fstat c pid source target
  use_dirfds c (forked parent child) = inherit_translated_dirfds dup_cloexec fstat c parent child
  use_dirfds c (cleared pid) = clear_translated_dirfds c pid

  use_dirfds-IsUnique : (c : Dirfds) (u : Use) → IsUnique c.slots → IsUnique (use_dirfds c u).slots
  unfolding use_dirfds clear_translated_dirfds forget_translated_dirfds_range copy_translated_dirfd
      inherit_translated_dirfds
  use_dirfds-IsUnique c (translated pid fd proc_path guest_dir) h =
      remember_translated_dirfd-IsUnique c pid fd proc_path guest_dir h
  use_dirfds-IsUnique c (attached_fd pid fd host_fd) h =
      attach_host_dirfd-IsUnique c pid fd host_fd h
  use_dirfds-IsUnique c (closed pid fd) h = forget_translated_dirfd-IsUnique c pid fd h
  use_dirfds-IsUnique c (closed_range pid first last) h =
      forget_from-IsUnique (λ s. is_in_range first last s.fd) pid dirfd_cache_size 0 c h
  use_dirfds-IsUnique c (duplicated pid source target) h =
      let r = dirfd_cache_slot c pid source in
      copy_by-IsUnique r.1 pid target r.0 (lookup-IsUnique c pid source h)
  use_dirfds-IsUnique c (forked parent child) h =
      inherit_from-IsUnique parent child dirfd_cache_size 0 (clear_translated_dirfds c child)
        (forget_from-IsUnique (λ s. true) child dirfd_cache_size 0 c h)
  use_dirfds-IsUnique c (cleared pid) h =
      forget_from-IsUnique (λ s. true) pid dirfd_cache_size 0 c h

  pub run_dirfds : Dirfds → List Use → Dirfds
  run_dirfds c [] = c
  run_dirfds c (u ∷ us) = run_dirfds (use_dirfds c u) us

  -- Over any sequence of uses, whatever dup and fstat answer, no two slots of the cache hold the same
  -- descriptor of one process.
  pub run_dirfds-IsUnique :
      (c : Dirfds) (us : List Use) → IsUnique c.slots → IsUnique (run_dirfds c us).slots
  unfolding run_dirfds
  run_dirfds-IsUnique c [] h = h
  run_dirfds-IsUnique c (u ∷ us) h =
      run_dirfds-IsUnique (use_dirfds c u) us (use_dirfds-IsUnique c u h)
