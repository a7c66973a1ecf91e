-- ===== src/Dirfds/Copies.antt =====
-- src/path/path.c: descriptors that are duplicated or inherited take their entries with them.
--
-- `dup_cloexec` and fstat are parameters: the copy of a host descriptor, and the device and the inode
-- of one, where they succeed.
use neoproot.Base.{ℕ, zero, suc, ◌∷◌, Option, none, some, ◌==◌, if◌then◌else◌, get_elem?}
use neoproot.Dirfds.{
  Slot, Dirfds, dirfd_cache_size, set_at, close_host_dirfd_slot, dirfd_cache_slot,
  forget_translated_dirfd, clear_translated_dirfds, remember_translated_dirfd,
}

abbrev pub attached_host : ℕ → ℕ × ℕ → Slot → Slot
attached_host host_fd identity s = record s {
  host_fd = some host_fd;
  host_identity = some identity;
}

unfoldable pub attach_at : Dirfds → Option ℕ → ℕ → ℕ × ℕ → Dirfds
unfolding close_host_dirfd_slot
attach_at c none host_fd identity = record c { closed_fds = host_fd ∷ c.closed_fds }
attach_at c (some i) host_fd identity =
    let c1 = close_host_dirfd_slot c i in
    record c1 { slots = set_at c1.slots i (get_elem? c1.slots i) (attached_host host_fd identity) }

unfoldable pub attach_by : Dirfds → ℕ → Option ℕ → ℕ → Option (ℕ × ℕ) → Dirfds
unfolding attach_at dirfd_cache_slot
attach_by c pid fd host_fd none = record c { closed_fds = host_fd ∷ c.closed_fds }
attach_by c pid fd host_fd (some identity) =
    let (i, c1) = dirfd_cache_slot c pid fd in attach_at c1 i host_fd identity

module _ (dup_cloexec : ℕ → Option ℕ) (fstat : ℕ → Option (ℕ × ℕ)) where
  -- attach_host_dirfd.
  unfoldable pub attach_host_dirfd : Dirfds → ℕ → Option ℕ → Option ℕ → Dirfds
  unfolding attach_by
  attach_host_dirfd c pid fd none = c
  attach_host_dirfd c pid fd (some host_fd) = attach_by c pid fd host_fd (fstat host_fd)

  abbrev pub dup_of : Option ℕ → Option ℕ
  dup_of none = none
  dup_of (some fd) = dup_cloexec fd

  -- The entry of the slot, remembered for another descriptor.
  unfoldable pub copy_slot : Dirfds → ℕ → Option ℕ → Option Slot → Dirfds
  unfolding attach_host_dirfd remember_translated_dirfd
  copy_slot c pid target none = c
  copy_slot c pid target (some s) =
      attach_host_dirfd (remember_translated_dirfd c pid target s.proc_path s.guest_dir) pid target
        (dup_of s.host_fd)

  unfoldable pub copy_by : Dirfds → ℕ → Option ℕ → Option ℕ → Dirfds
  unfolding copy_slot forget_translated_dirfd
  copy_by c pid target none = forget_translated_dirfd c pid target
  copy_by c pid target (some i) = copy_slot c pid target (get_elem? c.slots i)

  -- copy_translated_dirfd.
  unfoldable pub copy_translated_dirfd : Dirfds → ℕ → Option ℕ → Option ℕ → Dirfds
  unfolding copy_by dirfd_cache_slot
  copy_translated_dirfd c pid source target =
      let (i, c1) = dirfd_cache_slot c pid source in copy_by c1 pid target i

  -- One round of inherit_translated_dirfds.
  unfoldable pub inherit_slot : Dirfds → ℕ → ℕ → Option Slot → Dirfds
  unfolding copy_slot
  inherit_slot c parent child none = c
  inherit_slot c parent child (some s) =
      let copied = copy_slot c child s.fd (some s) in if s.pid == parent then copied else c

  unfoldable pub inherit_from : ℕ → ℕ → ℕ → ℕ → Dirfds → Dirfds
  unfolding inherit_slot
  inherit_from parent child zero i c = c
  inherit_from parent child (suc n) i c =
      inherit_from parent child n (suc i) (inherit_slot c parent child (get_elem? c.slots i))

  -- inherit_translated_dirfds.
  unfoldable pub inherit_translated_dirfds : Dirfds → ℕ → ℕ → Dirfds
  unfolding inherit_from clear_translated_dirfds
  inherit_translated_dirfds c parent child =
      inherit_from parent child dirfd_cache_size 0 (clear_translated_dirfds c child)
