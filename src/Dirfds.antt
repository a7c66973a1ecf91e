-- ===== src/Dirfds.antt =====
-- src/path/path.c: the cache of translated directory descriptors, a ring of 64 slots. A slot that has
-- no descriptor is free. A descriptor below zero is `none`, here and as an argument.
--
-- The slots stand as dirfd_cache_init leaves them; it runs before the first of them is used.
pub mod Copies
pub mod Found
pub mod Unique
pub mod Histories
pub mod Cleared
pub mod Tests
use neoproot.Base.{
  ℕ, zero, suc, ◌+◌, ◌%◌, Bool, true, false, not, ◌&&◌, ◌||◌, List, [], ◌∷◌, Option, none, some,
  leb, ◌==◌, if◌then◌else◌, get_elem?, set, replicate,
}
use neoproot.Path.{byte_at, slash}

abbrev pub dirfd_cache_size : ℕ
dirfd_cache_size = 64

-- The device and the inode of the host directory are there where they are valid.
pub record Slot : Type 0 where
  pub pid : ℕ
  pub fd : Option ℕ
  pub host_fd : Option ℕ
  pub host_identity : Option (ℕ × ℕ)
  pub proc_path : List ℕ
  pub guest_dir : List ℕ

-- The slots, `dirfd_cache_next`, `dirfd_cache_last`, and the host descriptors that were closed.
pub record Dirfds : Type 0 where
  pub slots : List Slot
  pub next : ℕ
  pub last : Option ℕ
  pub closed_fds : List ℕ

abbrev pub free_slot : Slot
free_slot = record {
  pid = 0;
  fd = none;
  host_fd = none;
  host_identity = none;
  proc_path = [];
  guest_dir = [];
}

-- dirfd_cache_init.
abbrev pub dirfd_cache_init : Dirfds
dirfd_cache_init = record {
  slots = replicate dirfd_cache_size free_slot;
  next = 0;
  last = none;
  closed_fds = [];
}

abbrev pub same_fd : Option ℕ → ℕ → Bool
same_fd none fd = false
same_fd (some f) fd = f == fd

abbrev pub holds : ℕ → ℕ → Slot → Bool
holds pid fd s = s.pid == pid && same_fd s.fd fd

abbrev pub holds_at : ℕ → ℕ → Option Slot → Bool
holds_at pid fd none = false
holds_at pid fd (some s) = holds pid fd s

abbrev pub later : Option ℕ → Option ℕ
later none = none
later (some i) = some (suc i)

-- The loop over the slots: the index of the first that holds the descriptor.
unfoldable pub slot_of : ℕ → ℕ → List Slot → Option ℕ
slot_of pid fd [] = none
slot_of pid fd (s ∷ ss) =
    let rest = slot_of pid fd ss in if holds pid fd s then some 0 else later rest

unfoldable pub noted : Dirfds → Option ℕ → Option ℕ × Dirfds
noted c none = (none, c)
noted c (some i) = (some i, record c { last = some i })

unfoldable pub by_last : Dirfds → ℕ → ℕ → Option ℕ → Option ℕ × Dirfds
unfolding slot_of noted
by_last c pid fd none = noted c (slot_of pid fd c.slots)
by_last c pid fd (some l) =
    if holds_at pid fd (get_elem? c.slots l) then (some l, c) else noted c (slot_of pid fd c.slots)

-- dirfd_cache_slot.
unfoldable pub dirfd_cache_slot : Dirfds → ℕ → Option ℕ → Option ℕ × Dirfds
unfolding by_last
dirfd_cache_slot c pid none = (none, c)
dirfd_cache_slot c pid (some fd) = by_last c pid fd c.last

abbrev pub with_closed : Option ℕ → List ℕ → List ℕ
with_closed none fds = fds
with_closed (some fd) fds = fd ∷ fds

abbrev pub host_fd_at : Option Slot → Option ℕ
host_fd_at none = none
host_fd_at (some s) = s.host_fd

abbrev pub closed_host : Slot → Slot
closed_host s = record s { host_fd = none; host_identity = none }

abbrev pub set_at : List Slot → ℕ → Option Slot → (Slot → Slot) → List Slot
set_at ss i none f = ss
set_at ss i (some s) f = set ss i (f s)

-- close_host_dirfd_slot.
unfoldable pub close_host_dirfd_slot : Dirfds → ℕ → Dirfds
close_host_dirfd_slot c i = record c {
  slots = set_at c.slots i (get_elem? c.slots i) closed_host;
  closed_fds = with_closed (host_fd_at (get_elem? c.slots i)) c.closed_fds;
}

abbrev pub forget_last : ℕ → Option ℕ → Option ℕ
forget_last i none = none
forget_last i (some l) = if l == i then none else some l

unfoldable pub forget_at : Dirfds → Option ℕ → Dirfds
unfolding close_host_dirfd_slot
forget_at c none = c
forget_at c (some i) =
    let c1 = close_host_dirfd_slot c i in
    record c1 { slots = set c1.slots i free_slot; last = forget_last i c1.last }

-- forget_translated_dirfd.
unfoldable pub forget_translated_dirfd : Dirfds → ℕ → Option ℕ → Dirfds
unfolding dirfd_cache_slot forget_at
forget_translated_dirfd c pid fd = let (i, c1) = dirfd_cache_slot c pid fd in forget_at c1 i

abbrev pub is_in_range : ℕ → ℕ → Option ℕ → Bool
is_in_range first last none = false
is_in_range first last (some fd) = leb first fd && leb fd last

-- One round of forget_translated_dirfds_range, and of clear_translated_dirfds.
unfoldable pub forget_if : (Slot → Bool) → ℕ → Dirfds → Option Slot → Dirfds
unfolding forget_translated_dirfd
forget_if p pid c none = c
forget_if p pid c (some s) =
    let c1 = forget_translated_dirfd c pid s.fd in if s.pid == pid && p s then c1 else c

-- The loop over `n` slots from the index `i` on.
unfoldable pub forget_from : (Slot → Bool) → ℕ → ℕ → ℕ → Dirfds → Dirfds
unfolding forget_if
forget_from p pid zero i c = c
forget_from p pid (suc n) i c =
    forget_from p pid n (suc i) (forget_if p pid c (get_elem? c.slots i))

-- forget_translated_dirfds_range.
unfoldable pub forget_translated_dirfds_range : Dirfds → ℕ → ℕ → ℕ → Dirfds
unfolding forget_from
forget_translated_dirfds_range c pid first last =
    forget_from (λ s. is_in_range first last s.fd) pid dirfd_cache_size 0 c

-- clear_translated_dirfds.
unfoldable pub clear_translated_dirfds : Dirfds → ℕ → Dirfds
unfolding forget_from
clear_translated_dirfds c pid = forget_from (λ s. true) pid dirfd_cache_size 0 c

abbrev pub same_bytes : List ℕ → List ℕ → Bool
same_bytes [] [] = true
same_bytes [] (y ∷ ys) = false
same_bytes (x ∷ xs) [] = false
same_bytes (x ∷ xs) (y ∷ ys) = x == y && same_bytes xs ys

abbrev pub has_paths : List ℕ → List ℕ → Option Slot → Bool
has_paths proc_path guest_dir none = false
has_paths proc_path guest_dir (some s) =
    same_bytes s.proc_path proc_path && same_bytes s.guest_dir guest_dir

abbrev pub fill : Dirfds → ℕ → ℕ → ℕ → List ℕ → List ℕ → Dirfds
fill c i pid fd proc_path guest_dir = record c {
  slots = set c.slots i (record {
    pid = pid;
    fd = some fd;
    host_fd = none;
    host_identity = none;
    proc_path = proc_path;
    guest_dir = guest_dir;
  });
}

unfoldable pub remember_at : Dirfds → ℕ → ℕ → List ℕ → List ℕ → Option ℕ → Dirfds
unfolding close_host_dirfd_slot
remember_at c pid fd proc_path guest_dir (some i) =
    let c1 = close_host_dirfd_slot c i in
    if has_paths proc_path guest_dir (get_elem? c.slots i)
    then c
    else fill c1 i pid fd proc_path guest_dir
remember_at c pid fd proc_path guest_dir none =
    let c1 : Dirfds = record c { next = (c.next + 1) % dirfd_cache_size } in
    fill (close_host_dirfd_slot c1 c.next) c.next pid fd proc_path guest_dir

-- remember_translated_dirfd, for paths below PATH_MAX, which the copy leaves whole.
unfoldable pub remember_translated_dirfd : Dirfds → ℕ → Option ℕ → List ℕ → List ℕ → Dirfds
unfolding dirfd_cache_slot remember_at
remember_translated_dirfd c pid none proc_path guest_dir = c
remember_translated_dirfd c pid (some fd) proc_path guest_dir =
    let (i, c1) = dirfd_cache_slot c pid (some fd) in
    if not (byte_at proc_path 0 == slash) || not (byte_at guest_dir 0 == slash)
    then c
    else remember_at c1 pid fd proc_path guest_dir i
