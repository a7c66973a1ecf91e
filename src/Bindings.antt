-- ===== src/Bindings.antt =====
-- src/path/binding.c: the bindings of a tracee, each a place of the host that a guest path stands for.
-- They are kept in three lists, by guest path, by host path, and those not yet set up, with a table of
-- the guest bindings, the longest path first, that is built when it is needed.
--
-- A binding that was given up for another of the same path is kept under it: `covered` has those
-- layers, the next one first. An address is a number. Allocation is taken to succeed, and the list of
-- guest bindings to be set up: before that nothing is cached.
pub mod Insort
pub mod Cache
pub mod Cleared
pub mod Under
pub mod Longest
pub mod Misplaced
pub mod Sorted
pub mod Tests
use neoproot.Base.{
  ℕ, zero, suc, ◌+◌, Bool, true, false, not, ◌&&◌, ◌||◌, List, [], ◌∷◌, Option, none, some, ltb,
  ◌==◌, if◌then◌else◌, length,
}
use neoproot.Base.Int.{ℤ, pos, neg}
use neoproot.Path.{
  Comparison, paths_are_equal, path1_is_prefix, path2_is_prefix, paths_are_not_comparable, slash,
  byte_at, same_range, compare_paths2, compare_paths, substitute_path_prefix,
}
use neoproot.Dirfds.{Dirfds, clear_translated_dirfds}

pub data Side : Type 0 where
  guest host pending : Side

-- `Binding`, without its links and what it covers.
pub record Layer : Type 0 where
  pub address : ℕ
  pub host_path : List ℕ
  pub guest_path : List ℕ
  pub need_substitution : Bool
  pub readonly : Bool
  pub source_readonly : Bool
  pub mount_flags : ℕ
  pub source_mount_flags : ℕ
  pub mount_kind : ℕ

pub record Binding : Type 0 where
  pub layer : Layer
  pub covered : List Layer

-- The lists, what is cached of them (`has_cache` is whether the cache was made), and the pid of the
-- tracee with the translated directory descriptors.
pub record Fs : Type 0 where
  pub guest_list : List Binding
  pub host_list : List Binding
  pub pending_list : List Binding
  pub entries : Option (List Binding)
  pub cached_root : Option (List ℕ)
  pub has_cache : Bool
  pub pid : ℕ
  pub dirfds : Dirfds

abbrev pub path_on : Side → Layer → List ℕ
path_on guest l = l.guest_path
path_on host l = l.host_path
path_on pending l = l.guest_path

abbrev pub is_guest : Side → Bool
is_guest guest = true
is_guest host = false
is_guest pending = false

abbrev pub list_of : Side → Fs → List Binding
list_of guest fs = fs.guest_list
list_of host fs = fs.host_list
list_of pending fs = fs.pending_list

-- get_binding_cache.
abbrev pub get_binding_cache : Fs → Fs
get_binding_cache fs = record fs { has_cache = true }

-- A cache that was not made has no table and no root to drop.
unfoldable pub invalidate_binding_cache : Fs → Fs
unfolding clear_translated_dirfds
invalidate_binding_cache fs = record fs {
  entries = none;
  cached_root = none;
  dirfds =
      if fs.has_cache && not (fs.pid == 0)
      then clear_translated_dirfds fs.dirfds fs.pid
      else fs.dirfds;
}

-- The tests of find_best_prefix on one entry.
unfoldable pub is_best : List ℕ → Binding → Bool
is_best path b =
    let p = b.layer.guest_path in
    not (ltb (length path) (length p))
    && byte_at p 0 == byte_at path 0
    && not
        (ltb 1 (length p) && ltb (length p) (length path) && not (byte_at path (length p) == slash))
    && same_range p path 0 (length p)

unfoldable pub first_best : List ℕ → List Binding → Option Binding
first_best path [] = none
first_best path (b ∷ bs) = let rest = first_best path bs in if is_best path b then some b else rest

abbrev pub is_prefix : Comparison → Bool
is_prefix paths_are_equal = true
is_prefix path1_is_prefix = true
is_prefix path2_is_prefix = false
is_prefix paths_are_not_comparable = false

-- The loop of get_binding over a list.
unfoldable pub first_prefix : Side → List ℕ → List Binding → Option Binding
first_prefix side path [] = none
first_prefix side path (b ∷ bs) =
    let rest = first_prefix side path bs in
    let p = if is_guest side then b.layer.guest_path else b.layer.host_path in
    if is_prefix (compare_paths2 p (length p) path (length path)) then some b else rest

abbrev pub last_of : List Binding → Option Binding
last_of [] = none
last_of (b ∷ []) = some b
last_of (b ∷ c ∷ bs) = last_of (c ∷ bs)

abbrev pub or_else : Option Binding → Option Binding → Option Binding
or_else none o = o
or_else (some b) o = some b

abbrev pub root_path : List ℕ
root_path = slash ∷ []

abbrev pub is_equal : Comparison → Bool
is_equal paths_are_equal = true
is_equal _ = false

-- The part of get_root that follows the choice of the last binding.
unfoldable pub root_of : Fs → Option Binding → Option (List ℕ) × Fs
root_of fs none = (none, fs)
root_of fs (some b) =
    if is_equal (compare_paths b.layer.guest_path root_path)
    then (some b.layer.host_path, record fs { cached_root = some b.layer.host_path })
    else (none, fs)

unfoldable pub root_by : Fs → Option (List ℕ) → Option (List ℕ) × Fs
unfolding root_of
root_by fs (some r) = (some r, fs)
root_by fs none = root_of fs (or_else (last_of fs.guest_list) (last_of fs.pending_list))

-- get_root.
unfoldable pub get_root : Fs → Option (List ℕ) × Fs
unfolding root_by
get_root fs = root_by (get_binding_cache fs) fs.cached_root

-- `sort` is qsort by compare_by_desc_length.
module _ (sort : List Binding → List Binding) where
  abbrev pub table_of : List Binding → Option (List Binding)
  table_of [] = none
  table_of (b ∷ bs) = some (sort (b ∷ bs))

  abbrev pub built : List Binding → Option (List Binding) → Option (List Binding)
  built l none = table_of l
  built l (some t) = some t

  unfoldable pub build_guest_binding_cache : Fs → Fs
  build_guest_binding_cache fs = record fs {
    entries = built fs.guest_list fs.entries;
    has_cache = true;
  }

  abbrev pub in_table : List ℕ → Option (List Binding) → Option Binding
  in_table path none = none
  in_table path (some t) = first_best path t

  unfoldable pub find_best_prefix : Fs → List ℕ → Option Binding × Fs
  unfolding build_guest_binding_cache
  find_best_prefix fs path =
      let fs1 = build_guest_binding_cache fs in (in_table path fs1.entries, fs1)

  unfoldable pub get_binding : Fs → Side → List ℕ → Option Binding × Fs
  unfolding find_best_prefix
  get_binding fs side path =
      let (best, fs1) = find_best_prefix fs path in
      let walked = first_prefix side path (list_of side fs) in
      if not (byte_at path 0 == slash)
      then (none, fs)
      else if is_guest side
      then (or_else best walked, fs1)
      else (walked, fs)

  unfoldable pub substitute_by : Side → List ℕ → Option Binding → ℤ × List ℕ
  substitute_by side path none = (neg 2, path)
  substitute_by side path (some b) =
      let orig = if is_guest side then b.layer.guest_path else b.layer.host_path in
      let repl = if is_guest side then b.layer.host_path else b.layer.guest_path in
      if not b.layer.need_substitution
      then (pos 0, path)
      else (pos 1, (substitute_path_prefix path (length orig) repl (length repl)).1)

  -- substitute_binding.
  unfoldable pub substitute_binding : Fs → Side → List ℕ → (ℤ × List ℕ) × Fs
  unfolding substitute_by get_binding
  substitute_binding fs side path =
      let (b, fs1) = get_binding fs side path in (substitute_by side path b, fs1)

  abbrev pub path_of_binding : Side → Option Binding → Option (List ℕ)
  path_of_binding side none = none
  path_of_binding side (some b) =
      if is_guest side then some b.layer.guest_path else some b.layer.host_path

  -- get_path_binding.
  unfoldable pub get_path_binding : Fs → Side → List ℕ → Option (List ℕ) × Fs
  unfolding get_binding
  get_path_binding fs side path =
      let (b, fs1) = get_binding fs side path in (path_of_binding side b, fs1)
