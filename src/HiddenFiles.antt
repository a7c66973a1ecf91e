-- ===== src/HiddenFiles.antt =====
-- src/extension/hidden_files/hidden_files.c: the files of neoproot that a listing of a directory leaves out.
--
-- The registers, the link of the descriptor, the root and the memory of the tracee are what the record
-- `Getdents` holds. A short integer has its low byte first, as on arm64.
pub mod Shown
pub mod Tests
use neoproot.Base.{
  ℕ, zero, suc, ◌+◌, ◌-◌, ◌*◌, ◌^◌, Bool, true, false, not, ◌&&◌, ◌||◌, List, [], ◌∷◌, ◌++◌, Option,
  none, some, ltb, leb, ◌==◌, if◌then◌else◌, length, take, drop,
}
use neoproot.Base.Int.{ℤ, pos, negsuc}
use neoproot.Path.{byte_at, path_max}
use neoproot.Sysvipc.State.{int32, int_of}
use neoproot.Seccomp.{FilteredSysnum}
use neoproot.Seccomp.Lists.{on_exit}

-- ".proot"
abbrev pub hidden_prefix : List ℕ
hidden_prefix = 46 ∷ 112 ∷ 114 ∷ 111 ∷ 111 ∷ 116 ∷ []

-- memcmp over the length of the prefix.
abbrev pub has_prefix : List ℕ → List ℕ → Bool
has_prefix [] str = true
has_prefix (p ∷ prefix) [] = false
has_prefix (p ∷ prefix) (c ∷ str) = p == c && has_prefix prefix str

-- Where the name of a `struct linux_dirent64` or `struct linux_dirent` starts.
abbrev pub name_offset : Bool → ℕ
name_offset is_64 = if is_64 then 19 else 18

abbrev pub d_reclen : List ℕ → ℕ
d_reclen d = byte_at d 16 + 256 * byte_at d 17

abbrev pub is_hidden : Bool → List ℕ → Bool
is_hidden is_64 d = has_prefix hidden_prefix (drop (name_offset is_64) d)

-- The loop over the entries, in at most so many steps.
unfoldable pub filter_dirents : Bool → ℕ → List ℕ → List ℕ
filter_dirents is_64 zero orig = []
filter_dirents is_64 (suc n) [] = []
filter_dirents is_64 (suc n) (b ∷ bs) =
    let reclen = d_reclen (b ∷ bs) in
    let rest = filter_dirents is_64 n (drop reclen (b ∷ bs)) in
    if is_hidden is_64 (b ∷ bs) then rest else take reclen (b ∷ bs) ++ rest

-- What a handler of a getdents finds: the result, the size of the buffer, the directory and the root
-- on the host, what read_data gives of the buffer, and whether write_data can write there.
pub record Getdents : Type 0 where
  pub is_64 : Bool
  pub result : ℕ
  pub count : ℕ
  pub path : Option (List ℕ)
  pub root : Option (List ℕ)
  pub orig_data : Option (List ℕ)
  pub is_writable : Bool

-- It returns, or it makes the same call again, or it writes these entries and sets the result to
-- their size.
pub data Listed : Type 0 where
  returned : ℤ → Listed
  again : Listed
  shortened : List ℕ → Listed

abbrev pub belongs_to_guestfs_fast : Option (List ℕ) → List ℕ → Bool
belongs_to_guestfs_fast none path = false
belongs_to_guestfs_fast (some root) path =
    (length root == 1 && byte_at root 0 == 47) || has_prefix root path

abbrev pub is_guest_path : Option (List ℕ) → Option (List ℕ) → Bool
is_guest_path root none = false
is_guest_path root (some path) = belongs_to_guestfs_fast root path

unfoldable pub put_dirents : Bool → List ℕ → Listed
put_dirents is_writable [] = again
put_dirents is_writable (b ∷ bs) = if is_writable then shortened (b ∷ bs) else returned (negsuc 0)

unfoldable pub filter_read : Getdents → Option (List ℕ) → Listed
unfolding filter_dirents put_dirents
filter_read c none = returned (negsuc 0)
filter_read c (some orig) = put_dirents c.is_writable (filter_dirents c.is_64 (length orig) orig)

-- handle_getdents, on a getdents or a getdents64.
unfoldable pub handle_getdents : Getdents → Listed
unfolding filter_read
handle_getdents c =
    if c.result == 0 || leb (2 ^ 63) c.result
    then returned (int_of (int32 c.result))
    else if c.count == 0 || ltb (path_max * 1024) c.count
    then returned (pos 0)
    else if not (is_guest_path c.root c.path)
    then returned (pos 0)
    else filter_read c c.orig_data

-- getdents and getdents64.
abbrev pub hidden_files_sysnums : List FilteredSysnum
hidden_files_sysnums = on_exit 107 ∷ on_exit 108 ∷ []
