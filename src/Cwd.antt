-- ===== src/Cwd.antt =====
-- src/path/path.c: the working directory of a tracee, and its alias below /oldroot.
--
-- Paths are lists of bytes without the terminator. Allocation is taken to succeed.
pub mod Rebased
pub mod Reported
pub mod Tests
use neoproot.Base.{
  ℕ, zero, suc, ◌+◌, ◌-◌, Bool, true, false, not, ◌&&◌, ◌||◌, List, [], ◌∷◌, Option, none, some,
  ltb, leb, ◌==◌, if◌then◌else◌, length, take, drop,
}
use neoproot.Base.Int.{ℤ, pos, neg, is_neg}
use neoproot.Path.{slash, byte_at, same_range, compare_paths2, path_max, substitute_path_prefix}
use neoproot.Bindings.{
  guest, Binding, Fs, is_prefix, is_equal, root_path, get_binding, substitute_binding,
}
use neoproot.Dirfds.{same_bytes}

-- What the functions reach of `FileSystemNameSpace`.
pub record View : Type 0 where
  pub fs : Fs
  pub cwd : List ℕ
  pub cwd_alias_prefix : Option (List ℕ)

-- "/oldroot".
abbrev pub oldroot : List ℕ
oldroot = 47 ∷ 111 ∷ 108 ∷ 100 ∷ 114 ∷ 111 ∷ 111 ∷ 116 ∷ []

-- getcwd2, of a tracee.
unfoldable pub getcwd2 : View → ℤ × Option (List ℕ)
getcwd2 v = if leb path_max (length v.cwd) then (neg 36, none) else (pos 0, some v.cwd)

unfoldable pub path_has_prefix : List ℕ → List ℕ → Bool
path_has_prefix path prefix =
    same_range path prefix 0 (length prefix)
    && (byte_at path (length prefix) == 0 || byte_at path (length prefix) == slash)

unfoldable pub reported : List ℕ → Option (List ℕ) → List ℕ
reported cwd none = cwd
reported cwd (some alias) =
    let n = length alias in
    if not (same_range cwd alias 0 n) || (not (byte_at cwd n == 0) && not (byte_at cwd n == slash))
    then cwd
    else if byte_at cwd n == 0
    then root_path
    else drop n cwd

unfoldable pub get_reported_cwd : View → List ℕ
unfolding reported
get_reported_cwd v = reported v.cwd v.cwd_alias_prefix

-- The binding that was found, if it is that of the path itself.
abbrev pub named : List ℕ → Option Binding → Option Binding
named path none = none
named path (some b) = if same_bytes b.layer.guest_path path then some b else none

unfoldable pub same_host : Binding → Binding → Bool
unfolding compare_paths2
same_host a b = is_equal (
    compare_paths2 a.layer.host_path (length a.layer.host_path) b.layer.host_path
      (length b.layer.host_path))

unfoldable pub is_alias : Option Binding → Option Binding → Bool
unfolding same_host
is_alias none root = false
is_alias (some a) none = false
is_alias (some a) (some root) = same_host a root

-- A binding that is substituted, that does not lie below the alias, and whose host path holds this one.
unfoldable pub is_candidate : List ℕ → List ℕ → Binding → Bool
unfolding path_has_prefix compare_paths2
is_candidate alias host_path b =
    b.layer.need_substitution
    && not (path_has_prefix b.layer.guest_path alias)
    && is_prefix
        (compare_paths2 b.layer.host_path (length b.layer.host_path) host_path (length host_path))

-- The loop of rebase_cwd_alias, with `best` and `best_host_len`.
unfoldable pub longest_host : List ℕ → List ℕ → List Binding → Option Binding → ℕ → Option Binding
unfolding is_candidate
longest_host alias host_path [] best best_host_len = best
longest_host alias host_path (b ∷ bs) best best_host_len =
    let is_longer =
      is_candidate alias host_path b && ltb best_host_len (length b.layer.host_path) in
    longest_host alias host_path bs (if is_longer then some b else best)
      (if is_longer then length b.layer.host_path else best_host_len)

-- The part of rebase_cwd_alias that follows the loop.
unfoldable pub rebase_to : View → List ℕ → Option Binding → ℤ × View
unfolding substitute_path_prefix
rebase_to v host_path none = (pos 0, v)
rebase_to v host_path (some best) =
    let (guest_len, guest_path) =
      substitute_path_prefix host_path (length best.layer.host_path) best.layer.guest_path
        (length best.layer.guest_path) in
    if leb path_max guest_len
    then (neg 36, v)
    else if same_bytes guest_path v.cwd
    then (pos 0, v)
    else (pos 1, record v { cwd = guest_path })

unfoldable pub rebase_by : View → List ℕ → ℤ × List ℕ → ℤ × View
unfolding longest_host rebase_to
rebase_by v alias (status, host_path) =
    if is_neg status
    then (pos 0, v)
    else rebase_to v host_path (longest_host alias host_path v.fs.guest_list none 0)

-- The alias binding has the root's host path, or it is gone and the alias is /oldroot.
unfoldable pub is_still_alias : List ℕ → Binding → Option Binding → Bool
unfolding same_host
is_still_alias alias root none = same_bytes alias oldroot
is_still_alias alias root (some a) = same_host a root

-- `sort` is qsort by compare_by_desc_length.
module _ (sort : List Binding → List Binding) where
  unfoldable pub refresh_cwd_alias_prefix : View → View
  unfolding get_binding is_alias
  refresh_cwd_alias_prefix v =
      let (alias_binding, fs1) = get_binding sort v.fs guest oldroot in
      let (root_binding, fs2) = get_binding sort fs1 guest root_path in
      record v {
        fs = fs2;
        cwd_alias_prefix =
            if is_alias (named oldroot alias_binding) (named root_path root_binding)
            then some oldroot
            else none;
      }

  unfoldable pub rebase_at : View → List ℕ → Option Binding → Option Binding → ℤ × View
  unfolding is_still_alias substitute_binding rebase_by
  rebase_at v alias alias_binding none = (pos 0, v)
  rebase_at v alias alias_binding (some root) =
      let (substituted, fs') = substitute_binding sort v.fs guest v.cwd in
      if not (is_still_alias alias root alias_binding)
      then (pos 0, v)
      else if leb path_max (length v.cwd)
      then (neg 36, v)
      else rebase_by (record v { fs = fs' }) alias substituted

  unfoldable pub rebase_from : View → Option (List ℕ) → ℤ × View
  unfolding path_has_prefix get_binding rebase_at
  rebase_from v none = (pos 0, v)
  rebase_from v (some alias) =
      let (alias_binding, fs1) = get_binding sort v.fs guest alias in
      let (root_binding, fs2) = get_binding sort fs1 guest root_path in
      if not (path_has_prefix v.cwd alias)
      then (pos 0, v)
      else rebase_at (record v { fs = fs2 }) alias (named alias alias_binding)
          (named root_path root_binding)

  unfoldable pub rebase_cwd_alias : View → ℤ × View
  unfolding rebase_from
  rebase_cwd_alias v = rebase_from v v.cwd_alias_prefix

-- A path of two bytes that ends in a dot keeps its first; else the last two bytes go.
unfoldable pub chop_finality : List ℕ → List ℕ
chop_finality path =
    let len = length path in
    if ltb len 2
    then path
    else if byte_at path (len - 1) == 46
    then take (if len == 2 then len - 1 else len - 2) path
    else if byte_at path (len - 1) == slash
    then take (len - 1) path
    else path
