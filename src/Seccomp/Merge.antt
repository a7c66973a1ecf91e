-- ===== src/Seccomp/Merge.antt =====
-- src/syscall/seccomp.c: merge_filtered_sysnums, and the list that enable_syscall_filtering makes.
use neoproot.Base.{
  ℕ, ◌≡◌, refl, sym, Bool, true, false, ◌||◌, List, [], ◌∷◌, Option, none, some, ◌==◌,
  if◌then◌else◌, Bool-cases, inl, inr, arith, bit_or,
}
use neoproot.Base.Bits.{bit_or-zero, zero-bit_or, bit_or_assoc}
use neoproot.Seccomp.{Built, FilteredSysnum}
use neoproot.Seccomp.Filters.{Mode, SeccompArch, build}
use neoproot.Seccomp.Distinct.{has, Once}
use neoproot.Seccomp.Lists.{proot_sysnums, netlink_sysnums}

-- The flags are joined where the call is already listed, and it is put at the end where it is not.
unfoldable pub merge_one : List FilteredSysnum → FilteredSysnum → List FilteredSysnum
merge_one [] s = s ∷ []
merge_one (x ∷ l) s =
    let rest = merge_one l s in
    if x.value == s.value then record x { flags = bit_or x.flags s.flags } ∷ l else x ∷ rest

unfoldable pub merge_filtered_sysnums :
    List FilteredSysnum → List FilteredSysnum → List FilteredSysnum
unfolding merge_one
merge_filtered_sysnums l [] = l
merge_filtered_sysnums l (s ∷ new) = merge_filtered_sysnums (merge_one l s) new

-- The lists of the extensions, of those that have one.
unfoldable pub merge_extensions :
    List FilteredSysnum → List (Option (List FilteredSysnum)) → List FilteredSysnum
unfolding merge_filtered_sysnums
merge_extensions l [] = l
merge_extensions l (none ∷ exts) = merge_extensions l exts
merge_extensions l (some new ∷ exts) = merge_extensions (merge_filtered_sysnums l new) exts

unfoldable pub filtered_sysnums :
    Bool → Bool → List (Option (List FilteredSysnum)) → List FilteredSysnum
unfolding merge_extensions
filtered_sysnums android host_blocks_af_netlink exts =
    let base = merge_filtered_sysnums [] (proot_sysnums android) in
    merge_extensions
      (if host_blocks_af_netlink then merge_filtered_sysnums base netlink_sysnums else base) exts

-- The program that enable_syscall_filtering installs.
unfoldable pub enable_syscall_filtering :
    Mode → List SeccompArch → Bool → Bool → List (Option (List FilteredSysnum)) → Built
unfolding filtered_sysnums
enable_syscall_filtering m archs android host_blocks_af_netlink exts =
    build m archs (filtered_sysnums android host_blocks_af_netlink exts)

abbrev pub flags_at : ℕ → FilteredSysnum → ℕ
flags_at v s = if s.value == v then s.flags else 0

-- The flags that a list has for a call, all its entries together.
unfoldable pub flags_of : ℕ → List FilteredSysnum → ℕ
flags_of v [] = 0
flags_of v (s ∷ ss) = bit_or (flags_at v s) (flags_of v ss)

has-merge_one :
    (v : ℕ) (l : List FilteredSysnum) (s : FilteredSysnum)
    → has v (merge_one l s) ≡ (has v l || s.value == v)
unfolding merge_one
has-merge_one v [] s = ground arith
has-merge_one v (x ∷ l) s = ground (arith, has-merge_one v l s)

merge_one-Once : (l : List FilteredSysnum) (s : FilteredSysnum) → Once l → Once (merge_one l s)
unfolding merge_one
merge_one-Once [] s once = (refl, once)
merge_one-Once (x ∷ l) s (new, once) = elim (Bool-cases (x.value == s.value)) [
  | inl e ↦ rw e (new, once)
  | inr e ↦ rw e (ground (arith, has-merge_one x.value l s), merge_one-Once l s once)
]

unlisted_flags : (v : ℕ) (l : List FilteredSysnum) → has v l ≡ false → flags_of v l ≡ 0
unfolding flags_of
unlisted_flags v [] h = refl
unlisted_flags v (s ∷ l) h =
    let here : (s.value == v) ≡ false = ground arith in
    rw (here, unlisted_flags v l (ground arith)) refl

flags_of-merge_one :
    (v : ℕ) (l : List FilteredSysnum) (s : FilteredSysnum)
    → Once l
    → flags_of v (merge_one l s) ≡ bit_or (flags_of v l) (flags_at v s)
unfolding merge_one flags_of
flags_of-merge_one v [] s once = rw (bit_or-zero (flags_at v s), zero-bit_or (flags_at v s)) refl
flags_of-merge_one v (x ∷ l) s (new, once) = elim (Bool-cases (x.value == s.value)) [
  | inr e ↦
      rw (e, flags_of-merge_one v l s once)
        (sym (bit_or_assoc (flags_at v x) (flags_of v l) (flags_at v s)))
  | inl e ↦ elim (Bool-cases (x.value == v)) [
    | inl c ↦
        (let same : (s.value == v) ≡ true = ground arith in
          let none_behind : flags_of v l ≡ 0 = unlisted_flags v l (ground arith) in
          rw (e, c, same, none_behind, bit_or-zero (bit_or x.flags s.flags), bit_or-zero x.flags)
            refl)
    | inr c ↦
        (let same : (s.value == v) ≡ false = ground arith in
          rw (e, c, same, zero-bit_or (flags_of v l), bit_or-zero (flags_of v l)) refl)
  ]
]

-- A list made by merging has no call twice.
pub merge-Once : (l new : List FilteredSysnum) → Once l → Once (merge_filtered_sysnums l new)
unfolding merge_filtered_sysnums
merge-Once l [] once = once
merge-Once l (s ∷ new) once = merge-Once (merge_one l s) new (merge_one-Once l s once)

-- Merged into a list that has no call twice, a call is listed where one of the two lists has it, with
-- the flags that the two lists have for it.
pub merge-flags :
    (v : ℕ) (l new : List FilteredSysnum)
    → Once l
    → (has v (merge_filtered_sysnums l new) ≡ (has v l || has v new))
      × (flags_of v (merge_filtered_sysnums l new) ≡ bit_or (flags_of v l) (flags_of v new))
unfolding merge_filtered_sysnums flags_of
merge-flags v l [] once = (ground arith, sym (bit_or-zero (flags_of v l)))
merge-flags v l (s ∷ new) once =
    let (h, f) = merge-flags v (merge_one l s) new (merge_one-Once l s once) in
    (
      ground (arith, h, has-merge_one v l s),
      rw (f, flags_of-merge_one v l s once)
          (bit_or_assoc (flags_of v l) (flags_at v s) (flags_of v new)),
    )

pub extensions-Once :
    (l : List FilteredSysnum) (exts : List (Option (List FilteredSysnum)))
    → Once l
    → Once (merge_extensions l exts)
unfolding merge_extensions
extensions-Once l [] once = once
extensions-Once l (none ∷ exts) once = extensions-Once l exts once
extensions-Once l (some new ∷ exts) once =
    extensions-Once (merge_filtered_sysnums l new) exts (merge-Once l new once)

pub filtered-Once :
    (android blocked : Bool) (exts : List (Option (List FilteredSysnum)))
    → Once (filtered_sysnums android blocked exts)
unfolding filtered_sysnums
filtered-Once android true exts =
    let base = merge-Once [] (proot_sysnums android) tt in
    extensions-Once
      (merge_filtered_sysnums (merge_filtered_sysnums [] (proot_sysnums android)) netlink_sysnums)
      exts (merge-Once (merge_filtered_sysnums [] (proot_sysnums android)) netlink_sysnums base)
filtered-Once android false exts =
    extensions-Once (merge_filtered_sysnums [] (proot_sysnums android)) exts
      (merge-Once [] (proot_sysnums android) tt)
