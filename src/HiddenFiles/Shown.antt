-- ===== src/HiddenFiles/Shown.antt =====
-- src/extension/hidden_files/hidden_files.c: a listing shows the entries that are not hidden, as they were.
use neoproot.Base.{
  ℕ, zero, suc, ◌*◌, ◌^◌, ◌<◌, ◌≤◌, ◌≡◌, refl, ap, ◌∙◌, Bool, true, false, ◌||◌, List, [], ◌∷◌,
  ◌++◌, some, ltb, leb, ◌==◌, if◌then◌else◌, Bool-cases, inl, inr, arith, All, length, take, drop,
  length-append,
}
use neoproot.Path.{byte_at}
use neoproot.HiddenFiles.{
  hidden_prefix, has_prefix, name_offset, d_reclen, is_hidden, filter_dirents, Getdents, Listed,
  again, shortened, is_guest_path, put_dirents, filter_read, handle_getdents,
}

abbrev pub ends_name : List ℕ → Bool
ends_name [] = false
ends_name (c ∷ cs) = c == 0 || ends_name cs

-- An entry has its own length in it, and a name that ends.
abbrev pub IsDirent : Bool → List ℕ → Type 0
IsDirent is_64 d =
    (d_reclen d ≡ length d) × (20 ≤ length d) × (ends_name (drop (name_offset is_64) d) ≡ true)

abbrev pub dirents : List (List ℕ) → List ℕ
dirents [] = []
dirents (d ∷ ds) = d ++ dirents ds

abbrev pub visible : Bool → List (List ℕ) → List (List ℕ)
visible is_64 [] = []
visible is_64 (d ∷ ds) = let rest = visible is_64 ds in if is_hidden is_64 d then rest else d ∷ rest

take-front : (xs ys : List ℕ) → take (length xs) (xs ++ ys) ≡ xs
take-front [] ys = refl
take-front (x ∷ xs) ys = ap (λ l. x ∷ l) (take-front xs ys)

drop-front : (xs ys : List ℕ) → drop (length xs) (xs ++ ys) ≡ ys
drop-front [] ys = refl
drop-front (x ∷ xs) ys = drop-front xs ys

byte_at-front : (p q : List ℕ) (k : ℕ) → k < length p → byte_at (p ++ q) k ≡ byte_at p k
byte_at-front [] q k h = absurd (omega (arith, h))
byte_at-front (x ∷ p) q zero h = refl
byte_at-front (x ∷ p) q (suc k) h = byte_at-front p q k (omega (arith, h))

drop-inside : (n : ℕ) (xs ys : List ℕ) → n ≤ length xs → drop n (xs ++ ys) ≡ drop n xs ++ ys
drop-inside zero xs ys h = refl
drop-inside (suc n) [] ys h = absurd (omega (arith, h))
drop-inside (suc n) (x ∷ xs) ys h = drop-inside n xs ys (omega (arith, h))

-- What stands behind the end of a name is not compared, where the prefix has no terminator.
has_prefix-name :
    (prefix name rest : List ℕ)
    → All (λ p. (p == 0) ≡ false) prefix
    → ends_name name ≡ true
    → has_prefix prefix (name ++ rest) ≡ has_prefix prefix name
has_prefix-name [] name rest h k = refl
has_prefix-name (p ∷ prefix) [] rest h k = absurd (ground arith)
has_prefix-name (p ∷ prefix) (c ∷ name) rest (h, hs) k = elim (Bool-cases (p == c)) [
  | inr e ↦ rw e refl
  | inl e ↦ rw e (has_prefix-name prefix name rest hs (ground (arith, h, e, k)))
]

is_hidden-append :
    (is_64 : Bool) (d rest : List ℕ)
    → IsDirent is_64 d
    → is_hidden is_64 (d ++ rest) ≡ is_hidden is_64 d
is_hidden-append is_64 d rest (len, long, ends) =
    rw (drop-inside (name_offset is_64) d rest (ground (arith, long))) (
      has_prefix-name hidden_prefix (drop (name_offset is_64) d) rest
        (refl, (refl, (refl, (refl, (refl, (refl, tt)))))) ends)

filter-entries :
    (is_64 : Bool) (n : ℕ) (ds : List (List ℕ))
    → All (IsDirent is_64) ds
    → length (dirents ds) ≤ n
    → filter_dirents is_64 n (dirents ds) ≡ dirents (visible is_64 ds)
unfolding filter_dirents
filter-entries is_64 zero [] h k = refl
filter-entries is_64 (suc n) [] h k = refl
filter-entries is_64 n ([] ∷ ds) ((len, long, ends), hs) k = absurd (omega (arith, long))
filter-entries is_64 zero ((b ∷ d) ∷ ds) h k = absurd (omega (arith, k))
filter-entries is_64 (suc n) ((b ∷ d) ∷ ds) (h, hs) k =
    let entry = b ∷ d in
    let size : d_reclen (entry ++ dirents ds) ≡ length entry =
      rw
        (
          byte_at-front entry (dirents ds) 16 (omega (arith, h.1)),
          byte_at-front entry (dirents ds) 17 (omega (arith, h.1)),
        )
        h.0 in
    let shorter : length (dirents ds) ≤ n = omega (arith, k, length-append d (dirents ds)) in
    ap
      (λ r.
        if is_hidden is_64 (entry ++ dirents ds)
        then filter_dirents is_64 n (drop r (entry ++ dirents ds))
        else take r (entry ++ dirents ds) ++ filter_dirents is_64 n (drop r (entry ++ dirents ds)))
      size
    ∙ rw
        (
          is_hidden-append is_64 entry (dirents ds) h,
          drop-front entry (dirents ds),
          take-front d (dirents ds),
          filter-entries is_64 n ds hs shorter,
        )
        (elim (Bool-cases (is_hidden is_64 entry)) [ inl e ↦ rw e refl | inr e ↦ rw e refl ])

abbrev pub shown : List (List ℕ) → Listed
shown [] = again
shown (d ∷ ds) = shortened (dirents (d ∷ ds))

put-entries :
    (is_64 : Bool) (ds : List (List ℕ))
    → All (IsDirent is_64) ds
    → put_dirents true (dirents ds) ≡ shown ds
unfolding put_dirents
put-entries is_64 [] h = refl
put-entries is_64 ([] ∷ ds) ((len, long, ends), hs) = absurd (omega (arith, long))
put-entries is_64 ((b ∷ d) ∷ ds) h = refl

visible-All :
    (is_64 : Bool) (ds : List (List ℕ))
    → All (IsDirent is_64) ds
    → All (IsDirent is_64) (visible is_64 ds)
visible-All is_64 [] h = tt
visible-All is_64 (d ∷ ds) (h, hs) = elim (Bool-cases (is_hidden is_64 d)) [
  | inl e ↦ rw e (visible-All is_64 ds hs)
  | inr e ↦ rw e (h, visible-All is_64 ds hs)
]

-- Where a getdents or getdents64 of a directory in the guest, into a buffer of up to 4 MiB that can be
-- read and written, gave whole entries, the tracee sees those whose name does not start with ".proot",
-- unchanged and in order; where none is left, the call is made again.
pub handle_getdents-shown :
    (c : Getdents) (ds : List (List ℕ))
    → All (IsDirent c.is_64) ds
    → 0 < c.result
    → c.result < 2 ^ 63
    → 0 < c.count
    → c.count ≤ 4096 * 1024
    → is_guest_path c.root c.path ≡ true
    → c.orig_data ≡ some (dirents ds)
    → c.is_writable ≡ true
    → handle_getdents c ≡ shown (visible c.is_64 ds)
unfolding handle_getdents filter_read
handle_getdents-shown c ds entries some_bytes positive room bounded guest read writable =
    let is_read : (c.result == 0 || leb (2 ^ 63) c.result) ≡ false =
      ground (arith, some_bytes, positive) in
    let is_sized : (c.count == 0 || ltb (4096 * 1024) c.count) ≡ false =
      ground (arith, room, bounded) in
    rw
      (
        is_read,
        is_sized,
        guest,
        read,
        writable,
        filter-entries c.is_64 (length (dirents ds)) ds entries (omega arith),
      )
      (put-entries c.is_64 (visible c.is_64 ds) (visible-All c.is_64 ds entries))
