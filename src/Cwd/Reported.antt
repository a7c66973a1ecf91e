-- ===== src/Cwd/Reported.antt =====
-- get_reported_cwd and chop_finality of src/path/path.c, by how the path is put together.
use neoproot.Base.{
  ℕ, zero, suc, ◌+◌, ◌-◌, ◌<◌, ◌≡◌, refl, ap, ◌∙◌, sym, true, false, List, [], ◌∷◌, ◌++◌, some, ltb,
  ◌==◌, arith, length, take, drop, length-append,
}
use mathlib.Core.List.{append-nil}
use neoproot.Path.{slash, byte_at, same_range}
use neoproot.Bindings.{root_path}
use neoproot.Cwd.{reported, chop_finality}

byte_at-end : (p : List ℕ) (c d : ℕ) → byte_at (p ++ c ∷ d ∷ []) (suc (length p)) ≡ d
byte_at-end [] c d = refl
byte_at-end (x ∷ p) c d = byte_at-end p c d

byte_at-behind : (p q : List ℕ) → byte_at (p ++ q) (length p) ≡ byte_at q 0
byte_at-behind [] [] = refl
byte_at-behind [] (y ∷ q) = refl
byte_at-behind (x ∷ p) q = byte_at-behind p q

byte_at-front : (p q : List ℕ) (k : ℕ) → k < length p → byte_at (p ++ q) k ≡ byte_at p k
byte_at-front [] q k h = absurd (omega (arith, h))
byte_at-front (x ∷ p) q zero h = refl
byte_at-front (x ∷ p) q (suc k) h = byte_at-front p q k (omega (arith, h))

same_range-front : (p q : List ℕ) (i n : ℕ) → i + n ≡ length p → same_range (p ++ q) p i n ≡ true
unfolding same_range
same_range-front p q i zero h = refl
same_range-front p q i (suc n) h = ground (
  arith,
  byte_at-front p q i (omega (arith, h)),
  same_range-front p q (i + 1) n (omega (arith, h)),
)

take-front : (p q : List ℕ) → take (length p) (p ++ q) ≡ p
take-front [] q = refl
take-front (x ∷ p) q = ap (λ l. x ∷ l) (take-front p q)

drop-front : (p q : List ℕ) → drop (length p) (p ++ q) ≡ q
drop-front [] q = refl
drop-front (x ∷ p) q = drop-front p q

-- Of a directory below the alias, what is behind the alias is reported, and "/" of the alias itself.
reported-append :
    (alias rest : List ℕ)
    → (reported alias (some alias) ≡ root_path)
      × (reported (alias ++ slash ∷ rest) (some alias) ≡ slash ∷ rest)
unfolding reported
reported-append alias rest =
    let whole = append-nil alias in
    let all : same_range alias alias 0 (length alias) ≡ true =
      rw (sym (ap (λ l. same_range l alias 0 (length alias)) whole))
        (same_range-front alias [] 0 (length alias) (omega arith)) in
    let end : byte_at alias (length alias) ≡ 0 =
      rw (sym (ap (λ l. byte_at l (length alias)) whole)) (byte_at-behind alias []) in
    (
      rw (all, end) refl,
      rw
          (
            same_range-front alias (slash ∷ rest) 0 (length alias) (omega arith),
            byte_at-behind alias (slash ∷ rest),
          )
          (drop-front alias (slash ∷ rest)),
    )

-- Of a path whose last byte is a dot, and which has three bytes or more, the last two are cut,
-- whatever stands in front of the dot.
chop_finality-dot : (p : List ℕ) (c : ℕ) → 0 < length p → chop_finality (p ++ c ∷ 46 ∷ []) ≡ p
unfolding chop_finality
chop_finality-dot p c h =
    let len : length (p ++ c ∷ 46 ∷ []) ≡ suc (suc (length p)) =
      length-append p (c ∷ 46 ∷ []) ∙ omega arith in
    let last : suc (suc (length p)) - 1 ≡ suc (length p) = omega arith in
    let front : suc (suc (length p)) - 2 ≡ length p = omega arith in
    let long : ltb (suc (suc (length p))) 2 ≡ false = ground arith in
    let more : (suc (suc (length p)) == 2) ≡ false = ground (arith, h) in
    rw (len, long, last, byte_at-end p c 46, more, front) (take-front p (c ∷ 46 ∷ []))
