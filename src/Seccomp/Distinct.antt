-- ===== src/Seccomp/Distinct.antt =====
-- src/syscall/seccomp.c, src/syscall/sysnum.c: calls that are listed once have different numbers.
use neoproot.Base.{
  ℕ, suc, ◌-◌, ◌≤◌, ◌≡◌, ◌≢◌, ◌⊎◌, refl, Bool, false, ◌||◌, List, [], ◌∷◌, Option, none, some, ◌==◌,
  if◌then◌else◌, Bool-cases, inl, inr, arith,
}
use neoproot.Base.Words.{word_mod}
use neoproot.Seccomp.{FilteredSysnum, number_from, detranslate}

abbrev pub has : ℕ → List FilteredSysnum → Bool
has v [] = false
has v (s ∷ ss) = s.value == v || has v ss

-- No call is listed twice.
abbrev pub Once : List FilteredSysnum → Type 0
Once [] = Unit
Once (s ∷ ss) = (has s.value ss ≡ false) × Once ss

-- The first listed call of a number.
unfoldable pub listed : List ℕ → ℕ → List FilteredSysnum → Option FilteredSysnum
listed table number [] = none
listed table number (s ∷ ss) =
    let rest = listed table number ss in
    if detranslate table s.value == number then some s else rest

number_from-le :
    (v : ℕ) (table : List ℕ) (n : ℕ)
    → (n ≤ number_from v table n) ⊎ (number_from v table n ≡ word_mod - 1)
unfolding number_from
number_from-le v [] n = inr refl
number_from-le v (x ∷ table) n = elim (Bool-cases (x == v)) [
  | inl e ↦ rw e (inl (omega arith))
  | inr e ↦ rw e (ground (arith, number_from-le v table (suc n)))
]

number_from-injective :
    (v w : ℕ) (table : List ℕ) (n : ℕ)
    → number_from v table n ≡ number_from w table n
    → number_from v table n ≢ word_mod - 1
    → v ≡ w
unfolding number_from
number_from-injective v w [] n e ne = absurd (ne refl)
number_from-injective v w (x ∷ table) n e ne = ground (
  arith,
  number_from-injective v w table (suc n),
  number_from-le v table (suc n),
  number_from-le w table (suc n),
)

pub detranslate-injective :
    (table : List ℕ) (v w : ℕ)
    → detranslate table v ≡ detranslate table w
    → detranslate table v ≢ word_mod - 1
    → v ≡ w
unfolding detranslate
detranslate-injective table v w e ne = ground (arith, number_from-injective v w table 0)

-- A call that is not listed has no number in common with one that is.
pub listed-unlisted :
    (table : List ℕ) (v : ℕ) (ss : List FilteredSysnum)
    → has v ss ≡ false
    → detranslate table v ≢ word_mod - 1
    → listed table (detranslate table v) ss ≡ none
unfolding listed
listed-unlisted table v [] h ne = refl
listed-unlisted table v (s ∷ ss) h ne =
    ground (arith, listed-unlisted table v ss, detranslate-injective table v s.value)
