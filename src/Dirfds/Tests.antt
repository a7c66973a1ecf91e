-- ===== src/Dirfds/Tests.antt =====
-- Witnesses at concrete inputs.
use neoproot.Base.{ℕ, zero, suc, ◌≡◌, false, List, [], ◌∷◌, Option, some, get_elem?, replicate, ◌+◌}
use mathlib.Core.Option.{some-injective}
use neoproot.Dirfds.{Slot, Dirfds, dirfd_cache_size, dirfd_cache_init, free_slot, holds}
use neoproot.Dirfds.Unique.{IsUnique}
use neoproot.Dirfds.Histories.{
  Use, translated, attached_fd, closed, duplicated, forked, run_dirfds, run_dirfds-IsUnique,
}
use neoproot.Dirfds.Cleared.{free-holds}

all_free : (n i : ℕ) (s : Slot) → get_elem? (replicate n free_slot) i ≡ some s → free_slot ≡ s
all_free zero i s e = cc
all_free (suc n) zero s e = some-injective free_slot s e
all_free (suc n) (suc i) s e = all_free n i s e

init-IsUnique : IsUnique dirfd_cache_init.slots
unfolding IsUnique
init-IsUnique i j s t pid fd a b p q =
    let never : holds pid fd s ≡ false = free-holds s pid fd (all_free dirfd_cache_size i s a) in
    absurd (cc)

-- A copy of a host descriptor is the next number, and every host descriptor is a directory.
abbrev next_fd : ℕ → Option ℕ
next_fd fd = some (fd + 1)

abbrev directory : ℕ → Option (ℕ × ℕ)
directory fd = some (8, fd)

abbrev some_uses : List Use
some_uses =
    translated 10 (some 3) (47 ∷ 97 ∷ []) (47 ∷ [])
    ∷ attached_fd 10 (some 3) (some 50)
    ∷ duplicated 10 (some 3) (some 4)
    ∷ forked 10 11
    ∷ closed 10 (some 3)
    ∷ []

run_dirfds-IsUnique_example :
    IsUnique (run_dirfds next_fd directory dirfd_cache_init some_uses).slots
run_dirfds-IsUnique_example =
    run_dirfds-IsUnique next_fd directory dirfd_cache_init some_uses init-IsUnique

abbrev pub used : Dirfds
used = run_dirfds next_fd directory dirfd_cache_init some_uses

pub used-IsUnique : IsUnique used.slots
used-IsUnique = run_dirfds-IsUnique next_fd directory dirfd_cache_init some_uses init-IsUnique
