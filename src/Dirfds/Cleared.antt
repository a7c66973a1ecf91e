-- ===== src/Dirfds/Cleared.antt =====
-- src/path/path.c: clear_translated_dirfds leaves no entry of the process.
use neoproot.Base.{
  ℕ, zero, suc, ◌+◌, ◌<◌, ◌≡◌, ◌≢◌, ◌⊎◌, refl, ap, ◌∙◌, sym, Bool, true, false, ◌&&◌, List, Option,
  none, some, ◌==◌, if◌then◌else◌, Bool-cases, inl, inr, arith, get_elem?, set, length, length-set,
  get_elem?-set_self, get_elem?-set_ne, get_elem?-lt, ℕ_discrete,
}
use mathlib.Core.Option.{some-injective}
use mathlib.Core.Path.{subst}
use neoproot.Dirfds.{
  same_fd, Slot, Dirfds, free_slot, holds, close_host_dirfd_slot, forget_at, dirfd_cache_slot,
  forget_translated_dirfd, forget_if, forget_from, clear_translated_dirfds,
}
use neoproot.Dirfds.Found.{IsFound, dirfd_cache_slot-Looked}
use neoproot.Dirfds.Unique.{IsUnique, close-held, forget_if-IsUnique}

-- What a slot holds afterwards it held before.
Shrinks : List Slot → List Slot → Type 0
Shrinks before after =
    (j : ℕ) (t : Slot) (pid fd : ℕ)
    → get_elem? after j ≡ some t
    → holds pid fd t ≡ true
    → (s : Slot) × (get_elem? before j ≡ some s) × (holds pid fd s ≡ true)

Shrinks-refl : (ss : List Slot) → Shrinks ss ss
unfolding Shrinks
Shrinks-refl ss j t pid fd e h = (t, e, h)

freed :
    (ss : List Slot) (i : ℕ) (t : Slot) → get_elem? (set ss i free_slot) i ≡ some t → free_slot ≡ t
freed ss i t e =
    let inside : i < length ss =
      omega (arith, get_elem?-lt (set ss i free_slot) i e, length-set ss i free_slot) in
    some-injective free_slot t (sym (get_elem?-set_self ss i free_slot inside) ∙ e)

pub free-holds : (t : Slot) (pid fd : ℕ) → free_slot ≡ t → holds pid fd t ≡ false
free-holds t pid fd e = subst (λ x. holds pid fd x ≡ false) e (ground arith)

-- The slot at the index is free afterwards, the others are as they were.
forget_at-others :
    (c : Dirfds) (i j : ℕ) (t : Slot)
    → i ≢ j
    → get_elem? (forget_at c (some i)).slots j ≡ some t
    → get_elem? c.slots j ≡ some t
unfolding forget_at close_host_dirfd_slot
forget_at-others c i j t n e =
    close-held c.slots i j (get_elem? c.slots i) t n
      (sym (get_elem?-set_ne (close_host_dirfd_slot c i).slots free_slot n) ∙ e)

forget_at-holds :
    (c : Dirfds) (i : ℕ) (t : Slot) (pid fd : ℕ)
    → get_elem? (forget_at c (some i)).slots i ≡ some t
    → holds pid fd t ≡ false
unfolding forget_at
forget_at-holds c i t pid fd e = free-holds t pid fd (freed (close_host_dirfd_slot c i).slots i t e)

forget_at-none : (c : Dirfds) → forget_at c none ≡ c
unfolding forget_at
forget_at-none c = refl

forget_at-Shrinks : (c : Dirfds) (o : Option ℕ) → Shrinks c.slots (forget_at c o).slots
unfolding Shrinks
forget_at-Shrinks c none j t pid fd e h =
    (t, subst (λ x. get_elem? x.slots j ≡ some t) (forget_at-none c) e, h)
forget_at-Shrinks c (some i) j t pid fd e h = elim (ℕ_discrete i j) [
  | no n ↦ (t, forget_at-others c i j t n e, h)
  | yes q ↦
      (let at : get_elem? (forget_at c (some i)).slots i ≡ some t =
          subst (λ k. get_elem? (forget_at c (some i)).slots k ≡ some t) (sym q) e in
        let no_more = forget_at-holds c i t pid fd at in absurd (cc))
]

-- Forgetting a descriptor shrinks what the slots hold.
forget-Shrinks :
    (c : Dirfds) (pid : ℕ) (fd : Option ℕ)
    → Shrinks c.slots (forget_translated_dirfd c pid fd).slots
unfolding forget_translated_dirfd
forget-Shrinks c pid none = Shrinks-refl c.slots
forget-Shrinks c pid (some fd) =
    let r = dirfd_cache_slot c pid (some fd) in
    let k = dirfd_cache_slot-Looked c pid fd in
    subst (λ ss. Shrinks ss (forget_at r.1 r.0).slots) k.1 (forget_at-Shrinks r.1 r.0)

forget_if-Shrinks :
    (p : Slot → Bool) (pid : ℕ) (c : Dirfds) (o : Option Slot)
    → Shrinks c.slots (forget_if p pid c o).slots
unfolding forget_if
forget_if-Shrinks p pid c none = Shrinks-refl c.slots
forget_if-Shrinks p pid c (some s) = elim (Bool-cases (s.pid == pid && p s)) [
  | inl e ↦ rw e (forget-Shrinks c pid s.fd)
  | inr n ↦ rw n (Shrinks-refl c.slots)
]

-- After a lookup that found the slot that holds the descriptor, forgetting frees that slot.
gone_at :
    (c : Dirfds) (pid fd i : ℕ) (o : Option ℕ) (s t : Slot)
    → IsUnique c.slots
    → IsFound pid fd c.slots o
    → get_elem? c.slots i ≡ some s
    → holds pid fd s ≡ true
    → get_elem? (forget_at c o).slots i ≡ some t
    → holds pid fd t ≡ false
unfolding IsUnique
gone_at c pid fd i none s t u found e h a =
    let never : holds pid fd s ≡ false = found i s e in absurd (cc)
gone_at c pid fd i (some k) s t u (r, at, p) e h a =
    let same : k ≡ i = u k i r s pid fd at e p h in
    let here : get_elem? (forget_at c (some k)).slots k ≡ some t =
      subst (λ j. get_elem? (forget_at c (some k)).slots j ≡ some t) (sym same) a in
    forget_at-holds c k t pid fd here

forget-gone :
    (c : Dirfds) (pid fd i : ℕ) (s t : Slot)
    → IsUnique c.slots
    → get_elem? c.slots i ≡ some s
    → holds pid fd s ≡ true
    → get_elem? (forget_translated_dirfd c pid (some fd)).slots i ≡ some t
    → holds pid fd t ≡ false
unfolding forget_translated_dirfd
forget-gone c pid fd i s t u e h a =
    let r = dirfd_cache_slot c pid (some fd) in
    let k = dirfd_cache_slot-Looked c pid fd in
    let found : IsFound pid fd r.1.slots r.0 = subst (λ ss. IsFound pid fd ss r.0) (sym k.1) k.0 in
    gone_at r.1 pid fd i r.0 s t (subst IsUnique (sym k.1) u) found
      (subst (λ ss. get_elem? ss i ≡ some s) (sym k.1) e) h a

same_fd-eq : (o : Option ℕ) (fd : ℕ) → same_fd o fd ≡ true → o ≡ some fd
same_fd-eq none fd h = cc
same_fd-eq (some f) fd h = ap some (ground arith)

forget_if-gone :
    (c : Dirfds) (pid fd i : ℕ) (o : Option Slot) (t : Slot)
    → IsUnique c.slots
    → get_elem? c.slots i ≡ o
    → get_elem? (forget_if (λ s. true) pid c o).slots i ≡ some t
    → holds pid fd t ≡ true
    → ⊥
unfolding forget_if Shrinks
forget_if-gone c pid fd i none t u e a h = cc
forget_if-gone c pid fd i (some s) t u e a h = by_pid (Bool-cases (s.pid == pid && true)) a
  where
    -- The slot was one of the process, so its descriptor was forgotten.
    forgotten : get_elem? (forget_translated_dirfd c pid s.fd).slots i ≡ some t → ⊥
    forgotten b =
        let (s', e', h') = forget-Shrinks c pid s.fd i t pid fd b h in
        let same : s' ≡ s = some-injective s' s (sym e' ∙ e) in
        let held : holds pid fd s ≡ true = subst (λ x. holds pid fd x ≡ true) same h' in
        let key : s.fd ≡ some fd = same_fd-eq s.fd fd (ground arith) in
        let gone : holds pid fd t ≡ false =
          forget-gone c pid fd i s t u e held
            (subst (λ o. get_elem? (forget_translated_dirfd c pid o).slots i ≡ some t) key b) in
        cc

    by_pid :
        ((s.pid == pid && true) ≡ true) ⊎ ((s.pid == pid && true) ≡ false)
        → get_elem? (if s.pid == pid && true then forget_translated_dirfd c pid s.fd else c).slots i
          ≡ some t
        → ⊥
    by_pid (inl p) b = forgotten (
        subst
          (λ x. get_elem? (if x then forget_translated_dirfd c pid s.fd else c).slots i ≡ some t) p
          b)
    by_pid (inr p) b =
        let left : get_elem? c.slots i ≡ some t =
          subst
            (λ x. get_elem? (if x then forget_translated_dirfd c pid s.fd else c).slots i ≡ some t)
            p b in
        let same : s ≡ t = some-injective s t (sym e ∙ left) in
        let held : holds pid fd s ≡ true = subst (λ x. holds pid fd x ≡ true) (sym same) h in
        absurd (ground arith)

-- No slot below the index holds a descriptor of the process.
abbrev pub NoneBelow : ℕ → ℕ → List Slot → Type 0
NoneBelow pid n ss =
    (j : ℕ) (t : Slot) (fd : ℕ) → j < n → get_elem? ss j ≡ some t → holds pid fd t ≡ true → ⊥

round-NoneBelow :
    (c : Dirfds) (pid i : ℕ)
    → IsUnique c.slots
    → NoneBelow pid i c.slots
    → NoneBelow pid (suc i) (forget_if (λ s. true) pid c (get_elem? c.slots i)).slots
unfolding Shrinks
round-NoneBelow c pid i u h j t fd lt e p = elim (ℕ_discrete i j) [
  | yes q ↦
      (let at : get_elem? (forget_if (λ s. true) pid c (get_elem? c.slots i)).slots i ≡ some t =
          subst
            (λ k. get_elem? (forget_if (λ s. true) pid c (get_elem? c.slots i)).slots k ≡ some t)
            (sym q) e in
        forget_if-gone c pid fd i (get_elem? c.slots i) t u refl at p)
  | no n ↦
      (let (s, e', p') = forget_if-Shrinks (λ s. true) pid c (get_elem? c.slots i) j t pid fd e p in
        h j s fd (omega arith) e' p')
]

forget_from-NoneBelow :
    (pid n i : ℕ) (c : Dirfds)
    → IsUnique c.slots
    → NoneBelow pid i c.slots
    → NoneBelow pid (n + i) (forget_from (λ s. true) pid n i c).slots
unfolding forget_from
forget_from-NoneBelow pid zero i c u h = λ j t fd lt. h j t fd (omega arith)
forget_from-NoneBelow pid (suc n) i c u h =
    let next = forget_if (λ s. true) pid c (get_elem? c.slots i) in
    let rest =
      forget_from-NoneBelow pid n (suc i) next
        (forget_if-IsUnique (λ s. true) pid c (get_elem? c.slots i) u)
        (round-NoneBelow c pid i u h) in
    λ j t fd lt. rest j t fd (omega arith)

-- Where no two slots hold the same, clearing a process leaves none of the 64 slots with a descriptor
-- of it.
pub clear_translated_dirfds-NoneBelow :
    (c : Dirfds) (pid : ℕ)
    → IsUnique c.slots
    → NoneBelow pid 64 (clear_translated_dirfds c pid).slots
unfolding clear_translated_dirfds
clear_translated_dirfds-NoneBelow c pid u =
    forget_from-NoneBelow pid 64 0 c u (λ j t fd lt. absurd (omega arith))
