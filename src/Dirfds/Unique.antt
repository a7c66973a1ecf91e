-- ===== src/Dirfds/Unique.antt =====
-- src/path/path.c: no two slots of the cache hold the same descriptor of a process.
use neoproot.Base.{
  ℕ, zero, suc, ◌+◌, ◌%◌, ◌<◌, ◌≡◌, ◌≢◌, refl, ◌∙◌, sym, Bool, true, false, not, ◌&&◌, ◌||◌, List,
  Option, none, some, ◌==◌, Bool-cases, inl, inr, arith, get_elem?, set, length, length-set,
  get_elem?-set_self, get_elem?-set_ne, get_elem?-lt, ℕ_discrete,
}
use mathlib.Core.Option.{some-injective}
use mathlib.Core.Path.{subst}
use neoproot.Path.{byte_at, slash}
use neoproot.Dirfds.{
  Slot, Dirfds, dirfd_cache_size, free_slot, holds, closed_host, set_at, close_host_dirfd_slot,
  forget_at, dirfd_cache_slot, forget_translated_dirfd, forget_if, forget_from, has_paths, fill,
  remember_at, remember_translated_dirfd,
}
use neoproot.Dirfds.Found.{IsFound, dirfd_cache_slot-Looked}

unfoldable pub IsUnique : List Slot → Type 0
IsUnique ss =
    (i j : ℕ) (s t : Slot) (pid fd : ℕ)
    → get_elem? ss i ≡ some s
    → get_elem? ss j ≡ some t
    → holds pid fd s ≡ true
    → holds pid fd t ≡ true
    → i ≡ j

-- A slot is replaced by one that holds nothing that another slot holds.
set-IsUnique :
    (ss : List Slot) (k : ℕ) (v : Slot)
    → IsUnique ss
    → ((j : ℕ) (t : Slot) (pid fd : ℕ)
        → k ≢ j
        → get_elem? ss j ≡ some t
        → holds pid fd v ≡ true
        → holds pid fd t ≡ false)
    → IsUnique (set ss k v)
unfolding IsUnique
set-IsUnique ss k v h new i j s t pid fd a b p q = by_index (ℕ_discrete k i) (ℕ_discrete k j)
  where
    at_k : (i : ℕ) (s : Slot) → k ≡ i → get_elem? (set ss k v) i ≡ some s → v ≡ s
    at_k i s e a =
        let here : get_elem? (set ss k v) k ≡ some s =
          subst (λ n. get_elem? (set ss k v) n ≡ some s) (sym e) a in
        let inside : k < length ss =
          omega (arith, get_elem?-lt (set ss k v) k here, length-set ss k v) in
        some-injective v s (sym (get_elem?-set_self ss k v inside) ∙ here)

    mixed :
        (j : ℕ) (s t : Slot)
        → v ≡ s
        → k ≢ j
        → get_elem? (set ss k v) j ≡ some t
        → holds pid fd s ≡ true
        → holds pid fd t ≡ true
        → ⊥
    mixed j s t e n b p q =
        let other : holds pid fd t ≡ false =
          new j t pid fd n (sym (get_elem?-set_ne ss v n) ∙ b)
            (subst (λ x. holds pid fd x ≡ true) (sym e) p) in
        cc

    by_index : Dec (k ≡ i) → Dec (k ≡ j) → i ≡ j
    by_index (yes e) (yes e') = sym e ∙ e'
    by_index (yes e) (no n) = absurd (mixed j s t (at_k i s e a) n b p q)
    by_index (no n) (yes e) = absurd (mixed i t s (at_k j t e b) n a q p)
    by_index (no n) (no n') =
        h i j s t pid fd (sym (get_elem?-set_ne ss v n) ∙ a) (sym (get_elem?-set_ne ss v n') ∙ b) p
          q

free-IsUnique : (ss : List Slot) (k : ℕ) → IsUnique ss → IsUnique (set ss k free_slot)
free-IsUnique ss k h = set-IsUnique ss k free_slot h (λ j t pid fd n a p. ground arith)

-- A slot is changed, but not what it holds.
pub set_at-IsUnique :
    (ss : List Slot) (k : ℕ) (o : Option Slot) (f : Slot → Slot)
    → get_elem? ss k ≡ o
    → ((s : Slot) (pid fd : ℕ) → holds pid fd (f s) ≡ holds pid fd s)
    → IsUnique ss
    → IsUnique (set_at ss k o f)
unfolding IsUnique
set_at-IsUnique ss k none f e keeps h = h
set_at-IsUnique ss k (some s) f e keeps h = set-IsUnique ss k (f s) h (λ j t pid fd n a p.
    elim (Bool-cases (holds pid fd t)) [
      | inr no_more ↦ no_more
      | inl q ↦ absurd (n (h k j s t pid fd e a (sym (keeps s pid fd) ∙ p) q))
    ])

pub close_host_dirfd_slot-IsUnique :
    (c : Dirfds) (i : ℕ) → IsUnique c.slots → IsUnique (close_host_dirfd_slot c i).slots
unfolding close_host_dirfd_slot
close_host_dirfd_slot-IsUnique c i h =
    set_at-IsUnique c.slots i (get_elem? c.slots i) closed_host refl (λ s pid fd. refl) h

forget_at-IsUnique : (c : Dirfds) (o : Option ℕ) → IsUnique c.slots → IsUnique (forget_at c o).slots
unfolding forget_at
forget_at-IsUnique c none h = h
forget_at-IsUnique c (some i) h =
    free-IsUnique (close_host_dirfd_slot c i).slots i (close_host_dirfd_slot-IsUnique c i h)

pub forget_translated_dirfd-IsUnique :
    (c : Dirfds) (pid : ℕ) (fd : Option ℕ)
    → IsUnique c.slots
    → IsUnique (forget_translated_dirfd c pid fd).slots
unfolding forget_translated_dirfd
forget_translated_dirfd-IsUnique c pid none h = h
forget_translated_dirfd-IsUnique c pid (some fd) h =
    let r = dirfd_cache_slot c pid (some fd) in
    let k = dirfd_cache_slot-Looked c pid fd in
    forget_at-IsUnique r.1 r.0 (subst IsUnique (sym k.1) h)

pub forget_if-IsUnique :
    (p : Slot → Bool) (pid : ℕ) (c : Dirfds) (o : Option Slot)
    → IsUnique c.slots
    → IsUnique (forget_if p pid c o).slots
unfolding forget_if
forget_if-IsUnique p pid c none h = h
forget_if-IsUnique p pid c (some s) h = elim (Bool-cases (s.pid == pid && p s)) [
  | inl e ↦ rw e (forget_translated_dirfd-IsUnique c pid s.fd h)
  | inr n ↦ rw n h
]

pub forget_from-IsUnique :
    (p : Slot → Bool) (pid n i : ℕ) (c : Dirfds)
    → IsUnique c.slots
    → IsUnique (forget_from p pid n i c).slots
unfolding forget_from
forget_from-IsUnique p pid zero i c h = h
forget_from-IsUnique p pid (suc n) i c h =
    forget_from-IsUnique p pid n (suc i) (forget_if p pid c (get_elem? c.slots i))
      (forget_if-IsUnique p pid c (get_elem? c.slots i) h)

-- What the slots hold at an index, when a host descriptor is closed.
pub close-held :
    (ss : List Slot) (i j : ℕ) (o : Option Slot) (t : Slot)
    → i ≢ j
    → get_elem? (set_at ss i o closed_host) j ≡ some t
    → get_elem? ss j ≡ some t
close-held ss i j none t n e = e
close-held ss i j (some s) t n e = sym (get_elem?-set_ne ss (closed_host s) n) ∙ e

fill-IsUnique :
    (c : Dirfds) (i pid fd : ℕ) (proc_path guest_dir : List ℕ)
    → IsUnique c.slots
    → ((j : ℕ) (t : Slot) → i ≢ j → get_elem? c.slots j ≡ some t → holds pid fd t ≡ false)
    → IsUnique (fill (close_host_dirfd_slot c i) i pid fd proc_path guest_dir).slots
unfolding close_host_dirfd_slot
fill-IsUnique c i pid fd proc_path guest_dir h new =
    set-IsUnique (close_host_dirfd_slot c i).slots i _ (close_host_dirfd_slot-IsUnique c i h)
      (λ j t pid' fd' n a p.
        ground (arith, new j t n (close-held c.slots i j (get_elem? c.slots i) t n a)))

remember_at-IsUnique :
    (c : Dirfds) (pid fd : ℕ) (proc_path guest_dir : List ℕ) (o : Option ℕ)
    → IsFound pid fd c.slots o
    → IsUnique c.slots
    → IsUnique (remember_at c pid fd proc_path guest_dir o).slots
unfolding remember_at IsUnique
remember_at-IsUnique c pid fd proc_path guest_dir none found h =
    fill-IsUnique (record c { next = (c.next + 1) % dirfd_cache_size }) c.next pid fd proc_path
      guest_dir h (λ j t n e. found j t e)
remember_at-IsUnique c pid fd proc_path guest_dir (some i) (s, at, p) h =
    elim (Bool-cases (has_paths proc_path guest_dir (get_elem? c.slots i))) [
      | inl e ↦ rw e h
      | inr e ↦ rw e (
          fill-IsUnique c i pid fd proc_path guest_dir h (λ j t n a.
            elim (Bool-cases (holds pid fd t)) [
              | inr no_more ↦ no_more
              | inl q ↦ absurd (n (h i j s t pid fd at a p q))
            ]))
    ]

pub remember_translated_dirfd-IsUnique :
    (c : Dirfds) (pid : ℕ) (fd : Option ℕ) (proc_path guest_dir : List ℕ)
    → IsUnique c.slots
    → IsUnique (remember_translated_dirfd c pid fd proc_path guest_dir).slots
unfolding remember_translated_dirfd
remember_translated_dirfd-IsUnique c pid none proc_path guest_dir h = h
remember_translated_dirfd-IsUnique c pid (some fd) proc_path guest_dir h =
    let r = dirfd_cache_slot c pid (some fd) in
    let k = dirfd_cache_slot-Looked c pid fd in
    let found : IsFound pid fd r.1.slots r.0 = subst (λ ss. IsFound pid fd ss r.0) (sym k.1) k.0 in
    let next =
      remember_at-IsUnique r.1 pid fd proc_path guest_dir r.0 found (subst IsUnique (sym k.1) h) in
    elim (Bool-cases (not (byte_at proc_path 0 == slash) || not (byte_at guest_dir 0 == slash))) [
      | inl e ↦ rw e h
      | inr e ↦ rw e next
    ]
