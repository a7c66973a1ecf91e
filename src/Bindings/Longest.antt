-- ===== src/Bindings/Longest.antt =====
-- src/path/binding.c: find_best_prefix answers the guest binding with the longest path.
use neoproot.Base.{
  ℕ, zero, suc, ◌≤◌, ◌≡◌, refl, ap, sym, true, false, List, [], ◌∷◌, Option, none, some, Bool-cases,
  inl, inr, arith, length, get_elem?,
}
use mathlib.Core.Path.{subst}
use mathlib.Core.Option.{some-injective}
use neoproot.Base.{◌↔◌}
use neoproot.Path.{slash, byte_at}
use neoproot.Bindings.{
  Binding, Fs, is_best, first_best, table_of, build_guest_binding_cache, in_table, find_best_prefix,
  get_binding, or_else, first_prefix, guest,
}
use neoproot.Bindings.Under.{Lies, IsPlace, is_best-Lies, Lies-is_best}
use neoproot.Bindings.Cache.{IsCoherent, built-eq}

abbrev pub Among : Binding → List Binding → Type 0
Among b l = (i : ℕ) × (get_elem? l i ≡ some b)

abbrev path_length : Binding → ℕ
path_length b = length b.layer.guest_path

-- The longest guest paths first.
abbrev pub Descending : List Binding → Type 0
Descending [] = Unit {0}
Descending (b ∷ l) =
    ((c : Binding) → Among c l → length c.layer.guest_path ≤ length b.layer.guest_path)
    × Descending l

abbrev pub Places : List Binding → Type 0
Places l = (c : Binding) → Among c l → IsPlace c.layer.guest_path

-- Of the bindings that hold the path, one with the longest guest path; none if no binding holds it.
abbrev pub IsBest : List ℕ → List Binding → Option Binding → Type 0
IsBest path l none = (c : Binding) → Among c l → Lies c.layer.guest_path path → ⊥
IsBest path l (some b) =
    Among b l
    × Lies b.layer.guest_path path
    × ((c : Binding)
        → Among c l
        → Lies c.layer.guest_path path
        → length c.layer.guest_path ≤ length b.layer.guest_path)

behind_first : (b c : Binding) (l : List Binding) → Among c l → Among c (b ∷ l)
behind_first b c l (i, e) = (suc i, e)

not_first :
    (path : List ℕ) (b c : Binding)
    → IsPlace b.layer.guest_path
    → is_best path b ≡ false
    → b ≡ c
    → Lies c.layer.guest_path path
    → ⊥
not_first path b c p n same k =
    let under : Lies b.layer.guest_path path =
      subst (λ x. Lies x.layer.guest_path path) (sym same) k in
    let holds : is_best path b ≡ true = Lies-is_best path b p under in cc

past-IsBest :
    (path : List ℕ) (b : Binding) (l : List Binding) (o : Option Binding)
    → IsPlace b.layer.guest_path
    → is_best path b ≡ false
    → IsBest path l o
    → IsBest path (b ∷ l) o
past-IsBest path b l none p n h = no_other
  where
    no_other : (c : Binding) → Among c (b ∷ l) → Lies c.layer.guest_path path → ⊥
    no_other c (zero, e) k = not_first path b c p n (some-injective b c e) k
    no_other c (suc i, e) k = h c (i, e) k
past-IsBest path b l (some d) p n (m, k, top) = (behind_first b d l m, k, bound)
  where
    bound :
        (c : Binding)
        → Among c (b ∷ l)
        → Lies c.layer.guest_path path
        → length c.layer.guest_path ≤ length d.layer.guest_path
    bound c (zero, e) q = absurd (not_first path b c p n (some-injective b c e) q)
    bound c (suc i, e) q = top c (i, e) q

here-IsBest :
    (path : List ℕ) (b : Binding) (l : List Binding)
    → Descending (b ∷ l)
    → is_best path b ≡ true
    → IsBest path (b ∷ l) (some b)
here-IsBest path b l (top, d) e = ((0, refl), is_best-Lies path b e, bound)
  where
    bound :
        (c : Binding)
        → Among c (b ∷ l)
        → Lies c.layer.guest_path path
        → length c.layer.guest_path ≤ length b.layer.guest_path
    bound c (zero, q) k =
        let same : path_length b ≡ path_length c = ap path_length (some-injective b c q) in
        omega (arith, same)
    bound c (suc i, q) k = top c (i, q)

first_best-IsBest :
    (path : List ℕ) (l : List Binding) → Descending l → Places l → IsBest path l (first_best path l)
unfolding first_best
first_best-IsBest path [] d p = λ c a k. cc
first_best-IsBest path (b ∷ l) d p = elim (Bool-cases (is_best path b)) [
  | inl e ↦ rw e (here-IsBest path b l d e)
  | inr n ↦ rw n (
      past-IsBest path b l (first_best path l) (p b (0, refl)) n
        (first_best-IsBest path l d.1 (λ c a. p c (behind_first b c l a))))
]

-- qsort permutes the table and puts the longest paths first.
module _ (sort : List Binding → List Binding)
    (permutes : (l : List Binding) (b : Binding) → Among b (sort l) ↔ Among b l)
    (sorts : (l : List Binding) → Descending (sort l)) where
  sorted-IsBest :
      (path : List ℕ) (l : List Binding) (o : Option Binding)
      → IsBest path (sort l) o
      → IsBest path l o
  sorted-IsBest path l none h = λ c a k. h c ((permutes l c).1 a) k
  sorted-IsBest path l (some b) (m, k, top) =
      ((permutes l b).0 m, k, λ c a q. top c ((permutes l c).1 a) q)

  in_table-IsBest :
      (path : List ℕ) (l : List Binding)
      → Places l
      → IsBest path l (in_table sort path (table_of sort l))
  in_table-IsBest path [] p = λ c a k. cc
  in_table-IsBest path (b ∷ l) p =
      let places : Places (sort (b ∷ l)) = λ c a. p c ((permutes (b ∷ l) c).0 a) in
      sorted-IsBest path (b ∷ l) (first_best path (sort (b ∷ l)))
        (first_best-IsBest path (sort (b ∷ l)) (sorts (b ∷ l)) places)

  find_best_prefix-IsBest :
      (fs : Fs) (path : List ℕ)
      → IsCoherent sort fs
      → Places fs.guest_list
      → IsBest path fs.guest_list (find_best_prefix sort fs path).0
  unfolding find_best_prefix build_guest_binding_cache
  find_best_prefix-IsBest fs path k p =
      rw (built-eq sort fs k) (in_table-IsBest path fs.guest_list p)

  -- Where a guest path starts with a slash and some binding holds it, get_binding answers a binding
  -- of the list that holds it, and no binding with a longer path does.
  pub get_binding-IsBest :
      (fs : Fs) (path : List ℕ) (c : Binding)
      → IsCoherent sort fs
      → Places fs.guest_list
      → byte_at path 0 ≡ slash
      → Among c fs.guest_list
      → Lies c.layer.guest_path path
      → (b : Binding) × ((get_binding sort fs guest path).0 ≡ some b)
        × IsBest path fs.guest_list (some b)
  unfolding get_binding
  get_binding-IsBest fs path c k p s a q =
      rw (s) (by_best (find_best_prefix sort fs path).0 (find_best_prefix-IsBest fs path k p))
    where
      by_best :
          (o : Option Binding)
          → IsBest path fs.guest_list o
          → (b : Binding) × (or_else o (first_prefix guest path fs.guest_list) ≡ some b)
            × IsBest path fs.guest_list (some b)
      by_best none h = absurd (h c a q)
      by_best (some b) h = (b, refl, h)
