-- ===== src/Bindings/Misplaced.antt =====
-- src/path/binding.c: where insort_binding puts a binding of a place inside those of two others.
use neoproot.Base.{
  ℕ, ◌+◌, ◌≡◌, ◌⊎◌, refl, ap, ◌∙◌, List, [], ◌∷◌, none, some, inl, inr, All, length,
}
use neoproot.Path.{
  Comparison, path1_is_prefix, path2_is_prefix, paths_are_not_comparable, slash, byte_at,
  compare_paths2,
}
use neoproot.Bindings.{host, Binding, Fs, get_binding, first_prefix}
use neoproot.Bindings.Insort.{between, spot, put, insort_binding, insert_at}

-- How the host paths of two bindings compare.
abbrev pub compare_hosts : Binding → Binding → Comparison
compare_hosts b c =
    compare_paths2 b.layer.host_path (length b.layer.host_path) c.layer.host_path
      (length c.layer.host_path)

-- None of the bindings is at the place of the new one or inside it.
abbrev pub NoneInside : Binding → List Binding → Type 0
NoneInside b l =
    All
      (λ c. (compare_hosts b c ≡ path2_is_prefix) ⊎ (compare_hosts b c ≡ paths_are_not_comparable))
      l

spot-between :
    (b : Binding) (l : List Binding) (i n : ℕ)
    → NoneInside b l
    → spot host b.layer l i none (some n) ≡ between none (some n)
unfolding spot
spot-between b [] i n h = refl
spot-between b (c ∷ l) i n (inl e, h) = rw (e, spot) (spot-between b l (i + 1) n h)
spot-between b (c ∷ l) i n (inr e, h) = rw (e, spot) (spot-between b l (i + 1) n h)

spot-behind :
    (b outer root : Binding) (rest : List Binding)
    → compare_hosts b outer ≡ path2_is_prefix
    → compare_hosts b root ≡ path2_is_prefix
    → NoneInside b rest
    → spot host b.layer (outer ∷ root ∷ rest) 0 none none ≡ between none (some 1)
unfolding spot
spot-behind b outer root rest e1 e2 h = rw (e1, spot) (rw (e2, spot) (spot-between b rest 2 1 h))

insort_binding-behind :
    (b outer root : Binding) (rest : List Binding) (fs : Fs)
    → fs.host_list ≡ outer ∷ root ∷ rest
    → compare_hosts b outer ≡ path2_is_prefix
    → compare_hosts b root ≡ path2_is_prefix
    → NoneInside b rest
    → (insort_binding host b fs).1.host_list ≡ outer ∷ b ∷ root ∷ rest
unfolding insort_binding put
insort_binding-behind b outer root rest fs l e1 e2 h =
    let at : spot host b.layer fs.host_list 0 none none ≡ between none (some 1) =
      ap (λ k. spot host b.layer k 0 none none) l ∙ spot-behind b outer root rest e1 e2 h in
    rw at (ap (insert_at 1 b) l)

get_binding-host :
    (sort : List Binding → List Binding) (fs : Fs) (path : List ℕ)
    → byte_at path 0 ≡ slash
    → (get_binding sort fs host path).0 ≡ first_prefix host path fs.host_list
unfolding get_binding
get_binding-host sort fs path s = rw s refl

first_prefix-first :
    (path : List ℕ) (c : Binding) (l : List Binding)
    → compare_paths2 c.layer.host_path (length c.layer.host_path) path (length path)
      ≡ path1_is_prefix
    → first_prefix host path (c ∷ l) ≡ some c
unfolding first_prefix
first_prefix-first path c l p = rw p refl

-- Where the first two host bindings both hold the place of a new one, the new one is put behind the
-- first, and a host path in the first one's place is still taken for one of the first.
pub insort_binding-misplaced :
    (sort : List Binding → List Binding) (b outer root : Binding) (rest : List Binding) (fs : Fs)
    (path : List ℕ)
    → fs.host_list ≡ outer ∷ root ∷ rest
    → compare_hosts b outer ≡ path2_is_prefix
    → compare_hosts b root ≡ path2_is_prefix
    → NoneInside b rest
    → byte_at path 0 ≡ slash
    → compare_paths2 outer.layer.host_path (length outer.layer.host_path) path (length path)
      ≡ path1_is_prefix
    → ((insort_binding host b fs).1.host_list ≡ outer ∷ b ∷ root ∷ rest)
      × ((get_binding sort (insort_binding host b fs).1 host path).0 ≡ some outer)
insort_binding-misplaced sort b outer root rest fs path l e1 e2 h s p =
    let at = insort_binding-behind b outer root rest fs l e1 e2 h in
    (
      at,
      get_binding-host sort (insort_binding host b fs).1 path s
          ∙ ap (first_prefix host path) at
          ∙ first_prefix-first path outer (b ∷ root ∷ rest) p,
    )
