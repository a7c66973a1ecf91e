-- ===== src/Cwd/Rebased.antt =====
-- rebase_cwd_alias of src/path/path.c: where the working directory goes.
use neoproot.Base.{
  ℕ, zero, suc, ◌<◌, ◌≤◌, ◌≡◌, ◌⊎◌, refl, ap, ◌∙◌, sym, Bool, true, false, not, ◌&&◌, List, [], ◌∷◌,
  Option, none, some, ltb, leb, ◌==◌, Bool-cases, inl, inr, arith, length,
}
use mathlib.Core.Path.{subst}
use mathlib.Core.Option.{some-injective}
use neoproot.Base.Int.{ℤ, pos, neg, is_neg}
use neoproot.Path.{
  Comparison, paths_are_equal, path1_is_prefix, path2_is_prefix, paths_are_not_comparable, slash,
  byte_at, path_max, compare_paths2, substitute_path_prefix,
}
use neoproot.Bindings.{
  guest, Binding, Fs, is_equal, root_path, get_binding, build_guest_binding_cache, find_best_prefix,
  substitute_binding,
}
use neoproot.Bindings.Longest.{Among}
use neoproot.Dirfds.{same_bytes}
use neoproot.Cwd.{
  View, oldroot, same_host, path_has_prefix, named, is_candidate, longest_host, rebase_to,
  rebase_by, is_still_alias, rebase_at, rebase_from, rebase_cwd_alias,
}

-- No candidate of the list has a longer host path.
abbrev pub AtMost : List ℕ → List ℕ → List Binding → ℕ → Type 0
AtMost alias path l n =
    (c : Binding) → Among c l → is_candidate alias path c ≡ true → length c.layer.host_path ≤ n

-- A candidate of the list, and none of them has a longer host path.
abbrev pub IsLongest : List ℕ → List ℕ → List Binding → Binding → Type 0
IsLongest alias path l b =
    Among b l × (is_candidate alias path b ≡ true) × AtMost alias path l (length b.layer.host_path)

AtMost-cons :
    (alias path : List ℕ) (b : Binding) (bs : List Binding) (n : ℕ)
    → (is_candidate alias path b ≡ true → length b.layer.host_path ≤ n)
    → AtMost alias path bs n
    → AtMost alias path (b ∷ bs) n
AtMost-cons alias path b bs n h k c (zero, e) q =
    let same : b ≡ c = some-injective b c e in
    subst (λ x. length x.layer.host_path ≤ n) same
      (h (subst (λ x. is_candidate alias path x ≡ true) (sym same) q))
AtMost-cons alias path b bs n h k c (suc i, e) q = k c (i, e) q

abbrev Chosen : List ℕ → List ℕ → List Binding → Option Binding → ℕ → Option Binding → Type 0
Chosen alias path l best n o =
    (o ≡ best) × AtMost alias path l n
    ⊎ ((b : Binding) × (o ≡ some b) × (n < length b.layer.host_path) × IsLongest alias path l b)

taken : (p : Bool) (n l : ℕ) → (p && ltb n l) ≡ true → (p ≡ true) × (n < l)
taken p n l e = ground arith

passed_over : (p : Bool) (n l : ℕ) → (p && ltb n l) ≡ false → p ≡ true → l ≤ n
passed_over p n l e q = ground arith

longest_host-Chosen :
    (alias path : List ℕ) (l : List Binding) (best : Option Binding) (n : ℕ)
    → Chosen alias path l best n (longest_host alias path l best n)
unfolding longest_host
longest_host-Chosen alias path [] best n = inl (refl, λ c m q. absurd cc)
longest_host-Chosen alias path (b ∷ bs) best n =
    let p = is_candidate alias path b in
    let k = length b.layer.host_path in
    elim (Bool-cases (p && ltb n k)) [
      | inl e ↦
          (let (is, lt) = taken p n k e in
            rw e (elim (longest_host-Chosen alias path bs (some b) k) [
              | inl (o, top) ↦
                  inr (
                    b,
                    o,
                    lt,
                    ((0, refl), is, AtMost-cons alias path b bs k (λ q. omega arith) top),
                  )
              | inr (c, o, more, ((i, m), q, top)) ↦ inr (
                c,
                o,
                omega (arith, lt, more),
                ((suc i, m), q, AtMost-cons alias path b bs _ (λ q. omega (arith, more)) top),
              )
            ]))
      | inr e ↦ rw e (elim (longest_host-Chosen alias path bs best n) [
        | inl (o, top) ↦ inl (o, AtMost-cons alias path b bs n (λ q. passed_over p n k e q) top)
        | inr (c, o, lt, ((i, m), q, top)) ↦ inr (
          c,
          o,
          lt,
          (
            (suc i, m),
            q,
            AtMost-cons alias path b bs _ (λ q. omega (arith, lt, passed_over p n k e q)) top,
          ),
        )
      ])
    ]

module _ (sort : List Binding → List Binding) where
  -- The bindings behind the two lookups, and the host path of the working directory by them.
  abbrev pub looked : Fs → List ℕ → Fs
  looked fs alias = (get_binding sort (get_binding sort fs guest alias).1 guest root_path).1

  abbrev pub host_of : View → List ℕ → ℤ × List ℕ
  host_of v alias = (substitute_binding sort (looked v.fs alias) guest v.cwd).0

  -- The bindings of the alias and of the root.
  abbrev pub alias_at : View → List ℕ → Option Binding
  alias_at v alias = named alias (get_binding sort v.fs guest alias).0

  abbrev pub root_at : View → List ℕ → Option Binding
  root_at v alias =
      named root_path (get_binding sort (get_binding sort v.fs guest alias).1 guest root_path).0

  -- The alias has the host path of the root, or no binding and is /oldroot.
  abbrev pub IsRoot : List ℕ → Binding → Option Binding → Type 0
  IsRoot alias root none = same_bytes alias oldroot ≡ true
  IsRoot alias root (some a) =
      compare_paths2 a.layer.host_path (length a.layer.host_path) root.layer.host_path
        (length root.layer.host_path)
      ≡ paths_are_equal

  -- The path that the working directory has by a binding, and its length.
  abbrev pub by_binding : View → List ℕ → Binding → ℕ × List ℕ
  by_binding v alias b =
      substitute_path_prefix (host_of v alias).1 (length b.layer.host_path) b.layer.guest_path
        (length b.layer.guest_path)

  -- The ways in which it can end: the status, and the working directory.
  pub data Rebased (v : View) : ℤ × List ℕ → Type 0 where
    no_alias : v.cwd_alias_prefix ≡ none → Rebased v (pos 0, v.cwd)
    elsewhere :
        (alias : List ℕ)
        → v.cwd_alias_prefix ≡ some alias
        → path_has_prefix v.cwd alias ≡ false
        → Rebased v (pos 0, v.cwd)
    no_root :
        (alias : List ℕ)
        → v.cwd_alias_prefix ≡ some alias
        → root_at v alias ≡ none
        → Rebased v (pos 0, v.cwd)
    no_longer_root :
        (alias : List ℕ) (root : Binding)
        → v.cwd_alias_prefix ≡ some alias
        → root_at v alias ≡ some root
        → (IsRoot alias root (alias_at v alias) → ⊥)
        → Rebased v (pos 0, v.cwd)
    cwd_too_long : path_max ≤ length v.cwd → Rebased v (neg 36, v.cwd)
    not_substituted :
        (alias : List ℕ)
        → v.cwd_alias_prefix ≡ some alias
        → is_neg (host_of v alias).0 ≡ true
        → Rebased v (pos 0, v.cwd)
    no_candidate :
        (alias : List ℕ)
        → v.cwd_alias_prefix ≡ some alias
        → AtMost alias (host_of v alias).1 v.fs.guest_list 0
        → Rebased v (pos 0, v.cwd)
    too_long :
        (alias : List ℕ) (b : Binding)
        → v.cwd_alias_prefix ≡ some alias
        → IsLongest alias (host_of v alias).1 v.fs.guest_list b
        → path_max ≤ (by_binding v alias b).0
        → Rebased v (neg 36, v.cwd)
    same_path :
        (alias : List ℕ) (b : Binding)
        → v.cwd_alias_prefix ≡ some alias
        → IsLongest alias (host_of v alias).1 v.fs.guest_list b
        → same_bytes (by_binding v alias b).1 v.cwd ≡ true
        → Rebased v (pos 0, v.cwd)
    moved :
        (alias : List ℕ) (root b : Binding)
        → v.cwd_alias_prefix ≡ some alias
        → path_has_prefix v.cwd alias ≡ true
        → root_at v alias ≡ some root
        → IsRoot alias root (alias_at v alias)
        → length v.cwd < path_max
        → is_neg (host_of v alias).0 ≡ false
        → IsLongest alias (host_of v alias).1 v.fs.guest_list b
        → (by_binding v alias b).0 < path_max
        → same_bytes (by_binding v alias b).1 v.cwd ≡ false
        → Rebased v (pos 1, (by_binding v alias b).1)

  abbrev ended : ℤ × View → ℤ × List ℕ
  ended (status, v) = (status, v.cwd)

  get_binding-list :
      (fs : Fs) (path : List ℕ) → (get_binding sort fs guest path).1.guest_list ≡ fs.guest_list
  unfolding get_binding find_best_prefix build_guest_binding_cache
  get_binding-list fs path = elim (Bool-cases (not (byte_at path 0 == slash))) [
    | inl e ↦ rw e refl
    | inr e ↦ rw e refl
  ]

  substitute-list :
      (fs : Fs) (path : List ℕ)
      → (substitute_binding sort fs guest path).1.guest_list ≡ fs.guest_list
  unfolding substitute_binding
  substitute-list fs path = get_binding-list fs path

  looked-list : (fs : Fs) (alias : List ℕ) → (looked fs alias).guest_list ≡ fs.guest_list
  looked-list fs alias =
      get_binding-list (get_binding sort fs guest alias).1 root_path ∙ get_binding-list fs alias

  equal-answer : (c : Comparison) → is_equal c ≡ true → c ≡ paths_are_equal
  equal-answer paths_are_equal e = refl
  equal-answer path1_is_prefix e = absurd cc
  equal-answer path2_is_prefix e = absurd cc
  equal-answer paths_are_not_comparable e = absurd cc

  still-IsRoot :
      (alias : List ℕ) (root : Binding) (a : Option Binding)
      → is_still_alias alias root a ≡ true
      → IsRoot alias root a
  unfolding is_still_alias same_host
  still-IsRoot alias root none e = e
  still-IsRoot alias root (some a) e = equal-answer _ e

  unlike-IsRoot :
      (alias : List ℕ) (root : Binding) (a : Option Binding)
      → is_still_alias alias root a ≡ false
      → IsRoot alias root a
      → ⊥
  unfolding is_still_alias same_host
  unlike-IsRoot alias root none e same = ground (arith, e, same)
  unlike-IsRoot alias root (some a) e same =
      (let impossible : true ≡ false = sym (ap is_equal same) ∙ e in absurd cc)

  module _ (v : View) (alias : List ℕ) (root : Binding) (known : v.cwd_alias_prefix ≡ some alias)
      (below : path_has_prefix v.cwd alias ≡ true) (at_root : root_at v alias ≡ some root) where
    rebase_to-Rebased :
        (fs : Fs) (o : Option Binding)
        → Chosen alias (host_of v alias).1 v.fs.guest_list none 0 o
        → IsRoot alias root (alias_at v alias)
        → length v.cwd < path_max
        → is_neg (host_of v alias).0 ≡ false
        → Rebased v (ended (rebase_to (record v { fs = fs }) (host_of v alias).1 o))
    unfolding rebase_to
    rebase_to-Rebased fs none (inl (e, top)) is short ok = no_candidate alias known top
    rebase_to-Rebased fs none (inr (b, e, lt, longest)) is short ok = absurd cc
    rebase_to-Rebased fs (some d) (inl (e, top)) is short ok = absurd cc
    rebase_to-Rebased fs (some d) (inr (b, o, lt, longest)) is short ok =
        let same : b ≡ d = some-injective b d (sym o) in
        let best = subst (IsLongest alias (host_of v alias).1 v.fs.guest_list) same longest in
        let answer = by_binding v alias d in
        elim (Bool-cases (leb path_max answer.0)) [
          | inl e ↦ rw e (too_long alias d known best (ground (arith, e)))
          | inr e ↦ elim (Bool-cases (same_bytes answer.1 v.cwd)) [
            | inl k ↦ rw (e, k) (same_path alias d known best k)
            | inr k ↦
                rw (e, k)
                  (moved alias root d known below at_root is short ok best (ground (arith, e)) k)
          ]
        ]

    rebase_by-Rebased :
        (fs : Fs)
        → fs.guest_list ≡ v.fs.guest_list
        → IsRoot alias root (alias_at v alias)
        → length v.cwd < path_max
        → Rebased v (ended (rebase_by (record v { fs = fs }) alias (host_of v alias)))
    unfolding rebase_by
    rebase_by-Rebased fs list is short = elim (Bool-cases (is_neg (host_of v alias).0)) [
      | inl e ↦ rw e (not_substituted alias known e)
      | inr e ↦ rw e (
          rebase_to-Rebased fs (longest_host alias (host_of v alias).1 fs.guest_list none 0)
            (subst
              (λ l.
                Chosen alias (host_of v alias).1 l none 0
                  (longest_host alias (host_of v alias).1 fs.guest_list none 0))
              list (longest_host-Chosen alias (host_of v alias).1 fs.guest_list none 0))
            is short e)
    ]

    rebase_at-Rebased : Rebased v (
        ended (
          rebase_at sort
            (record v { fs = looked v.fs alias })
            alias
            (alias_at v alias)
            (some root)))
    unfolding rebase_at
    rebase_at-Rebased =
        let fs' = (substitute_binding sort (looked v.fs alias) guest v.cwd).1 in
        let list : fs'.guest_list ≡ v.fs.guest_list =
          substitute-list (looked v.fs alias) v.cwd ∙ looked-list v.fs alias in
        elim (Bool-cases (is_still_alias alias root (alias_at v alias))) [
          | inr e ↦ rw e (
              no_longer_root alias root known at_root
                (unlike-IsRoot alias root (alias_at v alias) e))
          | inl e ↦ elim (Bool-cases (leb path_max (length v.cwd))) [
            | inl k ↦ rw (e, k) (cwd_too_long (ground (arith, k)))
            | inr k ↦
                rw (e, k)
                  (rebase_by-Rebased fs' list (still-IsRoot alias root (alias_at v alias) e)
                    (ground (arith, k)))
          ]
        ]

  rebase_found-Rebased :
      (v : View) (alias : List ℕ) (root : Option Binding)
      → v.cwd_alias_prefix ≡ some alias
      → path_has_prefix v.cwd alias ≡ true
      → root_at v alias ≡ root
      → Rebased v (
          ended
            (rebase_at sort (record v { fs = looked v.fs alias }) alias (alias_at v alias) root))
  unfolding rebase_at
  rebase_found-Rebased v alias none known below e = no_root alias known e
  rebase_found-Rebased v alias (some root) known below e =
      rebase_at-Rebased v alias root known below e

  rebase_from-Rebased :
      (v : View) (o : Option (List ℕ))
      → v.cwd_alias_prefix ≡ o
      → Rebased v (ended (rebase_from sort v o))
  unfolding rebase_from
  rebase_from-Rebased v none known = no_alias known
  rebase_from-Rebased v (some alias) known = elim (Bool-cases (path_has_prefix v.cwd alias)) [
    | inr e ↦ rw e (elsewhere alias known e)
    | inl e ↦ rw e (rebase_found-Rebased v alias (root_at v alias) known e refl)
  ]

  -- rebase_cwd_alias answers 1 and moves the working directory only where it lies below its alias,
  -- the root has a binding, and the alias still has the root's host path, or no binding and is
  -- /oldroot. The new path is that of the same host path by the binding with the longest host path
  -- among those that are substituted, do not lie below the alias and hold it; it is another path and
  -- fits. Else the directory stays, for one of these reasons: there is no alias, the directory is not
  -- below it, the root has no binding, the alias is no longer the root's, no host path is found, no
  -- binding holds that path, or the new path is the old one, each with 0; or the old or the new path
  -- is too long, with -ENAMETOOLONG.
  pub rebase_cwd_alias-Rebased :
      (v : View) → Rebased v ((rebase_cwd_alias sort v).0, (rebase_cwd_alias sort v).1.cwd)
  unfolding rebase_cwd_alias
  rebase_cwd_alias-Rebased v = rebase_from-Rebased v v.cwd_alias_prefix refl
