-- ===== src/Sysvipc/State/Ids.antt =====
-- Object ids, and what the scan for a key finds.
use neoproot.Base.{
  ℕ, suc, ◌+◌, ◌-◌, ◌%◌, ◌≤◌, ◌<◌, ◌≡◌, ◌≢◌, ◌⊎◌, refl, true, false, not, ◌&&◌, List, [], ◌∷◌,
  Option, none, some, arith, get_elem?, length, set, get_elem?-set_self, if◌then◌else◌, ◌==◌,
  Bool-cases, inl, inr,
}
use native.Mathlib.Nat.{sub-zero}
use mathlib.Core.Path.{subst}
use mathlib.Core.Option.{some-injective}
use neoproot.Base.Bits.{bit_or-zero}
use neoproot.Sysvipc.State.{
  Object, object_id, lookup_object, int32, generation_fits, Scan, existing, absent, scan,
}

pub object_id-zero : (idx : ℕ) → object_id idx 0 ≡ idx + 1
unfolding object_id
object_id-zero idx = bit_or-zero (idx + 1)

module _ {A : Type 0} ⦃o : Object A⦄ where
  -- The id of a valid object of generation 0 leads back to it, below index 4095.
  pub lookup_object-object_id :
      (objects : List A) (idx : ℕ) (a : A)
      → get_elem? objects idx ≡ some a
      → o.valid a ≡ true
      → o.generation a ≡ 0
      → idx < 4095
      → lookup_object objects (object_id idx 0) ≡ some (idx, a)
  unfolding lookup_object
  lookup_object-object_id objects idx a g v z h = rw (object_id-zero idx) (ground (arith, back))
    where
      back : (int32 (idx + 1) % 0x1000) - 1 ≡ idx
      back = omega arith

  pub lookup_object-eq-some :
      (objects : List A) (w idx : ℕ) (a : A)
      → lookup_object objects w ≡ some (idx, a)
      → (get_elem? objects idx ≡ some a)
        × (o.valid a ≡ true)
        × (generation_fits (o.generation a) (int32 w) ≡ true)
        × (int32 w % 0x1000 ≡ suc idx)
  unfolding lookup_object
  lookup_object-eq-some objects w idx a h = ground arith

  -- What the lookup finds once the entry that the id names is overwritten.
  pub lookup_object-set :
      (objects : List A) (w idx : ℕ) (b : A)
      → idx < length objects
      → int32 w % 0x1000 ≡ suc idx
      → lookup_object (set objects idx b) w
        ≡ (if o.valid b && generation_fits (o.generation b) (int32 w) then some (idx, b) else none)
  unfolding lookup_object
  lookup_object-set objects w idx b h e =
      let z : (int32 w % 0x1000) - 1 ≡ idx = omega arith in
      ground (arith, z, get_elem?-set_self objects idx b h)

  -- No valid object has the key, or the key is IPC_PRIVATE.
  abbrev pub NoKey : ℕ → List A → Type 0
  NoKey key [] = Unit {0}
  NoKey key (a ∷ rest) = (o.valid a ≡ true → key ≢ 0 → o.key a ≢ int32 key) × NoKey key rest

  -- The object at index `i` of the array whose first index is `base`.
  abbrev pub At : ℕ → List A → ℕ → A → Type 0
  At base objects i a = (base ≤ i) × (get_elem? objects (i - base) ≡ some a)

  pub index_zero :
      (objects : List A) (i : ℕ) (a : A) → At 0 objects i a → get_elem? objects i ≡ some a
  index_zero objects i a h = subst (λ j. get_elem? objects j ≡ some a) (sub-zero i) h.1

  index_suc :
      (base : ℕ) (x : A) (rest : List A) (i : ℕ) (a : A)
      → At (base + 1) rest i a
      → At base (x ∷ rest) i a
  index_suc base x rest i a h =
      let e : i - base ≡ suc (i - (base + 1)) = omega arith in (omega arith, rw (e, get_elem?) h.1)

  -- What a scan from index `base` says of the rest of the array.
  abbrev pub IsScan : ℕ → ℕ → List A → Option ℕ → Scan → Type 0
  IsScan key base objects unused (existing i) =
      (a : A) × At base objects i a × (o.valid a ≡ true) × (o.key a ≡ int32 key) × (key ≢ 0)
  IsScan key base objects unused (absent none) = NoKey key objects × (unused ≡ none)
  IsScan key base objects unused (absent (some u)) =
      NoKey key objects
      × ((unused ≡ some u) ⊎ ((a : A) × At base objects u a × (o.valid a ≡ false)))

  module _ (key base : ℕ) (a : A) (rest : List A)
      (fresh : o.valid a ≡ true → key ≢ 0 → o.key a ≢ int32 key) where
    -- One more object in front, with the first unused index as it was.
    scan_keep :
        (unused : Option ℕ) (r : Scan)
        → IsScan key (base + 1) rest unused r
        → IsScan key base (a ∷ rest) unused r
    scan_keep unused (existing i) (b, at, p, q, r) = (b, index_suc base a rest i b at, p, q, r)
    scan_keep unused (absent none) (no_key, e) = ((fresh, no_key), e)
    scan_keep unused (absent (some u)) (no_key, inl e) = ((fresh, no_key), inl e)
    scan_keep unused (absent (some u)) (no_key, inr (b, at, v)) =
        ((fresh, no_key), inr (b, index_suc base a rest u b at, v))

    -- One more object in front, which is the first unused one.
    scan_first :
        (r : Scan)
        → o.valid a ≡ false
        → IsScan key (base + 1) rest (some base) r
        → IsScan key base (a ∷ rest) none r
    scan_first (existing i) v (b, at, p, q, r) = (b, index_suc base a rest i b at, p, q, r)
    scan_first (absent none) v (no_key, e) = cc
    scan_first (absent (some u)) v (no_key, inl e) =
        let same : base ≡ u = some-injective base u e in
        let z : u - base ≡ 0 = omega arith in
        ((fresh, no_key), inr (a, (omega arith, rw (z, get_elem?)), v))
    scan_first (absent (some u)) v (no_key, inr (b, at, w)) =
        ((fresh, no_key), inr (b, index_suc base a rest u b at, w))

  valid_step :
      (key : ℕ) (a : A) (rest : List A) (base : ℕ) (unused : Option ℕ)
      → o.valid a ≡ true
      → IsScan key (base + 1) rest unused (scan key rest (base + 1) unused)
      → IsScan key base (a ∷ rest) unused (scan key (a ∷ rest) base unused)
  unfolding scan
  valid_step key a rest base unused v h =
      elim (Bool-cases (not (key == 0) && o.key a == int32 key)) [
        | inl hit ↦
            let z : base - base ≡ 0 = omega arith in
            rw (v, hit) (a, (omega arith, rw (z, get_elem?)), v, ground arith, ground arith)
        | inr miss ↦ rw (v, miss) (scan_keep key base a rest (ground arith) unused _ h)
      ]

  -- A scan that ends at an existing object found a valid one with the key, which is not
  -- IPC_PRIVATE; one that ends at none passed no such object, and reports an unused index if the
  -- array has one.
  pub scan-IsScan :
      (key : ℕ) (objects : List A) (base : ℕ) (unused : Option ℕ)
      → IsScan key base objects unused (scan key objects base unused)
  unfolding scan
  scan-IsScan key [] base none = (tt, refl)
  scan-IsScan key [] base (some u) = (tt, inl refl)
  scan-IsScan key (a ∷ rest) base none = elim (Bool-cases (o.valid a)) [
    | inl v ↦ valid_step key a rest base none v (scan-IsScan key rest (base + 1) none)
    | inr n ↦ rw n (
        scan_first key base a rest (ground arith) _ n (scan-IsScan key rest (base + 1) (some base)))
  ]
  scan-IsScan key (a ∷ rest) base (some u) = elim (Bool-cases (o.valid a)) [
    | inl v ↦ valid_step key a rest base (some u) v (scan-IsScan key rest (base + 1) (some u))
    | inr n ↦ rw n (
        scan_keep key base a rest (ground arith) (some u) _
          (scan-IsScan key rest (base + 1) (some u)))
  ]
