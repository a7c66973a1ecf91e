-- ===== src/Sysvipc/Semaphore/Ops.antt =====
-- A list of operations on a set is applied as a whole.
use neoproot.Base.{
  ℕ, zero, suc, ◌+◌, ◌-◌, ◌≤◌, ◌<◌, ◌≡◌, refl, List, [], ◌∷◌, arith, leb, ◌==◌, if◌then◌else◌,
  length, length-set, set, inl, inr, Bool-cases,
}
use neoproot.Base.Int.{ℤ, pos, negsuc}
use neoproot.Sysvipc.State.{Sembuf}
use neoproot.Sysvipc.Semaphore.{
  Check, done, would_wait, fails, value_at, check_op, check_ops, apply_op, and_then, max_semval,
}

pub value_at-set :
    (vals : List ℕ) (i j v : ℕ)
    → i < length vals
    → value_at (set vals i v) j ≡ (if i == j then v else value_at vals j)
value_at-set [] i j v h = elim h [ ]
value_at-set (x ∷ vals) zero zero v h = refl
value_at-set (x ∷ vals) zero (suc j) v h = ground arith
value_at-set (x ∷ vals) (suc i) zero v h = ground arith
value_at-set (x ∷ vals) (suc i) (suc j) v h = ground (arith, value_at-set vals i j v)

-- What an operation adds to the value at `i`, and what it takes from it.
abbrev pub up_of : ℤ → ℕ
up_of (pos n) = n
up_of (negsuc n) = 0

abbrev pub down_of : ℤ → ℕ
down_of (pos n) = 0
down_of (negsuc n) = suc n

abbrev pub ups : ℕ → List Sembuf → ℕ
ups i [] = 0
ups i (sop ∷ sops) = (if sop.sem_num == i then up_of sop.sem_op else 0) + ups i sops

abbrev pub downs : ℕ → List Sembuf → ℕ
downs i [] = 0
downs i (sop ∷ sops) = (if sop.sem_num == i then down_of sop.sem_op else 0) + downs i sops

abbrev pub AllLe : ℕ → List ℕ → Type 0
AllLe m [] = Unit {0}
AllLe m (v ∷ vs) = (v ≤ m) × AllLe m vs

pub AllLe-set : (m : ℕ) (vals : List ℕ) (i v : ℕ) → AllLe m vals → v ≤ m → AllLe m (set vals i v)
AllLe-set m [] i v h k = tt
AllLe-set m (x ∷ vals) zero v h k = (k, h.1)
AllLe-set m (x ∷ vals) (suc i) v h k = (h.0, AllLe-set m vals i v h.1 k)

abbrev pub OnDone : Check → (List ℕ → Type 0) → Type 0
OnDone (done vals) P = P vals
OnDone would_wait P = Unit {0}
OnDone (fails e) P = Unit {0}

-- The values after the operations `sops`: as many as before, within the limit, and each changed by
-- what the operations add and take.
abbrev pub IsResult : List ℕ → List Sembuf → List ℕ → Type 0
IsResult vals sops vals' =
    (length vals' ≡ length vals)
    × AllLe max_semval vals'
    × ((i : ℕ) → value_at vals' i + downs i sops ≡ value_at vals i + ups i sops)

set-IsResult :
    (vals : List ℕ) (sop : Sembuf) (v : ℕ)
    → sop.sem_num < length vals
    → AllLe max_semval vals
    → v ≤ max_semval
    → v + down_of sop.sem_op ≡ value_at vals sop.sem_num + up_of sop.sem_op
    → IsResult vals (sop ∷ []) (set vals sop.sem_num v)
set-IsResult vals sop v h k l e = (
  length-set vals sop.sem_num v,
  AllLe-set max_semval vals sop.sem_num v k l,
  λ i. ground (arith, value_at-set vals sop.sem_num i v h),
)

apply_op-IsResult :
    (vals : List ℕ) (num : ℕ) (op : ℤ) (flg : ℕ)
    → num < length vals
    → AllLe max_semval vals
    → OnDone
        (apply_op vals num op flg)
        (IsResult vals (record { sem_num = num; sem_op = op; sem_flg = flg } ∷ []))
unfolding apply_op
apply_op-IsResult vals num (pos zero) flg h k =
    let same : IsResult vals (record { sem_num = num; sem_op = pos zero; sem_flg = flg } ∷ [])
        vals =
      (refl, k, λ i. ground arith) in
    ground (arith, same)
apply_op-IsResult vals num (pos (suc n)) flg h k =
    let kept =
      set-IsResult vals (record { sem_num = num; sem_op = pos (suc n); sem_flg = flg })
        (value_at vals num + suc n) h k in
    ground (arith, kept)
apply_op-IsResult vals num (negsuc n) flg h k =
    let kept =
      set-IsResult vals (record { sem_num = num; sem_op = negsuc n; sem_flg = flg })
        (value_at vals num - suc n) h k in
    ground (arith, kept)

-- One operation after a list of them, seen as one list.
join-IsResult :
    (vals v1 v2 : List ℕ) (sop : Sembuf) (sops : List Sembuf)
    → IsResult vals (sop ∷ []) v1
    → IsResult v1 sops v2
    → IsResult vals (sop ∷ sops) v2
join-IsResult vals v1 v2 sop sops a b = (omega arith, b.1, λ i. omega (arith, a.2 i, b.2 i))

OnDone-and_then :
    (c : Check) (f : List ℕ → Check) (P Q : List ℕ → Type 0)
    → OnDone c P
    → ((vals : List ℕ) → P vals → OnDone (f vals) Q)
    → OnDone (and_then c f) Q
OnDone-and_then (done vals) f P Q h k = k vals h
OnDone-and_then would_wait f P Q h k = tt
OnDone-and_then (fails e) f P Q h k = tt

pub OnDone-mono :
    (c : Check) (P Q : List ℕ → Type 0)
    → OnDone c P
    → ((vals : List ℕ) → P vals → Q vals)
    → OnDone c Q
OnDone-mono (done vals) P Q h k = k vals h
OnDone-mono would_wait P Q h k = tt
OnDone-mono (fails e) P Q h k = tt

check_op-IsResult :
    (nsems : ℕ) (vals : List ℕ) (sop : Sembuf)
    → length vals ≡ nsems
    → AllLe max_semval vals
    → OnDone (check_op nsems vals sop) (IsResult vals (sop ∷ []))
unfolding check_op
check_op-IsResult nsems vals sop h k = elim (Bool-cases (leb nsems sop.sem_num)) [
  | inl out ↦ rw (out, OnDone) tt
  | inr within ↦
      rw (within, OnDone)
        (apply_op-IsResult vals sop.sem_num sop.sem_op sop.sem_flg (ground arith) k)
]

-- Where a list of operations passes, every value has changed by exactly what the operations on it
-- add and take, there are as many values as before, and none exceeds the limit. The set is taken to
-- have `nsems` values, none above the limit.
pub check_ops-IsResult :
    (nsems : ℕ) (vals : List ℕ) (sops : List Sembuf)
    → length vals ≡ nsems
    → AllLe max_semval vals
    → OnDone (check_ops nsems vals sops) (IsResult vals sops)
unfolding check_ops
check_ops-IsResult nsems vals [] h k = (refl, k, λ i. refl)
check_ops-IsResult nsems vals (sop ∷ sops) h k =
    OnDone-and_then (check_op nsems vals sop) (λ v1. check_ops nsems v1 sops)
      (IsResult vals (sop ∷ [])) (IsResult vals (sop ∷ sops)) (check_op-IsResult nsems vals sop h k)
      (λ v1 a.
        OnDone-mono (check_ops nsems v1 sops) (IsResult v1 sops) (IsResult vals (sop ∷ sops))
          (check_ops-IsResult nsems v1 sops (omega (arith, a.0)) a.1)
          (λ v2 b. join-IsResult vals v1 v2 sop sops a b))
