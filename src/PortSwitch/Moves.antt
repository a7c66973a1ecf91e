-- ===== src/PortSwitch/Moves.antt =====
-- src/extension/port_switch/port_switch.c: where a port is moved to, by one call and by the next.
use neoproot.Base.{
  ℕ, ◌+◌, ◌*◌, ◌/◌, ◌%◌, ◌<◌, ◌≤◌, ◌≡◌, refl, ◌∙◌, sym, Bool, true, false, ◌&&◌, ◌||◌, List, ◌∷◌,
  ltb, ◌==◌, if◌then◌else◌, Bool-cases, inl, inr, arith, length, take,
}
use neoproot.Base.Int.{ℤ, pos, negsuc}
use neoproot.Tracee.Regs.{Regs, RegVersion, sysarg_2, sysarg_5, peek_reg, get_sysnum, other}
use neoproot.PortSwitch.{
  got, TraceeMemory, Environment, Switch, get_port_addition, calc_offset_port, modify_read,
  modify_ipv4_port, modify_ipv6_port, by_family, handle_standard_socketcall, by_sysnum,
  syscall_enter_end, ntohs, put_port,
}

-- What is written can be read, and a part of what can be read.
pub record IsMemory {M : Type 0} (memory : TraceeMemory M) : Type 0 where
  pub written :
      (m : M) (a : ℕ) (bs : List ℕ)
      → (memory.write_data m a bs).1 ≡ pos 0
      → memory.read_data (memory.write_data m a bs).0 a (length bs) ≡ got bs
  pub part :
      (m : M) (a n k : ℕ) (bs : List ℕ)
      → memory.read_data m a n ≡ got bs
      → k ≤ n
      → memory.read_data m a k ≡ got (take k bs)

-- The ports from 1 to 1023 are moved, in 16 bits.
abbrev pub moved : ℕ → ℕ → ℕ
moved a p = if ltb 0 p && ltb p 1024 then (p + a) % 65536 else p

-- An address of this family and port, as its bytes are in memory.
abbrev pub address : ℕ → ℕ → List ℕ → List ℕ
address family p rest = family ∷ 0 ∷ p / 256 ∷ p % 256 ∷ rest

-- The two bytes the other way round, as the word is read.
abbrev swapped : ℕ → ℕ
swapped p = p / 256 + 256 * (p % 256)

ntohs-swapped : (p : ℕ) → p < 65536 → ntohs (swapped p) ≡ p
ntohs-swapped p h = omega arith

moved_lt : (a p : ℕ) → p < 65536 → moved a p < 65536
moved_lt a p h = ground arith

moved_low : (a p : ℕ) → 0 < p → p < 1024 → p + a < 65536 → moved a p ≡ p + a
moved_low a p h k w = ground (arith, h, k, w)

calc-moved :
    (env : Environment) (cached : ℤ) (p : ℕ)
    → p < 65536
    → (calc_offset_port env cached (swapped p)).0
      ≡ swapped (moved (get_port_addition env cached).0 p)
unfolding calc_offset_port
calc-moved env cached p h =
    let a = (get_port_addition env cached).0 in
    rw (ntohs-swapped p h)
      (elim (Bool-cases (ltb 0 p && ltb p 1024)) [ inl e ↦ rw e (omega arith) | inr e ↦ rw e refl ])

put-address :
    (family p q : ℕ) (rest : List ℕ)
    → q < 65536
    → put_port (address family p rest) (swapped q) ≡ address family q rest
put-address family p q rest h =
    let high : swapped q % 256 ≡ q / 256 = omega arith in
    let low : swapped q / 256 ≡ q % 256 = omega arith in rw (high, low) refl

-- The variable is the same the next time, whether it was read or not.
addition-kept :
    (env : Environment) (cached : ℤ) (port : ℕ)
    → (get_port_addition env (calc_offset_port env cached port).1).0
      ≡ (get_port_addition env cached).0
unfolding calc_offset_port get_port_addition
addition-kept env (pos c) port = ground arith
addition-kept env (negsuc n) port = ground arith

-- The status of the write, the memory behind it, and the addition that later calls use.
abbrev Wrote :
    {M : Type 0} → TraceeMemory M → Environment → Switch M → ℕ → List ℕ → ℤ × Switch M → Type 0
Wrote memory env s a to r =
    (r.0 ≡ (memory.write_data s.mem a to).1)
    × (r.1.mem ≡ (memory.write_data s.mem a to).0)
    × ((get_port_addition env r.1.cached).0 ≡ (get_port_addition env s.cached).0)

abbrev pub family_of : Bool → ℕ
family_of six = if six then 10 else 2

abbrev pub size_of : Bool → ℕ
size_of six = if six then 28 else 16

module _ {M : Type 0} (memory : TraceeMemory M) (env : Environment) where
  abbrev addition : Switch M → ℕ
  addition s = (get_port_addition env s.cached).0

  modify_read-Wrote :
      (s : Switch M) (a : ℕ) (is_bind : Bool) (family p : ℕ) (rest : List ℕ)
      → p < 65536
      → Wrote memory env s a
          (address family (moved (addition s) p) rest)
          (modify_read memory env s a is_bind (got (address family p rest)))
  unfolding modify_read
  modify_read-Wrote s a is_bind family p rest h =
      let q = moved (addition s) p in
      let kept = addition-kept env s.cached (swapped p) in
      rw (calc-moved env s.cached p h, put-address family p q rest (moved_lt (addition s) p h))
        (refl, refl, kept)

  module _ (laws : IsMemory memory) where
    -- The address of a family is read, moved and written back.
    by_family-Wrote :
        (six : Bool) (s : Switch M) (a : ℕ) (is_bind : Bool) (p : ℕ) (rest : List ℕ)
        → p < 65536
        → memory.read_data s.mem a (size_of six) ≡ got (address (family_of six) p rest)
        → Wrote memory env s a
            (address (family_of six) (moved (addition s) p) rest)
            (by_family memory env s a is_bind (memory.read_data s.mem a 2))
    unfolding by_family modify_ipv4_port modify_ipv6_port
    by_family-Wrote false s a is_bind p rest h r =
        let start = laws.part s.mem a 16 2 (address 2 p rest) r (omega arith) in
        rw (start, r) (modify_read-Wrote s a is_bind 2 p rest h)
    by_family-Wrote true s a is_bind p rest h r =
        let start = laws.part s.mem a 28 2 (address 10 p rest) r (omega arith) in
        rw (start, r) (modify_read-Wrote s a is_bind 10 p rest h)

    syscall_enter_end-Wrote :
        (six : Bool) (regs : Regs) (s : Switch M) (n a p : ℕ) (rest : List ℕ)
        → get_sysnum regs RegVersion.original ≡ other n
        → (n == 200 || n == 203 || n == 206) ≡ true
        → peek_reg regs RegVersion.original (if n == 206 then sysarg_5 else sysarg_2) ≡ a
        → (a == 0) ≡ false
        → p < 65536
        → memory.read_data s.mem a (size_of six) ≡ got (address (family_of six) p rest)
        → Wrote memory env s a
            (address (family_of six) (moved (addition s) p) rest)
            (syscall_enter_end memory env regs s)
    unfolding syscall_enter_end by_sysnum handle_standard_socketcall
    syscall_enter_end-Wrote six regs s n a p rest number is_call ptr nonzero h r =
        let wrote = by_family-Wrote six s a (n == 200) p rest h r in
        elim (Bool-cases (n == 206)) [
          | inl e ↦ rw (number, is_call, ptr, nonzero, e) wrote
          | inr e ↦ rw (number, is_call, ptr, nonzero, e) wrote
        ]

    -- Where a bind, connect or sendto names an IPv4 or IPv6 address that the tracee can write, at a
    -- pointer that is not null, the call goes on with the same address but its port: one from 1 to
    -- 1023 has the addition, in 16 bits, and the others are as they were.
    pub syscall_enter_end-moved :
        (six : Bool) (regs : Regs) (s : Switch M) (n a p : ℕ) (rest : List ℕ)
        → get_sysnum regs RegVersion.original ≡ other n
        → (n == 200 || n == 203 || n == 206) ≡ true
        → peek_reg regs RegVersion.original (if n == 206 then sysarg_5 else sysarg_2) ≡ a
        → (a == 0) ≡ false
        → p < 65536
        → length rest + 4 ≡ size_of six
        → memory.read_data s.mem a (size_of six) ≡ got (address (family_of six) p rest)
        → ((m : M) (bs : List ℕ) → (memory.write_data m a bs).1 ≡ pos 0)
        → let r = syscall_enter_end memory env regs s in
          (r.0 ≡ pos 0)
          × (memory.read_data r.1.mem a (size_of six)
              ≡ got (address (family_of six) (moved (addition s) p) rest))
          × (addition r.1 ≡ addition s)
    syscall_enter_end-moved six regs s n a p rest number is_call ptr nonzero h l r writable =
        let to = address (family_of six) (moved (addition s) p) rest in
        let (status, mem, kept) =
          syscall_enter_end-Wrote six regs s n a p rest number is_call ptr nonzero h r in
        let size : size_of six ≡ length to = omega (arith, l) in
        (
          status ∙ writable s.mem to,
          rw (mem, size) (laws.written s.mem a to (writable s.mem to)),
          kept,
        )

    -- A second call with the same address moves a port again that is still below 1024, by twice the
    -- addition in all.
    pub syscall_enter_end-moved_again :
        (six : Bool) (regs : Regs) (s : Switch M) (n a p : ℕ) (rest : List ℕ)
        → get_sysnum regs RegVersion.original ≡ other n
        → (n == 200 || n == 203 || n == 206) ≡ true
        → peek_reg regs RegVersion.original (if n == 206 then sysarg_5 else sysarg_2) ≡ a
        → (a == 0) ≡ false
        → 0 < p
        → p + addition s < 1024
        → length rest + 4 ≡ size_of six
        → memory.read_data s.mem a (size_of six) ≡ got (address (family_of six) p rest)
        → ((m : M) (bs : List ℕ) → (memory.write_data m a bs).1 ≡ pos 0)
        → let r = syscall_enter_end memory env regs s in
          memory.read_data (syscall_enter_end memory env regs r.1).1.mem a (size_of six)
          ≡ got (address (family_of six) (p + 2 * addition s) rest)
    syscall_enter_end-moved_again six regs s n a p rest number is_call ptr nonzero h k l r
          writable =
        let once =
          syscall_enter_end-moved six regs s n a p rest number is_call ptr nonzero
            (omega (arith, k)) l r writable in
        let first : moved (addition s) p ≡ p + addition s =
          moved_low (addition s) p h (omega (arith, k)) (omega (arith, k)) in
        let s' = (syscall_enter_end memory env regs s).1 in
        let twice =
          syscall_enter_end-moved six regs s' n a (moved (addition s) p) rest number is_call ptr
            nonzero (moved_lt (addition s) p (omega (arith, k))) l once.1 writable in
        let second : moved (addition s') (moved (addition s) p) ≡ p + 2 * addition s =
          rw (once.2, first)
            (moved_low (addition s) (p + addition s) (omega (arith, h)) k (omega (arith, k))
              ∙ omega arith) in
        rw (sym second) twice.1
