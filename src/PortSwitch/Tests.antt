-- ===== src/PortSwitch/Tests.antt =====
-- src/extension/port_switch/port_switch.c: calls on a memory that holds one address.
use neoproot.Base.{
  ℕ, zero, suc, ◌+◌, ◌*◌, ◌≤◌, ◌≡◌, refl, ap, ◌∙◌, sym, true, false, List, [], ◌∷◌, ◌++◌, some, leb,
  if◌then◌else◌, Bool-cases, inl, inr, arith, length, take, drop, length-append,
}
use neoproot.Base.Int.{pos, negsuc}
use neoproot.Tracee.Regs.{
  UserRegs, Regs, RegVersion, sysarg_2, peek_reg, read, bank, get_sysnum, translate_sysnum, other,
}
use neoproot.PortSwitch.{
  Got, got, failed, TraceeMemory, Environment, Switch, get_port_addition, syscall_enter_end,
}
use neoproot.PortSwitch.Moves.{
  IsMemory, moved, address, syscall_enter_end-moved, syscall_enter_end-moved_again,
}

-- The bytes at address 100, and nothing else; what is written is there from then on.
abbrev one_place : TraceeMemory (List ℕ)
one_place = record {
  read_data = λ m a n. if leb n (length m) then got (take n m) else failed 14;
  write_data = λ m a bs. (bs ++ drop (length bs) m, pos 0);
}

take-front : (bs m : List ℕ) → take (length bs) (bs ++ m) ≡ bs
take-front [] m = refl
take-front (b ∷ bs) m = ap (λ l. b ∷ l) (take-front bs m)

take-take : (k n : ℕ) (m : List ℕ) → k ≤ n → take k (take n m) ≡ take k m
take-take zero n m h = refl
take-take (suc k) zero m h = absurd (omega arith)
take-take (suc k) (suc n) [] h = refl
take-take (suc k) (suc n) (b ∷ m) h = ap (λ l. b ∷ l) (take-take k n m (omega arith))

abbrev bytes_of : Got → List ℕ
bytes_of (got bs) = bs
bytes_of (failed e) = []

one_place-IsMemory : IsMemory one_place
one_place-IsMemory = record {
  written = λ m a bs w.
      let fits : leb (length bs) (length (bs ++ drop (length bs) m)) ≡ true =
        ground (arith, length-append bs (drop (length bs) m)) in
      rw (fits, take-front bs (drop (length bs) m)) refl;
  part = λ m a n k bs r h. elim (Bool-cases (leb n (length m))) [
    | inl e ↦
        (let fits : leb k (length m) ≡ true = ground (arith, e, h) in
          let read : bs ≡ take n m = ap bytes_of (sym r) ∙ rw e refl in
          rw (fits, read, take-take k n m h) refl)
    | inr e ↦ absurd (ground (arith, r, e))
  ];
}

-- A connect to an IPv4 address, the pointer to it being 100.
abbrev connect_regs : Regs
connect_regs =
    let u : UserRegs = record {
      num = 203;
      x0 = 3;
      x1 = 100;
      x2 = 16;
      x3 = 0;
      x4 = 0;
      x5 = 0;
      sp = 0;
      pc = 0;
    } in
    record { current = u; original = u; modified = u; were_changed = false }

abbrev twelve : List ℕ
twelve = 127 ∷ 0 ∷ 0 ∷ 1 ∷ 0 ∷ 0 ∷ 0 ∷ 0 ∷ 0 ∷ 0 ∷ 0 ∷ 0 ∷ []

-- PROOT_PORT_ADD=100.
abbrev add_100 : Environment
add_100 = record { variable = some (49 ∷ 48 ∷ 48 ∷ []); strtol = λ cs. (pos 100, 3) }

abbrev to_port_80 : Switch (List ℕ)
to_port_80 = record { mem = address 2 80 twelve; cached = negsuc 0; printed = [] }

connect_number : get_sysnum connect_regs RegVersion.original ≡ other 203
unfolding get_sysnum bank translate_sysnum
connect_number = refl

connect_pointer : peek_reg connect_regs RegVersion.original sysarg_2 ≡ 100
unfolding peek_reg bank read
connect_pointer = refl

addition_100 : (get_port_addition add_100 (negsuc 0)).0 ≡ 100
unfolding get_port_addition
addition_100 = refl

syscall_enter_end-moved_example :
    let r = syscall_enter_end one_place add_100 connect_regs to_port_80 in
    (r.0 ≡ pos 0)
    × (one_place.read_data r.1.mem 100 16
        ≡ got (address 2 (moved (get_port_addition add_100 (negsuc 0)).0 80) twelve))
    × ((get_port_addition add_100 r.1.cached).0 ≡ (get_port_addition add_100 (negsuc 0)).0)
syscall_enter_end-moved_example =
    syscall_enter_end-moved one_place add_100 one_place-IsMemory false connect_regs to_port_80 203
      100 80 twelve connect_number refl connect_pointer refl (omega arith) refl refl (λ m bs. refl)

-- From port 80 to 280.
syscall_enter_end-moved_again_example :
    let r = syscall_enter_end one_place add_100 connect_regs to_port_80 in
    one_place.read_data (syscall_enter_end one_place add_100 connect_regs r.1).1.mem 100 16
    ≡ got (address 2 (80 + 2 * (get_port_addition add_100 (negsuc 0)).0) twelve)
syscall_enter_end-moved_again_example =
    syscall_enter_end-moved_again one_place add_100 one_place-IsMemory false connect_regs to_port_80
      203 100 80 twelve connect_number refl connect_pointer refl (omega arith)
      (omega (arith, addition_100)) refl refl (λ m bs. refl)
