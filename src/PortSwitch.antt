-- ===== src/PortSwitch.antt =====
-- src/extension/port_switch/port_switch.c: the ports below 1024 are moved where a tracee binds, connects
-- or sends.
--
-- The environment and strtol are parameters: what getenv answers, and for a string the number with how
-- many characters it took. A word of two bytes has its low byte first, as on arm64.
pub mod Moves
pub mod Tests
use neoproot.Base.{
  ℕ, zero, suc, ◌+◌, ◌*◌, ◌/◌, ◌%◌, Bool, true, false, not, ◌&&◌, ◌||◌, List, [], ◌∷◌, ◌++◌, Option,
  none, some, ltb, ◌==◌, if◌then◌else◌, length,
}
use neoproot.Base.Int.{ℤ, pos, negsuc, is_neg, neg}
use neoproot.Tracee.Regs.{Sysnum, other, Regs, RegVersion, sysarg_2, sysarg_5, peek_reg, get_sysnum}
use neoproot.Seccomp.{FilteredSysnum}
use neoproot.Seccomp.Lists.{on_exit}

abbrev pub port_threshold : ℕ
port_threshold = 1024

abbrev pub port_addition : ℕ
port_addition = 2000

-- What read_data gives: bytes, or an errno.
pub data Got : Type 0 where
  got : List ℕ → Got
  failed : ℕ → Got

-- The memory of the tracee, as read_data and write_data reach it.
pub record TraceeMemory (M : Type 0) : Type 0 where
  pub read_data : M → ℕ → ℕ → Got
  pub write_data : M → ℕ → List ℕ → M × ℤ

-- What getenv and strtol answer.
pub record Environment : Type 0 where
  pub variable : Option (List ℕ)
  pub strtol : List ℕ → ℤ × ℕ

-- The tracee's memory, the static variable, and the pairs of ports that were printed.
pub record Switch (M : Type 0) : Type 0 where
  pub mem : M
  pub cached : ℤ
  pub printed : List (ℕ × ℕ)

-- strtol's answer where the whole string is a number that is a port.
abbrev checked : ℕ → ℤ × ℕ → ℕ
checked size (pos v, used) =
    if used == 0 || not (used == size) || ltb 65535 v then port_addition else v
checked size (negsuc v, used) = port_addition

abbrev from_environment : Environment → Option (List ℕ) → ℕ
from_environment env none = port_addition
from_environment env (some []) = port_addition
from_environment env (some (c ∷ cs)) = checked (length (c ∷ cs)) (env.strtol (c ∷ cs))

unfoldable pub get_port_addition : Environment → ℤ → ℕ × ℤ
get_port_addition env (pos c) = (c, pos c)
get_port_addition env (negsuc n) = let a = from_environment env env.variable in (a, pos a)

-- ntohs and htons, which swap the two bytes.
abbrev pub ntohs : ℕ → ℕ
ntohs x = x % 256 * 256 + x / 256

unfoldable pub calc_offset_port : Environment → ℤ → ℕ → ℕ × ℤ
unfolding get_port_addition
calc_offset_port env cached original_port =
    let port = ntohs original_port in
    let (a, cached') = get_port_addition env cached in
    if ltb 0 port && ltb port port_threshold
    then (ntohs ((port + a) % 65536), cached')
    else (original_port, cached)

-- The port of a `struct sockaddr_in` or `struct sockaddr_in6`: its third and fourth byte.
abbrev pub sin_port : List ℕ → ℕ
sin_port (f0 ∷ f1 ∷ hi ∷ lo ∷ rest) = hi + 256 * lo
sin_port addr = 0

abbrev pub put_port : List ℕ → ℕ → List ℕ
put_port (f0 ∷ f1 ∷ hi ∷ lo ∷ rest) port = f0 ∷ f1 ∷ port % 256 ∷ port / 256 ∷ rest
put_port addr port = addr

abbrev pub ss_family : List ℕ → ℕ
ss_family (f0 ∷ f1 ∷ rest) = f0 + 256 * f1
ss_family addr = 0

abbrev pub af_inet : ℕ
af_inet = 2

abbrev pub af_inet6 : ℕ
af_inet6 = 10

module _ {M : Type 0} (memory : TraceeMemory M) (env : Environment) where
  -- The address that was read is written back with its new port.
  unfoldable pub modify_read : Switch M → ℕ → Bool → Got → ℤ × Switch M
  unfolding calc_offset_port
  modify_read s addr_ptr is_bind (failed e) = (neg e, s)
  modify_read s addr_ptr is_bind (got addr) =
      let old_port = sin_port addr in
      let (port, cached') = calc_offset_port env s.cached old_port in
      let printed' =
        if is_bind && not (port == old_port)
        then s.printed ++ (ntohs old_port, ntohs port) ∷ []
        else s.printed in
      let (mem', status) = memory.write_data s.mem addr_ptr (put_port addr port) in
      (status, record { mem = mem'; cached = cached'; printed = printed' })

  unfoldable pub modify_ipv4_port : Switch M → ℕ → Bool → ℤ × Switch M
  unfolding modify_read
  modify_ipv4_port s addr_ptr is_bind =
      modify_read s addr_ptr is_bind (memory.read_data s.mem addr_ptr 16)

  unfoldable pub modify_ipv6_port : Switch M → ℕ → Bool → ℤ × Switch M
  unfolding modify_read
  modify_ipv6_port s addr_ptr is_bind =
      modify_read s addr_ptr is_bind (memory.read_data s.mem addr_ptr 28)

  -- The switch on the family that was read.
  unfoldable pub by_family : Switch M → ℕ → Bool → Got → ℤ × Switch M
  unfolding modify_ipv4_port modify_ipv6_port
  by_family s addr_ptr is_bind (failed e) = (neg e, s)
  by_family s addr_ptr is_bind (got family) =
      if ss_family family == af_inet
      then modify_ipv4_port s addr_ptr is_bind
      else if ss_family family == af_inet6
      then modify_ipv6_port s addr_ptr is_bind
      else (pos 0, s)

  -- A sendto without an address is left alone.
  unfoldable pub handle_standard_socketcall : Bool → Bool → Regs → Switch M → ℤ × Switch M
  unfolding by_family peek_reg
  handle_standard_socketcall is_bind is_udp regs s =
      let addr_ptr = peek_reg regs RegVersion.original (if is_udp then sysarg_5 else sysarg_2) in
      if is_udp && addr_ptr == 0
      then (pos 0, s)
      else by_family s addr_ptr is_bind (memory.read_data s.mem addr_ptr 2)

  -- On arm64 bind is 200, connect 203 and sendto 206.
  unfoldable pub by_sysnum : Sysnum → Regs → Switch M → ℤ × Switch M
  unfolding handle_standard_socketcall
  by_sysnum (other n) regs s =
      if n == 200 || n == 203 || n == 206
      then handle_standard_socketcall (n == 200) (n == 206) regs s
      else (pos 0, s)
  by_sysnum n regs s = (pos 0, s)

  -- The event SYSCALL_ENTER_END.
  unfoldable pub syscall_enter_end : Regs → Switch M → ℤ × Switch M
  unfolding by_sysnum get_sysnum
  syscall_enter_end regs s = by_sysnum (get_sysnum regs RegVersion.original) regs s

-- bind, connect, sendto and recvfrom.
abbrev pub port_switch_sysnums : List FilteredSysnum
port_switch_sysnums = on_exit 24 ∷ on_exit 45 ∷ on_exit 310 ∷ on_exit 267 ∷ []
