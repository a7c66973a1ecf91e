-- ===== src/FakeId.antt =====
-- src/extension/fake_id0/fake_id0.c: the credentials that the tracee believes it has. The macros
-- SETXID, SETREXID, SETRESXID and SETFSXID are instantiated for user and for group ids; here they
-- are functions of the four ids of one kind.
pub mod Linux
pub mod Confined
pub mod Tests
use neoproot.Base.{
  ℕ, ◌-◌, ◌%◌, ◌^◌, Bool, true, false, ◌&&◌, ◌||◌, not, Option, none, some, List, [], ◌∷◌, ◌==◌,
  if◌then◌else◌,
}
use neoproot.Base.Int.{ℤ, pos, negsuc, neg}

-- The ids of one kind: ruid, euid, suid and fsuid of `Config`, or rgid, egid, sgid and fsgid.
pub record Ids : Type 0 where
  pub r : ℕ
  pub e : ℕ
  pub s : ℕ
  pub fs : ℕ

pub record Config : Type 0 where
  pub u : Ids
  pub g : Ids
  pub umask : ℕ

-- What `getuid`, `geteuid`, `getgid` and `getegid` return in the tracer.
pub record Host : Type 0 where
  pub uid : ℕ
  pub euid : ℕ
  pub gid : ℕ
  pub egid : ℕ

abbrev pub eperm : ℕ
eperm = 1

-- `uid_t x = peek_reg(...)` keeps the low 32 bits of the word.
abbrev pub id_of : ℕ → ℕ
id_of w = w % 2 ^ 32

-- `(uid_t) -1`.
abbrev pub unset_id : ℕ → Bool
unset_id i = i == 2 ^ 32 - 1

abbrev pub unchanged_id : ℕ → ℕ → Bool
unchanged_id i cfg = unset_id i || i == cfg

abbrev pub equals_any_id : ℕ → Ids → Bool
equals_any_id v c = v == c.r || v == c.e || v == c.s

-- SETXID: `root` is `config->euid == 0`, whichever the kind. `none` is -EPERM.
unfoldable pub setxid_allowed : Bool → ℕ → ℕ → Ids → ℕ → Bool
setxid_allowed root host_r host_e c v =
    root
    || v == c.r
    || v == c.e
    || v == c.s
    || (if v == host_e && c.e == host_e then true else not (c.e == 0) && v == host_r)

unfoldable pub setxid : Bool → ℕ → ℕ → Ids → ℕ → Option Ids
unfolding setxid_allowed
setxid root host_r host_e c w =
    let v = id_of w in
    if not (setxid_allowed root host_r host_e c v)
    then none
    else if root
    then some (record { r = v; e = v; s = v; fs = v })
    else some (record c { e = v; fs = v })

-- SETREXID.
unfoldable pub setrexid_allowed : Bool → Ids → ℕ → ℕ → Bool
setrexid_allowed root c r e =
    root
    || (unchanged_id e c.e && unchanged_id r c.r)
    || (r == c.e && (e == c.r || unchanged_id e c.e))
    || (e == c.r && (r == c.e || unchanged_id r c.r))
    || (e == c.s && unchanged_id r c.r)

setrexid_e : Ids → ℕ → Ids
setrexid_e c e =
    if unset_id e
    then c
    else if not (e == c.r)
    then record c { s = e; e = e; fs = e }
    else record c { e = e; fs = e }

setrexid_r : Ids → ℕ → ℕ → Ids
setrexid_r c r e =
    if unset_id r
    then c
    else if not (unset_id e)
    then record c { s = e; r = r }
    else record c { r = r }

unfoldable pub setrexid : Bool → Ids → ℕ → ℕ → Option Ids
unfolding setrexid_allowed setrexid_e setrexid_r
setrexid root c rw ew =
    let r = id_of rw in
    let e = id_of ew in
    if not (setrexid_allowed root c r e) then none else some (setrexid_r (setrexid_e c e) r e)

-- SETRESXID.
unfoldable pub setresxid_allowed : Bool → Ids → ℕ → ℕ → ℕ → Bool
setresxid_allowed root c r e s =
    root
    || ((unset_id r || equals_any_id r c)
        && (unset_id e || equals_any_id e c)
        && (unset_id s || equals_any_id s c))

unfoldable pub setresxid : Bool → Ids → ℕ → ℕ → ℕ → Option Ids
unfolding setresxid_allowed
setresxid root c rw ew sw =
    let r = id_of rw in
    let e = id_of ew in
    let s = id_of sw in
    if not (setresxid_allowed root c r e s)
    then none
    else (let c1 : Ids = if unset_id r then c else record c { r = r } in
        let c2 : Ids = if unset_id e then c1 else record c1 { e = e; fs = e } in
        some (if unset_id s then c2 else record c2 { s = s }))

-- SETFSXID: a refused id is ignored, and the old one is returned.
unfoldable pub setfsxid : Bool → Ids → ℕ → Ids
setfsxid root c w =
    let v = id_of w in if root || v == c.fs || equals_any_id v c then record c { fs = v } else c

-- The calls of `handle_sysexit_end` on the credentials, each with its argument words.
pub data IdCall : Type 0 where
  setuid setgid setfsuid setfsgid : ℕ → IdCall
  setreuid setregid : ℕ → ℕ → IdCall
  setresuid setresgid : ℕ → ℕ → ℕ → IdCall
  getuid geteuid getgid getegid : IdCall

-- The status that the handler returns, the credentials, and what it writes to the result register.
pub record Outcome : Type 0 where
  pub status : ℤ
  pub config : Config
  pub result : Option ℕ

abbrev pub with_u : Config → Option Ids → Outcome
with_u c none = record { status = neg eperm; config = c; result = none }
with_u c (some i) = record { status = pos 0; config = record c { u = i }; result = some 0 }

abbrev pub with_g : Config → Option Ids → Outcome
with_g c none = record { status = neg eperm; config = c; result = none }
with_g c (some i) = record { status = pos 0; config = record c { g = i }; result = some 0 }

abbrev gets : Config → ℕ → Outcome
gets c v = record { status = pos 0; config = c; result = some v }

abbrev pub is_root : Config → Bool
is_root c = c.u.e == 0

unfoldable pub handle : Host → Config → IdCall → Outcome
handle h c (setuid w) = with_u c (setxid (is_root c) h.uid h.euid c.u w)
handle h c (setgid w) = with_g c (setxid (is_root c) h.gid h.egid c.g w)
handle h c (setreuid r e) = with_u c (setrexid (is_root c) c.u r e)
handle h c (setregid r e) = with_g c (setrexid (is_root c) c.g r e)
handle h c (setresuid r e s) = with_u c (setresxid (is_root c) c.u r e s)
handle h c (setresgid r e s) = with_g c (setresxid (is_root c) c.g r e s)
handle h c (setfsuid w) = record {
  status = pos 0;
  config = record c { u = setfsxid (is_root c) c.u w };
  result = some c.u.fs;
}
handle h c (setfsgid w) = record {
  status = pos 0;
  config = record c { g = setfsxid (is_root c) c.g w };
  result = some c.g.fs;
}
handle h c getuid = gets c c.u.r
handle h c geteuid = gets c c.u.e
handle h c getgid = gets c c.g.r
handle h c getegid = gets c c.g.e

pub run : Host → Config → List IdCall → Config
run h c [] = c
run h c (call ∷ calls) = run h (handle h c call).config calls
