-- ===== src/FakeId/Confined.antt =====
-- A tracee that is not root cannot take an id that it has not.
use neoproot.Base.{
  ℕ, ◌≡◌, ◌≢◌, inl, inr, Bool, true, false, Option, none, some, List, [], ◌∷◌, arith, Bool-cases,
  ==_iff, refl,
}
use mathlib.Core.Path.{subst}
use neoproot.FakeId.{
  Ids, Config, Host, IdCall, setuid, setgid, setreuid, setregid, setresuid, setresgid, setfsuid,
  setfsgid, getuid, geteuid, getgid, getegid, id_of, setxid, setrexid, setresxid, setfsxid, handle,
  run, is_root, with_u, with_g,
}

-- All four ids have the property `P`.
abbrev pub AllIds : (ℕ → Type 0) → Ids → Type 0
AllIds P c = P c.r × P c.e × P c.s × P c.fs

abbrev OrRefused : (ℕ → Type 0) → Option Ids → Type 0
OrRefused P none = Unit {0}
OrRefused P (some c) = AllIds P c

module _ (P : ℕ → Type 0) (root : Bool) (c : Ids) (user : root ≡ false) (held : AllIds P c) where
  setxid-AllIds : (host_r host_e w : ℕ) → P host_r → OrRefused P (setxid root host_r host_e c w)
  unfolding setxid
  setxid-AllIds host_r host_e w hr = ground arith

  setrexid-AllIds : (rw ew : ℕ) → OrRefused P (setrexid root c rw ew)
  unfolding setrexid
  setrexid-AllIds rw ew = ground arith

  setresxid-AllIds : (rw ew sw : ℕ) → OrRefused P (setresxid root c rw ew sw)
  unfolding setresxid
  setresxid-AllIds rw ew sw = ground arith

  setfsxid-AllIds : (w : ℕ) → AllIds P (setfsxid root c w)
  unfolding setfsxid
  setfsxid-AllIds w = ground arith

-- Every user id of the credentials has `P`, and every group id has `Q`.
abbrev pub Confined : (ℕ → Type 0) → (ℕ → Type 0) → Config → Type 0
Confined P Q c = AllIds P c.u × AllIds Q c.g

module _ (P Q : ℕ → Type 0) (c : Config) (held : Confined P Q c) where
  with_u-Confined : (o : Option Ids) → OrRefused P o → Confined P Q (with_u c o).config
  with_u-Confined none h = held
  with_u-Confined (some i) h = (h, held.1)

  with_g-Confined : (o : Option Ids) → OrRefused Q o → Confined P Q (with_g c o).config
  with_g-Confined none h = held
  with_g-Confined (some i) h = (held.0, h)

not-is_root : (P : ℕ → Type 0) (c : Config) → P c.u.e → ¬ P 0 → is_root c ≡ false
not-is_root P c h z = elim (Bool-cases (is_root c)) [
  | inl root ↦ absurd (z (subst P ((==_iff c.u.e 0).0 root) h))
  | inr user ↦ user
]

module _ (P Q : ℕ → Type 0) (h : Host) (c : Config) (user : is_root c ≡ false) (pu : P h.uid)
    (qg : Q h.gid) (held : Confined P Q c) where
  handle-Confined : (call : IdCall) → Confined P Q (handle h c call).config
  unfolding handle
  handle-Confined (setuid w) =
      with_u-Confined P Q c held _ (setxid-AllIds P _ c.u user held.0 h.uid h.euid w pu)
  handle-Confined (setgid w) =
      with_g-Confined P Q c held _ (setxid-AllIds Q _ c.g user held.1 h.gid h.egid w qg)
  handle-Confined (setreuid r e) =
      with_u-Confined P Q c held _ (setrexid-AllIds P _ c.u user held.0 r e)
  handle-Confined (setregid r e) =
      with_g-Confined P Q c held _ (setrexid-AllIds Q _ c.g user held.1 r e)
  handle-Confined (setresuid r e s) =
      with_u-Confined P Q c held _ (setresxid-AllIds P _ c.u user held.0 r e s)
  handle-Confined (setresgid r e s) =
      with_g-Confined P Q c held _ (setresxid-AllIds Q _ c.g user held.1 r e s)
  handle-Confined (setfsuid w) = (setfsxid-AllIds P _ c.u user held.0 w, held.1)
  handle-Confined (setfsgid w) = (held.0, setfsxid-AllIds Q _ c.g user held.1 w)
  handle-Confined getuid = held
  handle-Confined geteuid = held
  handle-Confined getgid = held
  handle-Confined getegid = held

-- Let `P` hold of a tracee's four user ids and of the tracer's real user id, but not of 0, and `Q`
-- of its four group ids and of the tracer's real group id. After any sequence of credential calls
-- `P` and `Q` still hold of all its ids, so it never becomes root and takes no id from outside.
pub run-Confined :
    (P Q : ℕ → Type 0) (h : Host) (c : Config) (calls : List IdCall)
    → ¬ P 0
    → P h.uid
    → Q h.gid
    → Confined P Q c
    → Confined P Q (run h c calls)
unfolding run
run-Confined P Q h c [] z pu qg held = held
run-Confined P Q h c (call ∷ calls) z pu qg held =
    run-Confined P Q h (handle h c call).config calls z pu qg
      (handle-Confined P Q h c (not-is_root P c held.0.1 z) pu qg held call)

-- When root sets its user id to `w`, which is not 0, all four user ids become `w`, and no later
-- sequence of credential calls makes the tracee root again, where the tracer itself is not root.
drop_root :
    (h : Host) (c : Config) (w : ℕ) (calls : List IdCall)
    → is_root c ≡ true
    → id_of w ≢ 0
    → h.uid ≢ 0
    → ((handle h c (setuid w)).config.u
        ≡ record { r = id_of w; e = id_of w; s = id_of w; fs = id_of w })
      × (is_root (run h c (setuid w ∷ calls)) ≡ false)
unfolding handle setxid run
drop_root h c w calls root nz hz = (
  ground arith,
  not-is_root (λ i. i ≢ 0) (run h c (setuid w ∷ calls))
      (run-Confined (λ i. i ≢ 0) (λ i. Unit {0}) h (handle h c (setuid w)).config calls
        (λ n. n refl) hz tt (dropped, (tt, tt, tt, tt))).0.1
      (λ n. n refl),
)
  where
    dropped : AllIds (λ i. i ≢ 0) (handle h c (setuid w)).config.u
    dropped = ground arith
