-- ===== src/FakeId/Linux.antt =====
-- The credential calls beside what setreuid(2) and setresuid(2) document.
use neoproot.Base.{
  ℕ, ◌-◌, ◌^◌, ◌<◌, ◌≡◌, Bool, not, ◌&&◌, ◌||◌, Option, none, some, arith, ◌==◌, if◌then◌else◌,
}
use neoproot.FakeId.{
  Ids, id_of, unset_id, unchanged_id, equals_any_id, setrexid_allowed, setrexid, setresxid,
}

-- setreuid(2): a process that is not root may set the real id to the real or effective one, and the
-- effective id to the real, effective or saved one.
abbrev pub may_setreid : Bool → Ids → ℕ → ℕ → Bool
may_setreid root c r e =
    root || ((unset_id r || r == c.r || r == c.e) && (unset_id e || equals_any_id e c))

abbrev pub new_real : Ids → ℕ → ℕ
new_real c r = if unset_id r then c.r else r

abbrev pub new_effective : Ids → ℕ → ℕ
new_effective c e = if unset_id e then c.e else e

-- setreuid(2): the saved id becomes the new effective id if the real id is set, or if the effective
-- id is set to a value that is not the old real id.
abbrev pub new_saved : Ids → ℕ → ℕ → ℕ
new_saved c r e =
    if not (unset_id r) || (not (unset_id e) && not (e == c.r)) then new_effective c e else c.s

-- A real id taken from the effective one, with the effective id taken from the saved one.
abbrev pub crosswise : Ids → ℕ → ℕ → Bool
crosswise c r e = r == c.e && not (unchanged_id r c.r) && not (e == c.r || unchanged_id e c.e)

-- The handler allows what setreuid(2) allows, but for the change that takes the real id from the
-- effective one and the effective id from the saved one, which it refuses to a process that is not
-- root.
pub setrexid_allowed-eq :
    (root : Bool) (c : Ids) (r e : ℕ)
    → setrexid_allowed root c r e ≡ (root || (may_setreid root c r e && not (crosswise c r e)))
unfolding setrexid_allowed
setrexid_allowed-eq root c r e = ground arith

abbrev pub OnSome : Option Ids → (Ids → Type 0) → Type 0
OnSome none P = Unit {0}
OnSome (some d) P = P d

-- An accepted change leaves the real, effective and saved ids that setreuid(2) states, but for a
-- call that sets the real id alone, which leaves the saved id as it was. The filesystem id follows
-- an effective id that is set.
pub setrexid-eq :
    (root : Bool) (c : Ids) (rw ew : ℕ)
    → OnSome (setrexid root c rw ew) λ d.
      (d.r ≡ new_real c (id_of rw))
      × (d.e ≡ new_effective c (id_of ew))
      × (d.s ≡ (
          if not (unset_id (id_of rw)) && unset_id (id_of ew)
          then c.s
          else new_saved c (id_of rw) (id_of ew)))
      × (d.fs ≡ (if unset_id (id_of ew) then c.fs else id_of ew))
unfolding setrexid
setrexid-eq root c rw ew = ground arith

-- `-1` as an argument word.
abbrev pub minus_one : ℕ
minus_one = 2 ^ 64 - 1

-- An effective id that was changed alone can be changed back to the saved id, root or not, and then
-- real, effective and saved ids are those of before if the effective id was the saved one.
setresxid_restore :
    (root later : Bool) (c d : Ids) (w : ℕ)
    → c.s < 2 ^ 32 - 1
    → setresxid root c minus_one w minus_one ≡ some d
    → (d.r ≡ c.r)
      × (d.s ≡ c.s)
      × (setresxid later d minus_one c.s minus_one
          ≡ some (record { r = c.r; e = c.s; s = c.s; fs = c.s }))
unfolding setresxid
setresxid_restore root later c d w k h = ground arith
