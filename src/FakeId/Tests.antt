-- ===== src/FakeId/Tests.antt =====
-- Witnesses and runs at concrete inputs.
use neoproot.Base.{◌≡◌, ◌≢◌, refl, true, false, [], ◌∷◌, arith, List}
use neoproot.FakeId.{
  Ids, Config, Host, IdCall, setuid, setreuid, setresuid, setrexid_allowed, setrexid, run,
}
use neoproot.FakeId.Confined.{Confined, run-Confined}
use neoproot.FakeId.Linux.{setrexid_allowed-eq, OnSome, setrexid-eq, minus_one}

abbrev host : Host
host = record { uid = 10123; euid = 10123; gid = 10123; egid = 10123 }

abbrev root_ids : Ids
root_ids = record { r = 0; e = 0; s = 0; fs = 0 }

abbrev user_ids : Ids
user_ids = record { r = 1000; e = 1000; s = 1001; fs = 1000 }

abbrev as_root : Config
as_root = record { u = root_ids; g = root_ids; umask = 18 }

abbrev as_user : Config
as_user = record { u = user_ids; g = root_ids; umask = 18 }

abbrev attempts : List IdCall
attempts = setuid 0 ∷ setreuid 1001 0 ∷ setresuid 1001 1001 1000 ∷ setuid 10123 ∷ setuid 0 ∷ []

run-Confined_example : Confined (λ i. i ≢ 0) (λ i. Unit {0}) (run host as_user attempts)
run-Confined_example =
    run-Confined (λ i. i ≢ 0) (λ i. Unit {0}) host as_user attempts (λ n. n refl) (omega arith) tt
      (omega arith)

setrexid_allowed-eq_example : setrexid_allowed false user_ids 1000 1001 ≡ true
setrexid_allowed-eq_example = setrexid_allowed-eq false user_ids 1000 1001

abbrev set_e : Ids
set_e = record { r = 1000; e = 1001; s = 1001; fs = 1001 }

setrexid-eq_example :
    OnSome
      (setrexid false user_ids minus_one 1001)
      λ d. (d.r ≡ 1000) × (d.e ≡ 1001) × (d.s ≡ 1001) × (d.fs ≡ 1001)
setrexid-eq_example = setrexid-eq false user_ids minus_one 1001
