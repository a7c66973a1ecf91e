-- ===== src/HiddenFiles/Tests.antt =====
-- A directory with "a" and ".proot-1".
use neoproot.Base.{ℕ, ◌≡◌, refl, true, List, [], ◌∷◌, ◌++◌, some, arith, replicate}
use neoproot.HiddenFiles.{
  Getdents, shortened, filter_dirents, put_dirents, filter_read, handle_getdents,
}
use neoproot.HiddenFiles.Shown.{dirents, visible, shown, handle_getdents-shown}

abbrev seen_entry : List ℕ
seen_entry = replicate 16 1 ++ (24 ∷ 0 ∷ 8 ∷ 97 ∷ 0 ∷ 0 ∷ 0 ∷ 0 ∷ [])

abbrev hidden_entry : List ℕ
hidden_entry =
    replicate 16 2 ++ (32 ∷ 0 ∷ 8 ∷ 46 ∷ 112 ∷ 114 ∷ 111 ∷ 111 ∷ 116 ∷ 45 ∷ 49 ∷ replicate 5 0)

abbrev entries : List (List ℕ)
entries = hidden_entry ∷ seen_entry ∷ hidden_entry ∷ []

abbrev listing : Getdents
listing = record {
  is_64 = true;
  result = 88;
  count = 32768;
  path = some (47 ∷ 114 ∷ 47 ∷ 100 ∷ []);
  root = some (47 ∷ 114 ∷ []);
  orig_data = some (dirents entries);
  is_writable = true;
}

leaves_one : handle_getdents listing ≡ shortened seen_entry
unfolding handle_getdents filter_read filter_dirents put_dirents
leaves_one = refl

handle_getdents-shown_example : handle_getdents listing ≡ shown (visible true entries)
handle_getdents-shown_example =
    handle_getdents-shown listing entries
      ((refl, omega arith, refl), ((refl, omega arith, refl), ((refl, omega arith, refl), tt)))
      (omega arith) (omega arith) (omega arith) (omega arith) refl refl refl
