-- ===== src/Sysvipc/SharedMemory/Layout.antt =====
-- src/extension/sysvipc/sysvipc_shm.c: where the message header of recvmsg lies on the stack.
use neoproot.Base.{ℕ, ◌+◌, ◌-◌, ◌^◌, ◌<◌, ◌≤◌, ◌≡◌, ◌∙◌, ap, List, [], ◌∷◌, arith, refl}
use neoproot.Base.Words.{add64, sub64}
use neoproot.Sysvipc.SharedMemory.Header.{
  Addresses, addresses, recvmsg_pointers, words_of, header_words,
}

-- Every word of the list lies between these two offsets.
abbrev pub WordsIn : ℕ → ℕ → List (ℕ × ℕ) → Type 0
WordsIn low high [] = Unit {0}
WordsIn low high ((offset, value) ∷ ws) = (low ≤ offset) × (offset + 8 ≤ high) × WordsIn low high ws

-- The addresses by their offsets.
at_offsets : ℕ → Addresses
at_offsets g = record {
  data_addr = g + 106;
  data_iov_length = g + 98;
  data_iov_addr = g + 90;
  msghdr_controllen = g + 74;
  msghdr_control = g + 66;
  msghdr_iovlen = g + 58;
  msghdr_iov = g + 50;
  msghdr = g + 34;
}

sub64_at : (g a b : ℕ) → b ≤ a → g + a < 2 ^ 64 → sub64 (g + a) b ≡ g + (a - b)
sub64_at g a b le lt = omega arith

addresses-eq : (g : ℕ) → g + 110 < 2 ^ 64 → addresses g ≡ at_offsets g
unfolding addresses at_offsets
addresses-eq g lt =
    let top : add64 g 110 ≡ g + 110 = omega arith in
    let at : (a b : ℕ) → b ≤ a → a ≤ 110 → sub64 (g + a) b ≡ g + (a - b) =
      λ a b le m. sub64_at g a b le (omega (arith, lt)) in
    rw top (
      rw (at 110 4 (omega arith) (omega arith)) (
        rw (at 106 8 (omega arith) (omega arith)) (
          rw (at 98 8 (omega arith) (omega arith)) (
            rw (at 90 8 (omega arith) (omega arith)) (
              rw (at 82 8 (omega arith) (omega arith)) (
                rw (at 74 8 (omega arith) (omega arith)) (
                  rw (at 66 8 (omega arith) (omega arith)) (
                    rw (at 58 8 (omega arith) (omega arith))
                      (rw (at 50 16 (omega arith) (omega arith)) refl)))))))))

offset-eq : (g a : ℕ) → g + a < 2 ^ 64 → sub64 (g + a) g ≡ a
offset-eq g a lt = omega arith

-- The words of the message, in a buffer at `g`.
message_words : ℕ → List (ℕ × ℕ)
message_words g = (90, g + 106) ∷ (98, 1) ∷ (50, g + 90) ∷ (58, 1) ∷ (66, g) ∷ (74, 20) ∷ []

header_words-eq : (g : ℕ) → g + 110 < 2 ^ 64 → header_words g ≡ message_words g
unfolding header_words message_words at_offsets
header_words-eq g lt =
    let at : (a : ℕ) → a ≤ 110 → sub64 (g + a) g ≡ a = λ a le. offset-eq g a (omega (arith, lt)) in
    let words : words_of (at_offsets g) g ≡ message_words g = rw (at 90 (omega arith)) (
      rw (at 98 (omega arith)) (
        rw (at 50 (omega arith))
          (rw (at 58 (omega arith)) (rw (at 66 (omega arith)) (rw (at 74 (omega arith)) refl))))) in
    ap (λ a. words_of a g) (addresses-eq g lt) ∙ words

words-in : (g : ℕ) → WordsIn 20 110 (message_words g)
unfolding message_words
words-in g = ground arith

-- The buffer of 110 bytes does not wrap: the header is at offset 34 and ends in the buffer, its length
-- of control data is at 40 in it, and what is written lies in the buffer and leaves its first 20
-- bytes to the control data.
pub recvmsg_pointers-fit :
    (g : ℕ)
    → g + 110 < 2 ^ 64
    → ((recvmsg_pointers g).msghdr_ptr ≡ g + 34)
      × ((recvmsg_pointers g).cmsg_controllen_ptr ≡ (recvmsg_pointers g).msghdr_ptr + 40)
      × ((recvmsg_pointers g).msghdr_ptr + 56 ≤ g + 110)
      × WordsIn 20 110 (header_words g)
unfolding recvmsg_pointers message_words at_offsets
recvmsg_pointers-fit g lt =
    let e = addresses-eq g lt in
    let h : (addresses g).msghdr ≡ g + 34 = ap (λ a. a.msghdr) e in
    let c : (addresses g).msghdr_controllen ≡ g + 74 = ap (λ a. a.msghdr_controllen) e in
    (h, omega arith, omega arith, rw (header_words-eq g lt) (words-in g))
