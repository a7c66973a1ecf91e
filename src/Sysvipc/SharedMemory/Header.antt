-- ===== src/Sysvipc/SharedMemory/Header.antt =====
-- src/extension/sysvipc/sysvipc_shm.c: the message header that the shmat chain writes for recvmsg.
use neoproot.Base.{ℕ, List, [], ◌∷◌}
use neoproot.Base.Words.{add64, sub64}

-- `struct SysVIpcRecvMsgPointers`.
pub record RecvMsgPointers : Type 0 where
  pub msghdr_ptr : ℕ
  pub cmsg_controllen_ptr : ℕ
  pub cmsg_control_ptr : ℕ

-- The addresses that sysvipc_shm_recvmsg_pointers computes: the data, the vector that points to it,
-- and the fields of a `struct msghdr`.
pub record Addresses : Type 0 where
  pub data_addr : ℕ
  pub data_iov_length : ℕ
  pub data_iov_addr : ℕ
  pub msghdr_controllen : ℕ
  pub msghdr_control : ℕ
  pub msghdr_iovlen : ℕ
  pub msghdr_iov : ℕ
  pub msghdr : ℕ

unfoldable pub addresses : ℕ → Addresses
addresses guest_buf =
    let buf_end = add64 guest_buf 110 in
    let data_addr = sub64 buf_end 4 in
    let data_iov_length = sub64 data_addr 8 in
    let data_iov_addr = sub64 data_iov_length 8 in
    let msghdr_flags = sub64 data_iov_addr 8 in
    let msghdr_controllen = sub64 msghdr_flags 8 in
    let msghdr_control = sub64 msghdr_controllen 8 in
    let msghdr_iovlen = sub64 msghdr_control 8 in
    let msghdr_iov = sub64 msghdr_iovlen 8 in
    record {
      data_addr = data_addr;
      data_iov_length = data_iov_length;
      data_iov_addr = data_iov_addr;
      msghdr_controllen = msghdr_controllen;
      msghdr_control = msghdr_control;
      msghdr_iovlen = msghdr_iovlen;
      msghdr_iov = msghdr_iov;
      msghdr = sub64 msghdr_iov 16;
    }

-- sysvipc_shm_recvmsg_pointers: what it gives out.
unfoldable pub recvmsg_pointers : ℕ → RecvMsgPointers
unfolding addresses
recvmsg_pointers guest_buf = record {
  msghdr_ptr = (addresses guest_buf).msghdr;
  cmsg_controllen_ptr = (addresses guest_buf).msghdr_controllen;
  cmsg_control_ptr = guest_buf;
}

-- The words that it writes, the rest of the 110 bytes being 0: each with its offset in the buffer.
abbrev pub words_of : Addresses → ℕ → List (ℕ × ℕ)
words_of a guest_buf =
    (sub64 a.data_iov_addr guest_buf, a.data_addr)
    ∷ (sub64 a.data_iov_length guest_buf, 1)
    ∷ (sub64 a.msghdr_iov guest_buf, a.data_iov_addr)
    ∷ (sub64 a.msghdr_iovlen guest_buf, 1)
    ∷ (sub64 a.msghdr_control guest_buf, guest_buf)
    ∷ (sub64 a.msghdr_controllen guest_buf, 20)
    ∷ []

unfoldable pub header_words : ℕ → List (ℕ × ℕ)
header_words guest_buf = words_of (addresses guest_buf) guest_buf
