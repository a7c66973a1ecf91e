-- ===== src/Seccomp/Lists.antt =====
-- src/syscall/seccomp.c: the calls that neoproot itself filters, by the enumeration of
-- src/syscall/sysnums.list.
use neoproot.Base.{ℕ, Bool, List, [], ◌∷◌, ◌++◌, if◌then◌else◌}
use neoproot.Seccomp.{FilteredSysnum}

abbrev pub filter_sysexit : ℕ
filter_sysexit = 1

-- The call stops on entry, or on entry and on exit.
abbrev pub on_entry : ℕ → FilteredSysnum
on_entry v = record { value = v; flags = 0 }

abbrev pub on_exit : ℕ → FilteredSysnum
on_exit v = record { value = v; flags = filter_sysexit }

-- accept to inotify_add_watch.
abbrev before_ioctl : List FilteredSysnum
before_ioctl =
    on_exit 11
    ∷ on_exit 12
    ∷ on_entry 13
    ∷ on_entry 14
    ∷ on_entry 24
    ∷ on_exit 27
    ∷ on_exit 31
    ∷ on_entry 43
    ∷ on_entry 44
    ∷ on_entry 32
    ∷ on_entry 33
    ∷ on_entry 34
    ∷ on_entry 35
    ∷ on_entry 41
    ∷ on_entry 42
    ∷ on_entry 45
    ∷ on_entry 47
    ∷ on_exit 62
    ∷ on_exit 63
    ∷ on_entry 66
    ∷ on_exit 67
    ∷ on_exit 73
    ∷ on_entry 75
    ∷ on_entry 76
    ∷ on_entry 79
    ∷ on_entry 92
    ∷ on_entry 100
    ∷ on_exit 106
    ∷ on_exit 118
    ∷ on_exit 133
    ∷ on_entry 139
    ∷ on_entry 143
    ∷ []

-- lchown to lstat64.
abbrev before_memfd_create : List FilteredSysnum
before_memfd_create =
    on_entry 163
    ∷ on_entry 164
    ∷ on_entry 165
    ∷ on_entry 166
    ∷ on_entry 167
    ∷ on_entry 169
    ∷ on_entry 170
    ∷ on_entry 173
    ∷ on_entry 175
    ∷ on_entry 176
    ∷ on_entry 177
    ∷ []

-- mkdir to waitpid.
abbrev after_memfd_create : List FilteredSysnum
after_memfd_create =
    on_entry 184
    ∷ on_entry 185
    ∷ on_entry 186
    ∷ on_entry 187
    ∷ on_exit 194
    ∷ on_entry 195
    ∷ on_entry 214
    ∷ on_entry 216
    ∷ on_entry 220
    ∷ on_entry 222
    ∷ on_entry 224
    ∷ on_entry 226
    ∷ on_entry 227
    ∷ on_exit 236
    ∷ on_entry 242
    ∷ on_exit 246
    ∷ on_exit 252
    ∷ on_exit 262
    ∷ on_exit 263
    ∷ on_entry 271
    ∷ on_exit 272
    ∷ on_exit 273
    ∷ on_exit 274
    ∷ on_entry 277
    ∷ on_exit 337
    ∷ on_entry 343
    ∷ on_exit 360
    ∷ on_entry 364
    ∷ on_entry 365
    ∷ on_exit 366
    ∷ on_exit 367
    ∷ on_exit 368
    ∷ on_entry 371
    ∷ on_entry 372
    ∷ on_entry 373
    ∷ on_entry 374
    ∷ on_entry 395
    ∷ on_entry 396
    ∷ on_exit 401
    ∷ on_exit 402
    ∷ on_exit 406
    ∷ on_exit 326
    ∷ on_exit 403
    ∷ on_entry 404
    ∷ on_entry 405
    ∷ on_entry 407
    ∷ on_exit 410
    ∷ on_entry 411
    ∷ on_entry 412
    ∷ on_exit 419
    ∷ on_exit 421
    ∷ []

-- `ioctl` and `memfd_create` are in the list on Android.
unfoldable pub proot_sysnums : Bool → List FilteredSysnum
proot_sysnums android =
    before_ioctl
    ++ (if android then on_exit 152 ∷ [] else [])
    ++ before_memfd_create
    ++ (if android then on_entry 181 ∷ [] else [])
    ++ after_memfd_create

-- close, recvfrom, recvmsg, sendmsg, sendto, socket.
unfoldable pub netlink_sysnums : List FilteredSysnum
netlink_sysnums =
    on_entry 43 ∷ on_entry 267 ∷ on_entry 269 ∷ on_entry 309 ∷ on_entry 310 ∷ on_exit 359 ∷ []
