-- ===== src/Shebang.antt =====
-- src/execve/shebang.c: the first line of a script, and the chain of its interpreters.
--
-- The files, the translation of paths and the arguments in the memory of the tracee are parameters. The
-- list of arguments, without the null pointer at its end, is not empty.
pub mod Line
pub mod Chained
pub mod Tests
use neoproot.Base.{
  ℕ, zero, suc, ◌+◌, ◌-◌, Bool, true, false, not, ◌&&◌, ◌||◌, List, [], ◌∷◌, ◌++◌, Option, none,
  some, ◌==◌, if◌then◌else◌, length, take, drop,
}
use neoproot.Base.Int.{ℤ, pos, neg, is_neg}

abbrev pub binprm_buf_size : ℕ
binprm_buf_size = 256

abbrev pub is_blank : ℕ → Bool
is_blank c = c == 32 || c == 9

abbrev pub is_line_end : ℕ → Bool
is_line_end c = c == 10 || c == 13

abbrev pub skip_blanks : List ℕ → List ℕ
skip_blanks [] = []
skip_blanks (c ∷ cs) = let rest = skip_blanks cs in if is_blank c then rest else c ∷ cs

-- The loop that copies up to a blank or the end of the line, at most `n` bytes, and what is left.
abbrev pub read_path : ℕ → List ℕ → List ℕ × List ℕ
read_path zero cs = ([], cs)
read_path (suc n) [] = ([], [])
read_path (suc n) (c ∷ cs) =
    let (path, rest) = read_path n cs in
    if is_blank c || is_line_end c then ([], c ∷ cs) else (c ∷ path, rest)

-- The loop that copies the argument, at most `n` bytes of it.
abbrev pub read_argument : ℕ → List ℕ → List ℕ
read_argument zero cs = []
read_argument (suc n) [] = []
read_argument (suc n) (c ∷ cs) =
    let rest = read_argument n cs in if is_line_end c then [] else c ∷ rest

abbrev is_empty : List ℕ → Bool
is_empty [] = true
is_empty (c ∷ cs) = false

-- The blanks at the end are cut.
abbrev pub trim : List ℕ → List ℕ
trim [] = []
trim (c ∷ cs) = let rest = trim cs in if is_blank c && is_empty rest then [] else c ∷ rest

-- The bytes in front of the first terminator.
abbrev pub c_string : List ℕ → List ℕ
c_string [] = []
c_string (c ∷ cs) = let rest = c_string cs in if c == 0 then [] else c ∷ rest

-- What extract_shebang returns and stores.
pub record Extracted : Type 0 where
  pub status : ℤ
  pub path : List ℕ
  pub argument : List ℕ

abbrev pub not_script : List ℕ → Extracted
not_script user_path = record { status = pos 0; path = user_path; argument = [] }

-- The part that follows the path.
abbrev pub with_argument : List ℕ × List ℕ → Extracted
with_argument (path, []) = record { status = pos 1; path = c_string path; argument = [] }
with_argument (path, c ∷ cs) =
    if is_line_end c
    then record { status = pos 1; path = c_string path; argument = [] }
    else record {
      status = pos 1;
      path = c_string path;
      argument = c_string (trim (read_argument (binprm_buf_size - 1) (skip_blanks (c ∷ cs))));
    }

abbrev pub extract_line : List ℕ → List ℕ → Extracted
extract_line user_path (a ∷ b ∷ cs) =
    if a == 35 && b == 33
    then with_argument (read_path 4095 (skip_blanks cs))
    else not_script user_path
extract_line user_path cs = not_script user_path

-- A file that does not open, or its bytes, which are none where the read fails.
pub data File : Type 0 where
  unopened : ℕ → File
  bytes : List ℕ → File

unfoldable pub extract_shebang : File → List ℕ → Extracted
extract_shebang (unopened e) user_path = record { status = neg e; path = user_path; argument = [] }
extract_shebang (bytes content) user_path = extract_line user_path (take binprm_buf_size content)

-- MAXSYMLINKS of the C library, which is 20 in glibc and 8 in bionic;
-- translate_and_check_exec gives a status and a host path; what fetch_array_of_xpointers and
-- push_array_of_xpointers return, and write_xpointees of these strings.
pub record Host : Type 0 where
  pub max_symlinks : ℕ
  pub translate_and_check_exec : List ℕ → List ℕ → ℤ × List ℕ
  pub file_of : List ℕ → File
  pub fetched : ℤ
  pub arguments : List (List ℕ)
  pub written : List (List ℕ) → ℤ
  pub pushed : List (List ℕ) → ℤ

pub record Expansion : Type 0 where
  pub host_path : List ℕ
  pub user_path : List ℕ
  pub argv : Option (List (List ℕ))
  pub has_shebang : Bool

abbrev pub fetch_status : Host → Option (List (List ℕ)) → ℤ
fetch_status h none = h.fetched
fetch_status h (some argv) = pos 0

abbrev pub fetch : Host → Option (List (List ℕ)) → List (List ℕ)
fetch h none = h.arguments
fetch h (some argv) = argv

-- The strings that are put in front, the last of them in the place of the first argument.
abbrev pub put_front : List ℕ → List ℕ → List ℕ → List (List ℕ)
put_front user_path [] old_user_path = user_path ∷ old_user_path ∷ []
put_front user_path (c ∷ cs) old_user_path = user_path ∷ (c ∷ cs) ∷ old_user_path ∷ []

abbrev pub done : Bool → ℤ
done has_shebang = if has_shebang then pos 1 else pos 0

-- What follows the loop.
unfoldable pub push : Host → Expansion → Option (List (List ℕ)) → ℤ × Expansion
push h s none = (done s.has_shebang, s)
push h s (some argv) =
    if is_neg (h.pushed argv) then (h.pushed argv, s) else (done s.has_shebang, s)

abbrev pub is_zero : ℤ → Bool
is_zero (pos zero) = true
is_zero _ = false

-- The loop, with the rounds that are left.
unfoldable pub expand : Host → ℕ → Expansion → ℤ × Expansion
unfolding extract_shebang push
expand h zero s = (neg 40, s)
expand h (suc n) s =
    let (found, host1) = h.translate_and_check_exec s.host_path s.user_path in
    let x = extract_shebang (h.file_of host1) s.user_path in
    let (checked, host2) = h.translate_and_check_exec host1 x.path in
    let front = put_front x.path x.argument s.user_path in
    let argv' = front ++ drop 1 (fetch h s.argv) in
    let rest =
      expand h n
        (record { host_path = host2; user_path = x.path; argv = some argv'; has_shebang = true }) in
    if is_neg found
    then (found, s)
    else if is_neg x.status
    then (x.status, record s { host_path = host1 })
    else if is_zero x.status
    then push h (record s { host_path = host1 }) s.argv
    else if is_neg checked
    then (checked, record s { host_path = host1; user_path = x.path; has_shebang = true })
    else if is_neg (fetch_status h s.argv)
    then (
      fetch_status h s.argv,
      record s { host_path = host2; user_path = x.path; has_shebang = true },
    )
    else if is_neg (h.written front)
    then (h.written front, record s { host_path = host2; user_path = x.path; has_shebang = true })
    else rest

-- expand_shebang.
unfoldable pub expand_shebang : Host → List ℕ → List ℕ → ℤ × Expansion
unfolding expand
expand_shebang h host_path user_path =
    expand h h.max_symlinks
      (record { host_path = host_path; user_path = user_path; argv = none; has_shebang = false })
