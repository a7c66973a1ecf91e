-- ===== src/Shebang/Tests.antt =====
-- A script with one interpreter, and one that names itself.
use neoproot.Base.{ℕ, ◌≡◌, refl, List, [], ◌∷◌, ◌++◌, some, ◌==◌, if◌then◌else◌, arith}
use neoproot.Base.Int.{pos, neg}
use neoproot.Path.{byte_at}
use neoproot.Shebang.{File, bytes, Host, extract_shebang, push, expand, expand_shebang}
use neoproot.Shebang.Line.{line, extract_shebang-line}

-- "/s", "/i" and "-x".
abbrev script : List ℕ
script = 47 ∷ 115 ∷ []

abbrev interpreter : List ℕ
interpreter = 47 ∷ 105 ∷ []

abbrev option : List ℕ
option = 45 ∷ 120 ∷ []

-- "/s" starts with "#! /i -x", and every other file is a program.
abbrev file_at : List ℕ → File
file_at path =
    if byte_at path 1 == 115 then bytes (line (32 ∷ []) interpreter option) else bytes (127 ∷ [])

abbrev host : Host
host = record {
  max_symlinks = 20;
  translate_and_check_exec = λ h u. (pos 0, u);
  file_of = file_at;
  fetched = pos 0;
  arguments = script ∷ (97 ∷ []) ∷ [];
  written = λ l. pos 0;
  pushed = λ l. pos 0;
}

runs_interpreter :
    (expand_shebang host script script).1.argv
    ≡ some (interpreter ∷ option ∷ script ∷ (97 ∷ []) ∷ [])
unfolding expand_shebang expand extract_shebang push
runs_interpreter = refl

abbrev looping : Host
looping = record host { file_of = λ path. bytes (line (32 ∷ []) script option) }

loops : (expand_shebang looping script script).0 ≡ neg 40
unfolding expand_shebang expand extract_shebang push
loops = refl

extract_shebang-line_example :
    extract_shebang (bytes (line (32 ∷ []) interpreter option ++ 58 ∷ [])) script
    ≡ record { status = pos 1; path = interpreter; argument = option }
extract_shebang-line_example =
    extract_shebang-line (32 ∷ []) 47 (105 ∷ []) 45 (120 ∷ []) (58 ∷ []) script (refl, tt)
      ((refl, refl), ((refl, refl), tt)) ((refl, refl), ((refl, refl), tt)) refl refl (omega arith)
