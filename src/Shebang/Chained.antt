-- ===== src/Shebang/Chained.antt =====
-- expand_shebang of src/execve/shebang.c: the arguments that a script is run with.
use neoproot.Base.{ℕ, ◌≡◌, Bool, true, false, List, [], ◌∷◌, Option, none, some, drop, length}
use neoproot.Base.Int.{ℤ, neg, is_neg}
use neoproot.Shebang.{Host, Extracted, Expansion, put_front, done, is_zero, extract_shebang}

module _ (h : Host) (script host_path : List ℕ) where
  -- translate_and_check_exec of a file, and what extract_shebang says of its first line.
  abbrev pub checked_at : List ℕ → List ℕ → ℤ × List ℕ
  checked_at host user = h.translate_and_check_exec host user

  abbrev pub line_at : List ℕ → List ℕ → Extracted
  line_at host user = extract_shebang (h.file_of (checked_at host user).1) user

  abbrev pub interpreter_at : List ℕ → List ℕ → ℤ × List ℕ
  interpreter_at host user = checked_at (checked_at host user).1 (line_at host user).path

  -- The interpreters that were read, each with its argument, the last first, and the file that is
  -- looked at next, by its path on the host and that of the guest.
  pub data Reached : List ℕ → List ℕ → List (List ℕ × List ℕ) → Type 0 where
    start : Reached host_path script []
    next :
        (host user : List ℕ) (rounds : List (List ℕ × List ℕ))
        → Reached host user rounds
        → is_neg (checked_at host user).0 ≡ false
        → is_neg (line_at host user).status ≡ false
        → is_zero (line_at host user).status ≡ false
        → is_neg (interpreter_at host user).0 ≡ false
        → Reached
            (interpreter_at host user).1
            (line_at host user).path
            (((line_at host user).path, (line_at host user).argument) ∷ rounds)

  abbrev pub given : List ℕ → List (List ℕ) → List (List ℕ)
  given [] rest = rest
  given (c ∷ cs) rest = (c ∷ cs) ∷ rest

  -- Each interpreter with its argument, where it has one, in front of what it is given.
  abbrev pub command : List (List ℕ × List ℕ) → List (List ℕ)
  command [] = script ∷ drop 1 h.arguments
  command ((path, argument) ∷ rounds) = path ∷ given argument (command rounds)

  -- The arguments, where they were changed.
  abbrev pub changed : List (List ℕ × List ℕ) → Option (List (List ℕ))
  changed [] = none
  changed (r ∷ rounds) = some (command (r ∷ rounds))

  abbrev pub was_changed : List (List ℕ × List ℕ) → Bool
  was_changed [] = false
  was_changed (r ∷ rounds) = true

  -- The strings that a round writes.
  abbrev pub front_at : List ℕ → List ℕ → List (List ℕ)
  front_at host user = put_front (line_at host user).path (line_at host user).argument user

  -- How the loop can end when it looks at a file that it has reached.
  pub data Ended : ℕ → ℤ × Expansion → Type 0 where
    not_found :
        (host user : List ℕ) (rounds : List (List ℕ × List ℕ)) (e : Expansion) (n : ℕ)
        → Reached host user rounds
        → is_neg (checked_at host user).0 ≡ true
        → Ended n ((checked_at host user).0, e)
    unreadable :
        (host user : List ℕ) (rounds : List (List ℕ × List ℕ)) (e : Expansion) (n : ℕ)
        → Reached host user rounds
        → is_neg (line_at host user).status ≡ true
        → Ended n ((line_at host user).status, e)
    no_interpreter :
        (host user : List ℕ) (rounds : List (List ℕ × List ℕ)) (e : Expansion) (n : ℕ)
        → Reached host user rounds
        → is_neg (interpreter_at host user).0 ≡ true
        → Ended n ((interpreter_at host user).0, e)
    not_fetched : (e : Expansion) (n : ℕ) → is_neg h.fetched ≡ true → Ended n (h.fetched, e)
    not_written :
        (host user : List ℕ) (rounds : List (List ℕ × List ℕ)) (e : Expansion) (n : ℕ)
        → Reached host user rounds
        → is_neg (h.written (front_at host user)) ≡ true
        → Ended n (h.written (front_at host user), e)
    not_pushed :
        (host user : List ℕ) (rounds : List (List ℕ × List ℕ)) (e : Expansion) (n : ℕ)
        → Reached host user rounds
        → is_neg (h.pushed (command rounds)) ≡ true
        → Ended n (h.pushed (command rounds), e)
    too_many :
        (host user : List ℕ) (rounds : List (List ℕ × List ℕ)) (e : Expansion) (n : ℕ)
        → Reached host user rounds
        → length rounds ≡ n
        → Ended n (neg 40, e)
    program :
        (host user : List ℕ) (rounds : List (List ℕ × List ℕ)) (n : ℕ)
        → Reached host user rounds
        → is_neg (checked_at host user).0 ≡ false
        → is_zero (line_at host user).status ≡ true
        → Ended n (
          done (was_changed rounds),
          record {
            host_path = (checked_at host user).1;
            user_path = user;
            argv = changed rounds;
            has_shebang = was_changed rounds;
          },
        )

  abbrev at : List ℕ → List ℕ → List (List ℕ × List ℕ) → Expansion
  at host user rounds = record {
    host_path = host;
    user_path = user;
    argv = changed rounds;
    has_shebang = was_changed rounds;
  }
