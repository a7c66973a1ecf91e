-- ===== src/Shebang/Line.antt =====
-- extract_shebang of src/execve/shebang.c: a first line that was put together is taken apart again.
use neoproot.Base.{
  ℕ, zero, suc, ◌+◌, ◌-◌, ◌<◌, ◌≤◌, ◌≡◌, refl, ap, ◌∙◌, true, false, ◌||◌, List, [], ◌∷◌, ◌++◌,
  ◌==◌, arith, All, length, take, length-append,
}
use mathlib.Core.List.{append_assoc}
use neoproot.Base.Int.{pos}
use neoproot.Shebang.{
  binprm_buf_size, is_blank, is_line_end, skip_blanks, read_path, read_argument, trim, c_string,
  with_argument, bytes, extract_line, extract_shebang,
}

-- A byte of a path, and of an argument.
abbrev pub IsWord : ℕ → Type 0
IsWord c = ((c == 0) ≡ false) × ((is_blank c || is_line_end c) ≡ false)

abbrev pub IsText : ℕ → Type 0
IsText c = ((c == 0) ≡ false) × (is_line_end c ≡ false)

-- The first line, with its end.
abbrev pub line : List ℕ → List ℕ → List ℕ → List ℕ
line blanks path argument = 35 ∷ 33 ∷ (blanks ++ (path ++ (32 ∷ (argument ++ 10 ∷ []))))

c_string-text : (cs : List ℕ) → All IsText cs → c_string cs ≡ cs
c_string-text [] h = refl
c_string-text (c ∷ cs) (h, k) = rw (h.0, c_string-text cs k) refl

c_string-word : (cs : List ℕ) → All IsWord cs → c_string cs ≡ cs
c_string-word [] h = refl
c_string-word (c ∷ cs) (h, k) = rw (h.0, c_string-word cs k) refl

skip_blanks-append :
    (blanks : List ℕ) (c : ℕ) (cs : List ℕ)
    → All (λ b. is_blank b ≡ true) blanks
    → is_blank c ≡ false
    → skip_blanks (blanks ++ c ∷ cs) ≡ c ∷ cs
skip_blanks-append [] c cs h k = rw k refl
skip_blanks-append (b ∷ blanks) c cs (h, hs) k = rw h (skip_blanks-append blanks c cs hs k)

read_path-append :
    (n : ℕ) (path rest : List ℕ)
    → All IsWord path
    → length path < n
    → read_path n (path ++ 32 ∷ rest) ≡ (path, 32 ∷ rest)
read_path-append zero path rest h k = absurd (omega (arith, k))
read_path-append (suc n) [] rest h k = refl
read_path-append (suc n) (c ∷ path) rest (h, hs) k =
    rw (h.1, read_path-append n path rest hs (omega (arith, k))) refl

read_argument-append :
    (n : ℕ) (argument rest : List ℕ)
    → All IsText argument
    → length argument ≤ n
    → read_argument n (argument ++ 10 ∷ rest) ≡ argument
read_argument-append zero [] rest h k = refl
read_argument-append zero (c ∷ cs) rest h k = absurd (omega (arith, k))
read_argument-append (suc n) [] rest h k = refl
read_argument-append (suc n) (c ∷ cs) rest (h, hs) k =
    rw (h.1, read_argument-append n cs rest hs (omega (arith, k))) refl

take-line :
    (n : ℕ) (cs rest : List ℕ)
    → length cs ≤ n
    → take n (cs ++ rest) ≡ cs ++ take (n - length cs) rest
take-line n [] rest h = let all : n - 0 ≡ n = omega arith in rw all refl
take-line zero (c ∷ cs) rest h = absurd (omega (arith, h))
take-line (suc n) (c ∷ cs) rest h =
    let one : suc n - suc (length cs) ≡ n - length cs = omega arith in
    rw one (ap (λ l. c ∷ l) (take-line n cs rest (omega (arith, h))))

spread :
    (blanks path argument rest : List ℕ)
    → (blanks ++ (path ++ (32 ∷ (argument ++ 10 ∷ [])))) ++ rest
      ≡ blanks ++ (path ++ (32 ∷ (argument ++ 10 ∷ rest)))
spread blanks path argument rest =
    rw
      (
        append_assoc blanks (path ++ (32 ∷ (argument ++ 10 ∷ []))) rest,
        append_assoc path (32 ∷ (argument ++ 10 ∷ [])) rest,
        append_assoc argument (10 ∷ []) rest,
      )
      refl

with_argument-text :
    (path : List ℕ) (a : ℕ) (argument rest : List ℕ)
    → All IsWord path
    → All IsText (a ∷ argument)
    → is_blank a ≡ false
    → trim (a ∷ argument) ≡ a ∷ argument
    → length (a ∷ argument) ≤ 255
    → with_argument (path, 32 ∷ ((a ∷ argument) ++ 10 ∷ rest))
      ≡ record { status = pos 1; path = path; argument = a ∷ argument }
with_argument-text path a argument rest words texts black trimmed short =
    rw
      (
        black,
        read_argument-append 255 (a ∷ argument) rest texts short,
        trimmed,
        c_string-word path words,
        c_string-text (a ∷ argument) texts,
      )
      refl

-- Of a first line of at most 256 bytes that names an interpreter and an argument, after any blanks, the
-- path and the argument are found as they were put there. The path has no blank, no end of line and no
-- terminator, and the argument no end of line, no terminator and no blank at either end.
pub extract_shebang-line :
    (blanks : List ℕ) (p : ℕ) (path : List ℕ) (a : ℕ) (argument rest user_path : List ℕ)
    → All (λ b. is_blank b ≡ true) blanks
    → All IsWord (p ∷ path)
    → All IsText (a ∷ argument)
    → is_blank a ≡ false
    → trim (a ∷ argument) ≡ a ∷ argument
    → length (line blanks (p ∷ path) (a ∷ argument)) ≤ binprm_buf_size
    → extract_shebang (bytes (line blanks (p ∷ path) (a ∷ argument) ++ rest)) user_path
      ≡ record { status = pos 1; path = p ∷ path; argument = a ∷ argument }
unfolding extract_shebang
extract_shebang-line blanks p path a argument rest user_path white words texts black trimmed short =
    let first = line blanks (p ∷ path) (a ∷ argument) in
    let r = take (256 - length first) rest in
    let first_black : is_blank p ≡ false = ground (arith, words.0.1) in
    let sizes : length first
        ≡ 2 + (length blanks + (suc (length path) + (1 + (suc (length argument) + 1)))) =
      omega (
        arith,
        length-append blanks ((p ∷ path) ++ (32 ∷ ((a ∷ argument) ++ 10 ∷ []))),
        length-append path (32 ∷ ((a ∷ argument) ++ 10 ∷ [])),
        length-append argument (10 ∷ []),
      ) in
    ap (extract_line user_path) (take-line 256 first rest short)
    ∙ rw
        (
          spread blanks (p ∷ path) (a ∷ argument) r,
          skip_blanks-append blanks p (path ++ (32 ∷ ((a ∷ argument) ++ 10 ∷ r))) white first_black,
        )
        (ap with_argument (
            read_path-append 4095 (p ∷ path) ((a ∷ argument) ++ 10 ∷ r) words
              (omega (arith, sizes, short)))
          ∙ with_argument-text (p ∷ path) a argument r words texts black trimmed
              (omega (arith, sizes, short)))
