-- ===== src/Lexer/LongString.antt =====
-- src/lexer.rs: `read_long_string` on a string that is closed.
use luster.Prelude.{
  ℕ, zero, suc, ◌+◌, ◌<◌, ◌≤◌, ◌≡◌, refl, sym, ap, ap₂, ◌∙◌, true, false, not, ◌&&◌, List, [], ◌∷◌,
  ◌++◌, has, length, ◌==◌, ltb, if◌then◌else◌, arith, Bool-cases, inl, inr,
}
use mathlib.Core.List.{append_assoc, append-nil}
use luster.Lexer.Reading.{Lexer, ok}
use luster.Lexer.{
  is_newline, max_i32, read_newline, read_line_end, skip_separators, separators, long_string,
  read_long_string,
}

abbrev pub lexer : List ℕ → List ℕ → ℕ → Lexer
lexer source buffer line = record { source = source; string_buffer = buffer; line_number = line }

skip_separators-separators :
    (fuel n k : ℕ) (d : ℕ) (rest buffer : List ℕ) (line : ℕ)
    → n < fuel
    → k + n ≤ max_i32
    → (d == b'=') ≡ false
    → skip_separators fuel k (lexer (separators n ++ d ∷ rest) buffer line)
      ≡ ok (k + n) (lexer (d ∷ rest) buffer line)
unfolding skip_separators
skip_separators-separators zero n k d rest buffer line lt fits h = ground (arith, lt)
skip_separators-separators (suc fuel) zero k d rest buffer line lt fits h = ground arith
skip_separators-separators (suc fuel) (suc n) k d rest buffer line lt fits h =
    let below : ltb k max_i32 ≡ true = ground (arith, fits) in
    rw below (
      skip_separators-separators fuel n (k + 1) d rest buffer line (omega (arith, lt))
        (omega (arith, fits)) h
      ∙ ap (λ i. ok i (lexer (d ∷ rest) buffer line)) (omega arith))

-- The line ends of a text, where two different newline characters in a row are one.
unfoldable pub line_ends : List ℕ → ℕ
line_ends [] = 0
line_ends (c ∷ []) = if is_newline c then 1 else 0
line_ends (c ∷ d ∷ ds) =
    if is_newline c
    then (if is_newline d && not (d == c) then 1 + line_ends ds else 1 + line_ends (d ∷ ds))
    else line_ends (d ∷ ds)

-- A line end inside a long string: the characters that are taken go to the buffer.
pub record Ended (c : ℕ) (cs rest buffer : List ℕ) (line : ℕ) : Type 0 where
  pub taken : List ℕ
  pub left : List ℕ
  pub parts : c ∷ cs ≡ taken ++ left
  pub shorter : length left ≤ length cs
  pub unclosed : has b']' left ≡ false
  pub counted : line_ends (c ∷ cs) ≡ 1 + line_ends left
  pub run :
      read_line_end true (lexer (c ∷ cs ++ b']' ∷ rest) buffer line)
      ≡ ok tt (lexer (left ++ b']' ∷ rest) (buffer ++ taken) (line + 1))

read_line_end-Ended :
    (c : ℕ) (cs rest buffer : List ℕ) (line : ℕ)
    → is_newline c ≡ true
    → has b']' (c ∷ cs) ≡ false
    → Ended c cs rest buffer line
unfolding read_line_end read_newline line_ends
read_line_end-Ended c [] rest buffer line h k = record {
  taken = c ∷ [];
  left = [];
  parts = refl;
  shorter = omega arith;
  unclosed = refl;
  counted = ground arith;
  run = ground arith;
}
read_line_end-Ended c (d ∷ ds) rest buffer line h k =
    elim (Bool-cases (is_newline d && not (d == c))) [
      | inl both ↦ record {
        taken = c ∷ d ∷ [];
        left = ds;
        parts = refl;
        shorter = omega arith;
        unclosed = ground arith;
        counted = ground arith;
        run = ground (arith, append_assoc buffer (c ∷ []) (d ∷ []));
      }
      | inr one ↦ record {
        taken = c ∷ [];
        left = d ∷ ds;
        parts = refl;
        shorter = omega arith;
        unclosed = ground arith;
        counted = ground arith;
        run = ground arith;
      }
    ]

plain-line_ends : (c : ℕ) (cs : List ℕ) → is_newline c ≡ false → line_ends (c ∷ cs) ≡ line_ends cs
unfolding line_ends
plain-line_ends c [] h = ground arith
plain-line_ends c (d ∷ ds) h = ground arith

-- A text without the closing bracket, and what closes it.
abbrev pub closed : List ℕ → ℕ → List ℕ → List ℕ
closed body n tail = body ++ b']' ∷ (separators n ++ b']' ∷ tail)

long_string-plain :
    (fuel n c : ℕ) (rest buffer : List ℕ) (line : ℕ)
    → is_newline c ≡ false
    → (c == b']') ≡ false
    → long_string (suc fuel) true n (lexer (c ∷ rest) buffer line)
      ≡ long_string fuel true n (lexer rest (buffer ++ c ∷ []) line)
unfolding long_string
long_string-plain fuel n c rest buffer line h k = rw (h, k) refl

long_string-newline :
    (fuel n c : ℕ) (rest rest' buffer buffer' : List ℕ) (line line' : ℕ)
    → is_newline c ≡ true
    → read_line_end true (lexer (c ∷ rest) buffer line) ≡ ok tt (lexer rest' buffer' line')
    → long_string (suc fuel) true n (lexer (c ∷ rest) buffer line)
      ≡ long_string fuel true n (lexer rest' buffer' line')
unfolding long_string
long_string-newline fuel n c rest rest' buffer buffer' line line' h k = ground (arith, k)

long_string-end :
    (fuel n : ℕ) (tail buffer : List ℕ) (line : ℕ)
    → n < fuel
    → n ≤ max_i32
    → long_string (suc fuel) true n (lexer (closed [] n tail) buffer line)
      ≡ ok tt (lexer tail buffer line)
unfolding long_string
long_string-end fuel n tail buffer line lt fits =
    ground (
      arith,
      skip_separators-separators fuel n 0 b']' tail buffer line lt (omega (arith, fits)) refl,
    )

no_line_ends : (line : ℕ) → line + line_ends [] ≡ line
unfolding line_ends
no_line_ends line = omega arith

-- A closed long string is read to its end: the buffer has the text, and the line ends are counted.
long_string-closed :
    (fuel n : ℕ) (body tail buffer : List ℕ) (line : ℕ)
    → has b']' body ≡ false
    → length body + n < fuel
    → n ≤ max_i32
    → long_string (suc fuel) true n (lexer (closed body n tail) buffer line)
      ≡ ok tt (lexer tail (buffer ++ body) (line + line_ends body))
long_string-closed fuel n [] tail buffer line h lt fits =
    rw (append-nil buffer, no_line_ends line)
      (long_string-end fuel n tail buffer line (omega (arith, lt)) fits)
long_string-closed zero n (c ∷ cs) tail buffer line h lt fits = ground (arith, lt)
long_string-closed (suc fuel) n (c ∷ cs) tail buffer line h lt fits =
    elim (Bool-cases (is_newline c)) [
      | inl newline ↦
          let e = read_line_end-Ended c cs (separators n ++ b']' ∷ tail) buffer line newline h in
          long_string-newline (suc fuel) n c _ _ _ _ _ _ newline e.run
          ∙ long_string-closed fuel n e.left tail (buffer ++ e.taken) (line + 1) e.unclosed
              (omega (arith, e.shorter, lt)) fits
          ∙ ap₂ (λ b l. ok tt (lexer tail b l))
              (append_assoc buffer e.taken e.left ∙ ap (λ b. buffer ++ b) (sym e.parts))
              (omega (arith, e.counted))
      | inr plain ↦
          long_string-plain (suc fuel) n c _ buffer line plain (ground arith)
          ∙ long_string-closed fuel n cs tail (buffer ++ c ∷ []) line (ground arith)
              (omega (arith, lt)) fits
          ∙ ap₂ (λ b l. ok tt (lexer tail b l)) (append_assoc buffer (c ∷ []) cs)
              (omega (arith, plain-line_ends c cs plain))
    ]

-- A long string of any level below 2 ^ 31 whose text has no closing bracket is read to its end,
-- with fuel above the length of the text and the level: the buffer holds the text as it is, the
-- line ends in it are counted, where two different newline characters in a row are one, and what
-- follows is left.
pub read_long_string-closed :
    (fuel n : ℕ) (body tail buffer : List ℕ) (line : ℕ)
    → has b']' body ≡ false
    → length body + n < fuel
    → n ≤ max_i32
    → read_long_string
        (suc fuel)
        true
        (lexer (b'[' ∷ (separators n ++ b'[' ∷ closed body n tail)) buffer line)
      ≡ ok tt (lexer tail body (line + line_ends body))
unfolding read_long_string
read_long_string-closed fuel n body tail buffer line h lt fits =
    let level : 0 + n ≡ n = omega arith in
    rw
      (
        skip_separators-separators (suc fuel) n 0 b'[' (closed body n tail) [] line
            (omega (arith, lt)) (omega (arith, fits)) refl,
        level,
      )
      (long_string-closed fuel n body tail [] line h lt fits)
