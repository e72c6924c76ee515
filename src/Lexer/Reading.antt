-- ===== src/Lexer/Reading.antt =====
-- src/lexer.rs: the state of the lexer, `peek` and `advance`, and what a method comes to. The source is
-- the bytes that are left: what has been peeked at is not apart from what has not been read, and a
-- read does not fail.
use luster.Prelude.{
  ℕ, zero, suc, Bool, true, false, Option, none, some, List, [], ◌∷◌, ◌++◌, if◌then◌else◌, ◌==◌,
}

pub data LexerError : Type 0 where
  unfinished_short_string unexpected_character : ℕ → LexerError
  hex_digit_expected escape_unicode_start escape_unicode_end escape_unicode_invalid : LexerError
  escape_decimal_too_large invalid_escape invalid_long_string_delimiter : LexerError
  unfinished_long_string bad_number : LexerError

pub record Lexer : Type 0 where
  pub source : List ℕ
  pub string_buffer : List ℕ
  pub line_number : ℕ

-- A value, an error, a panic, or too little fuel; an error leaves the lexer too.
pub data Read (A : Type 0) : Type 0 where
  ok : A → Lexer → Read A
  err : LexerError → Lexer → Read A
  panicked out_of_fuel : Read A

-- A method of the lexer.
abbrev pub Method : Type 0 → Type 0
Method A = Lexer → Read A

abbrev pub and_then : {A B : Type 0} → Read A → (A → Method B) → Read B
and_then (ok a s) f = f a s
and_then (err e s) f = err e s
and_then panicked f = panicked
and_then out_of_fuel f = out_of_fuel

infixl 5 ◌>>=◌ ◌>>◌
abbrev pub ◌>>=◌ : {A B : Type 0} → Method A → (A → Method B) → Method B
(m >>= f) s = and_then (m s) f

abbrev pub ◌>>◌ : {A B : Type 0} → Method A → Method B → Method B
m >> k = m >>= λ _. k

abbrev pub pure : {A : Type 0} → A → Method A
pure a s = ok a s

abbrev pub fail : {A : Type 0} → LexerError → Method A
fail e s = err e s

abbrev pub exhausted : {A : Type 0} → Method A
exhausted s = out_of_fuel

abbrev pub at : List ℕ → ℕ → Option ℕ
at [] n = none
at (c ∷ cs) zero = some c
at (c ∷ cs) (suc n) = at cs n

-- `peek(n)?`
abbrev pub peek : ℕ → Method (Option ℕ)
peek n s = ok (at s.source n) s

-- `peek(0).unwrap().unwrap()`
abbrev pub peek_some : Method ℕ
peek_some = do c ← peek 0; elim c [ none ↦ λ s. panicked | some c ↦ pure c ]

-- `drain(0..n)` of characters that are there.
abbrev pub remove : ℕ → List ℕ → Option (List ℕ)
remove zero cs = some cs
remove (suc n) [] = none
remove (suc n) (c ∷ cs) = remove n cs

abbrev pub moved : Lexer → Option (List ℕ) → Read (Unit {0})
moved s none = panicked
moved s (some cs) = ok tt (record s { source = cs })

abbrev pub advance : ℕ → Method (Unit {0})
advance n s = moved s (remove n s.source)

abbrev pub assert : Bool → Method (Unit {0})
assert true s = ok tt s
assert false s = panicked

-- `string_buffer.push`
abbrev pub push : ℕ → Method (Unit {0})
push c s = ok tt (record s { string_buffer = s.string_buffer ++ c ∷ [] })

abbrev pub push_all : List ℕ → Method (Unit {0})
push_all cs s = ok tt (record s { string_buffer = s.string_buffer ++ cs })

abbrev pub clear : Method (Unit {0})
clear s = ok tt (record s { string_buffer = [] })

-- `if into_string`
abbrev pub when : Bool → Method (Unit {0}) → Method (Unit {0})
when b m s = if b then m s else ok tt s

-- `reset`
abbrev pub reset : Lexer → Lexer
reset s = record s { source = []; string_buffer = [] }

-- `peek(n)? == Some(c)`
abbrev pub is_at : Option ℕ → ℕ → Bool
is_at none c = false
is_at (some d) c = d == c
