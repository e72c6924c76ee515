-- ===== src/LuaString.antt =====
-- src/string.rs: the representations of a Lua string, its bytes, and comparison. A `Gc` pointer to
-- a buffer is the buffer, since strings are compared by their bytes.
use luster.Prelude.{
  ℕ, zero, suc, ◌-◌, ◌%◌, Bool, true, false, ◌&&◌, List, [], ◌∷◌, ◌++◌, length, take, replicate,
  ltb, leb, ◌==◌, if◌then◌else◌,
}
pub mod Laws

pub data LuaString : Type 0 where
  -- a length and a buffer of 8 bytes, or of 32
  short8 : ℕ → List ℕ → LuaString
  short32 : ℕ → List ℕ → LuaString
  long : List ℕ → LuaString
  static : List ℕ → LuaString

-- `let mut b = [0; n]; b[..len].copy_from_slice(s);` for a slice of at most `n` bytes.
unfoldable pub padded : ℕ → List ℕ → List ℕ
padded n s = s ++ replicate (n - length s) 0

unfoldable pub new : List ℕ → LuaString
unfolding padded
new s =
    let len = length s in
    if leb len 8
    then short8 (len % 256) (padded 8 s)
    else if leb len 32
    then short32 (len % 256) (padded 32 s)
    else long s

unfoldable pub as_bytes : LuaString → List ℕ
as_bytes (short8 l b) = take l b
as_bytes (short32 l b) = take l b
as_bytes (long b) = b
as_bytes (static b) = b

-- `==` and `<` on byte slices.
unfoldable pub bytes_eq : List ℕ → List ℕ → Bool
bytes_eq [] [] = true
bytes_eq [] (y ∷ ys) = false
bytes_eq (x ∷ xs) [] = false
bytes_eq (x ∷ xs) (y ∷ ys) = x == y && bytes_eq xs ys

unfoldable pub bytes_lt : List ℕ → List ℕ → Bool
bytes_lt [] [] = false
bytes_lt [] (y ∷ ys) = true
bytes_lt (x ∷ xs) [] = false
bytes_lt (x ∷ xs) (y ∷ ys) = let rest = bytes_lt xs ys in if x == y then rest else ltb x y

unfoldable pub bytes_le : List ℕ → List ℕ → Bool
bytes_le [] ys = true
bytes_le (x ∷ xs) [] = false
bytes_le (x ∷ xs) (y ∷ ys) = let rest = bytes_le xs ys in if x == y then rest else ltb x y

unfoldable pub eq : LuaString → LuaString → Bool
unfolding bytes_eq as_bytes
eq s t = bytes_eq (as_bytes s) (as_bytes t)
