-- ===== src/Prelude/Bytes.antt =====
-- Byte strings: std::string and the C string functions that the program calls on it.
-- A text is the list of its bytes. An array of char is the list of the bytes written to it, and
-- every byte behind the list is NUL, as the structs of the protocol initialise their arrays.
use Prim.Native.Nat.{ℕ, zero, suc, ◌<◌}
use Prim.Native.Char.{code}
use Prim.Native.String.{String}
use mathlib.Core.Path.{◌≡◌, refl}
use mathlib.Core.Logic.{◌↔◌, ◌≢◌}
use mathlib.Core.Bool.{Bool, true, false, ◌&&◌, ◌||◌}
use mathlib.Core.List.{List, [], ◌∷◌, ◌++◌}
use native.Mathlib.Omega.{arith}
use distributed_server_clien.Prelude.Tests.{ltb, ◌==◌, if◌then◌else◌}
use distributed_server_clien.Prelude.Lists.{replicate}

abbrev pub Bytes : Type 0
Bytes = List ℕ

-- The bytes of an ASCII literal.
abbrev pub codes : String → Bytes
codes String.[] = []
codes (String.◌∷◌ c s) = code c ∷ codes s

-- `std::string(p)`: the bytes in front of the first NUL.
unfoldable pub c_str : Bytes → Bytes
c_str [] = []
c_str (b ∷ bs) = if b == 0 then [] else b ∷ c_str bs

-- `operator==` of two strings.
unfoldable pub str_eq : Bytes → Bytes → Bool
str_eq [] [] = true
str_eq [] (b ∷ bs) = false
str_eq (a ∷ as') [] = false
str_eq (a ∷ as') (b ∷ bs) = a == b && str_eq as' bs

-- `operator<` of two strings, the order of std::set<std::string>.
unfoldable pub str_lt : Bytes → Bytes → Bool
str_lt as' [] = false
str_lt [] (b ∷ bs) = true
str_lt (a ∷ as') (b ∷ bs) = ltb a b || (a == b && str_lt as' bs)

unfoldable pub starts_with : Bytes → Bytes → Bool
starts_with [] s = true
starts_with (p ∷ ps) [] = false
starts_with (p ∷ ps) (c ∷ cs) = p == c && starts_with ps cs

-- `s.find(pattern) != string::npos`.
unfoldable pub contains : Bytes → Bytes → Bool
unfolding starts_with
contains pattern [] = starts_with pattern []
contains pattern (c ∷ cs) = starts_with pattern (c ∷ cs) || contains pattern cs

-- No byte is NUL, so the text is its own C string.
abbrev pub NoNul : Bytes → Type 0
NoNul [] = Unit {0}
NoNul (b ∷ bs) = (0 < b) × NoNul bs

pub c_str-append : (s : Bytes) (n : ℕ) → NoNul s → c_str (s ++ replicate n 0) ≡ s
unfolding c_str
c_str-append [] zero h = refl
c_str-append [] (suc n) h = refl
c_str-append (b ∷ s) n h = ground (arith, c_str-append s n h.1)

pub c_str_of_NoNul : (s : Bytes) → NoNul s → c_str s ≡ s
unfolding c_str
c_str_of_NoNul [] h = refl
c_str_of_NoNul (b ∷ s) h = ground (arith, c_str_of_NoNul s h.1)

pub c_str-NoNul : (s : Bytes) → NoNul (c_str s)
unfolding c_str
c_str-NoNul [] = tt
c_str-NoNul (b ∷ s) = ground (arith, c_str-NoNul s)

pub str_eq_iff : (a b : Bytes) → (str_eq a b ≡ true) ↔ (a ≡ b)
unfolding str_eq
str_eq_iff [] [] = ground arith
str_eq_iff [] (b ∷ bs) = ground arith
str_eq_iff (a ∷ as') [] = ground arith
str_eq_iff (a ∷ as') (b ∷ bs) = ground (arith, str_eq_iff as' bs)

pub str_eq_refl : (a : Bytes) → str_eq a a ≡ true
str_eq_refl a = (str_eq_iff a a).1 refl

pub str_eq_ne : (a b : Bytes) → a ≢ b → str_eq a b ≡ false
str_eq_ne a b h = ground (arith, str_eq_iff a b)

pub str_lt_irrefl : (a : Bytes) → str_lt a a ≡ false
unfolding str_lt
str_lt_irrefl [] = refl
str_lt_irrefl (a ∷ s) = ground (arith, str_lt_irrefl s)

pub str_lt_trans : (a b c : Bytes) → str_lt a b ≡ true → str_lt b c ≡ true → str_lt a c ≡ true
unfolding str_lt
str_lt_trans [] [] c h k = ground arith
str_lt_trans [] (b ∷ bs) [] h k = ground arith
str_lt_trans [] (b ∷ bs) (c ∷ cs) h k = refl
str_lt_trans (a ∷ s) [] c h k = ground arith
str_lt_trans (a ∷ s) (b ∷ bs) [] h k = ground arith
str_lt_trans (a ∷ s) (b ∷ bs) (c ∷ cs) h k = ground (arith, str_lt_trans s bs cs)

-- Of two different texts one comes first.
pub str_lt_total : (a b : Bytes) → str_lt a b ≡ false → str_lt b a ≡ false → a ≡ b
unfolding str_lt
str_lt_total [] [] h k = refl
str_lt_total [] (b ∷ bs) h k = ground arith
str_lt_total (a ∷ s) [] h k = ground arith
str_lt_total (a ∷ s) (b ∷ bs) h k = ground (arith, str_lt_total s bs)
