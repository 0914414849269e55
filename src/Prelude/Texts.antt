-- ===== src/Prelude/Texts.antt =====
-- The string methods that the program calls, on code points.
use Prim.Native.Nat.{ℕ, ◌+◌}
use mathlib.Core.Bool.{Bool, true, false, ◌&&◌, ◌||◌}
use mathlib.Core.List.{List, [], ◌∷◌, reverse, map}
use china_a_share.Prelude.Tests.{leb, nat_beq, if◌then◌else◌}
use china_a_share.Prelude.Keys.{Text}

-- The code points that `str.isspace` accepts.
unfoldable pub is_space : ℕ → Bool
is_space c =
    (leb 9 c && leb c 13)
    || (leb 28 c && leb c 32)
    || nat_beq c 0x85
    || nat_beq c 0xa0
    || nat_beq c 0x1680
    || (leb 0x2000 c && leb c 0x200a)
    || nat_beq c 0x2028
    || nat_beq c 0x2029
    || nat_beq c 0x202f
    || nat_beq c 0x205f
    || nat_beq c 0x3000

unfoldable pub drop_while : (ℕ → Bool) → Text → Text
drop_while p [] = []
drop_while p (c ∷ s) = let rest = drop_while p s in if p c then rest else c ∷ s

-- `s.strip()`
unfoldable pub strip : Text → Text
unfolding is_space drop_while
strip s = reverse (drop_while is_space (reverse (drop_while is_space s)))

-- `s.rstrip(c)`
unfoldable pub rstrip : ℕ → Text → Text
unfolding drop_while
rstrip c s = reverse (drop_while (nat_beq c) (reverse s))

-- `s.lower()` of the ASCII letters; a code point outside ASCII is left as it is.
unfoldable pub lower : Text → Text
lower = map (λ c. if leb b'A' c && leb c b'Z' then c + 32 else c)

-- One more character in front of the parts of a split.
unfoldable pub push_char : Bool → ℕ → List Text → List Text
push_char true a parts = [] ∷ parts
push_char false a [] = (a ∷ []) ∷ []
push_char false a (p ∷ parts) = (a ∷ p) ∷ parts

-- `s.split(c)`
unfoldable pub split_on : ℕ → Text → List Text
unfolding push_char
split_on c [] = [] ∷ []
split_on c (a ∷ s) = push_char (nat_beq a c) a (split_on c s)

-- `s.replace(c, "")`
unfoldable pub delete_char : ℕ → Text → Text
delete_char c [] = []
delete_char c (a ∷ s) = let rest = delete_char c s in if nat_beq a c then rest else a ∷ rest

unfoldable pub starts_with : Text → Text → Bool
starts_with [] s = true
starts_with (p ∷ ps) [] = false
starts_with (p ∷ ps) (c ∷ s) = nat_beq p c && starts_with ps s

-- `p in s`
unfoldable pub contains : Text → Text → Bool
unfolding starts_with
contains p [] = starts_with p []
contains p (c ∷ s) = starts_with p (c ∷ s) || contains p s
