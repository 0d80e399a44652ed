-- ===== src/Text.antt =====
-- The functions of package strings that the source uses, over the bytes of ASCII text.
pub mod Laws
use clixor_backend.Prelude.{
  ℕ, zero, suc, ◌+◌, List, [], ◌∷◌, ◌++◌, Bool, true, false, ◌&&◌, ◌||◌, leb, ltb, nat_beq,
  if◌then◌else◌,
}
use mathlib.Core.List.{reverse}

-- unicode.IsSpace on ASCII: tab, line feed, vertical tab, form feed, carriage return, space.
unfoldable pub is_space : ℕ → Bool
is_space c = nat_beq c 32 || (leb 9 c && leb c 13)

unfoldable pub trim_left : List ℕ → List ℕ
trim_left [] = []
trim_left (c ∷ cs) = let rest = trim_left cs in if is_space c then rest else c ∷ cs

-- strings.TrimSpace
unfoldable pub trim_space : List ℕ → List ℕ
trim_space cs = reverse (trim_left (reverse (trim_left cs)))

unfoldable pub lower : ℕ → ℕ
lower c = if leb b'A' c && leb c b'Z' then c + 32 else c

-- strings.ToLower
unfoldable pub to_lower : List ℕ → List ℕ
to_lower [] = []
to_lower (c ∷ cs) = lower c ∷ to_lower cs

-- strings.HasPrefix(cs, prefix)
unfoldable pub has_prefix : List ℕ → List ℕ → Bool
has_prefix cs [] = true
has_prefix [] (p ∷ ps) = false
has_prefix (c ∷ cs) (p ∷ ps) = nat_beq c p && has_prefix cs ps

-- cs[len(prefix):] where the prefix was found.
unfoldable pub after_prefix : List ℕ → List ℕ → List ℕ
after_prefix cs [] = cs
after_prefix [] (p ∷ ps) = []
after_prefix (c ∷ cs) (p ∷ ps) = after_prefix cs ps

-- strings.TrimPrefix
unfoldable pub trim_prefix : List ℕ → List ℕ → List ℕ
unfolding after_prefix
trim_prefix cs prefix = if has_prefix cs prefix then after_prefix cs prefix else cs

-- cs < ds
unfoldable pub text_ltb : List ℕ → List ℕ → Bool
text_ltb cs [] = false
text_ltb [] (d ∷ ds) = true
text_ltb (c ∷ cs) (d ∷ ds) = ltb c d || (nat_beq c d && text_ltb cs ds)

-- A byte that continues a character, with its least and greatest value.
abbrev pub in_range : ℕ → ℕ → ℕ → Bool
in_range lo hi c = leb lo c && leb c hi

-- The bytes that follow a leading byte: the range of the first, and how many follow that one.
unfoldable pub continued : ℕ → ℕ → ℕ → List ℕ → Bool
continued lo hi n [] = false
continued lo hi zero (c ∷ cs) = in_range lo hi c
continued lo hi (suc n) (c ∷ cs) = in_range lo hi c && continued 128 191 n cs

-- The character at the head is well formed.
unfoldable pub valid_head : ℕ → List ℕ → Bool
valid_head c cs =
    leb c 127
    || (in_range 194 223 c && continued 128 191 0 cs)
    || (nat_beq c 224 && continued 160 191 1 cs)
    || ((in_range 225 236 c || in_range 238 239 c) && continued 128 191 1 cs)
    || (nat_beq c 237 && continued 128 159 1 cs)
    || (nat_beq c 240 && continued 144 191 2 cs)
    || (in_range 241 243 c && continued 128 191 2 cs)
    || (nat_beq c 244 && continued 128 143 2 cs)

-- How many bytes after a leading byte belong to its character.
abbrev pub tail_length : ℕ → ℕ
tail_length c = if leb c 127 then 0 else if leb c 223 then 1 else if leb c 239 then 2 else 3

-- utf8.ValidString: `skip` bytes belong to the character before.
unfoldable pub valid_utf8_from : ℕ → List ℕ → Bool
unfolding valid_head
valid_utf8_from skip [] = true
valid_utf8_from zero (c ∷ cs) = valid_head c cs && valid_utf8_from (tail_length c) cs
valid_utf8_from (suc skip) (c ∷ cs) = valid_utf8_from skip cs

unfoldable pub valid_utf8 : List ℕ → Bool
valid_utf8 cs = valid_utf8_from 0 cs
