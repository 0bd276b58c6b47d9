-- ===== src/Prelude/Text.antt =====
-- Byte texts, their characters, and the functions of package strings that the program calls: those on
-- letter case and Fields over ASCII, TrimSpace over UTF-8.
use Prim.Native.Nat.{ℕ, zero, suc, ◌+◌, ◌-◌, ◌*◌}
use Prim.Native.Char.{code}
use Prim.Native.String.{String}
use mathlib.Core.Path.{◌≡◌, refl}
use mathlib.Core.Logic.{◌↔◌}
use mathlib.Core.Bool.{Bool, true, false, ◌&&◌, ◌||◌}
use mathlib.Core.List.{List, [], ◌∷◌, map}
use native.Mathlib.Omega.{arith}
use lazyswap.Prelude.Tests.{and_split, leb, ltb, ◌==◌, if◌then◌else◌}
use lazyswap.Prelude.Lists.{all, null}

abbrev pub Bytes : Type 0
Bytes = List ℕ

abbrev pub codes : String → Bytes
codes String.[] = []
codes (String.◌∷◌ c s) = code c ∷ codes s

-- `a == b` on strings
unfoldable pub text_eq : Bytes → Bytes → Bool
text_eq [] [] = true
text_eq (a ∷ s) (b ∷ t) = a == b && text_eq s t
text_eq _ _ = false

pub text_eq_iff : (s t : Bytes) → (text_eq s t ≡ true) ↔ (s ≡ t)
unfolding text_eq
text_eq_iff [] [] = ((λ h. refl), (λ h. refl))
text_eq_iff [] (b ∷ t) = ground arith
text_eq_iff (a ∷ s) [] = ground arith
text_eq_iff (a ∷ s) (b ∷ t) = ground (arith, text_eq_iff s t)

pub text_eq_refl : (s : Bytes) → text_eq s s ≡ true
text_eq_refl s = (text_eq_iff s s).1 refl

abbrev pub upper_byte : ℕ → ℕ
upper_byte c = if leb b'a' c && leb c b'z' then c - 32 else c

abbrev pub lower_byte : ℕ → ℕ
lower_byte c = if leb b'A' c && leb c b'Z' then c + 32 else c

-- strings.ToUpper, strings.ToLower
unfoldable pub to_upper : Bytes → Bytes
to_upper s = map upper_byte s

unfoldable pub to_lower : Bytes → Bytes
to_lower s = map lower_byte s

-- strings.EqualFold
unfoldable pub equal_fold : Bytes → Bytes → Bool
unfolding to_lower text_eq
equal_fold s t = text_eq (to_lower s) (to_lower t)

-- tab, newline, vertical tab, form feed, carriage return, space
abbrev pub is_space : ℕ → Bool
is_space c = leb 9 c && leb c 13 || c == 32

unfoldable pub trim_left : (ℕ → Bool) → Bytes → Bytes
trim_left p [] = []
trim_left p (c ∷ s) = if p c then trim_left p s else c ∷ s

unfoldable pub trim_right : (ℕ → Bool) → Bytes → Bytes
trim_right p [] = []
trim_right p (c ∷ s) = let r = trim_right p s in if p c && null r then [] else c ∷ r

-- the bytes of UTF-8 that encode a character of Unicode's White_Space, if it takes three of them
abbrev is_wide_space : ℕ → ℕ → ℕ → Bool
is_wide_space a b c =
    a == 225 && b == 154 && c == 128
    || a == 226 && b == 128 && (leb 128 c && leb c 138 || c == 168 || c == 169 || c == 175)
    || a == 226 && b == 129 && c == 159
    || a == 227 && b == 128 && c == 128

abbrev is_latin_space : ℕ → ℕ → Bool
is_latin_space a b = a == 194 && (b == 133 || b == 160)

abbrev wide_space_width : ℕ → Bytes → ℕ
wide_space_width a [] = 0
wide_space_width a (b ∷ []) = if is_latin_space a b then 2 else 0
wide_space_width a (b ∷ c ∷ s) =
    if is_latin_space a b then 2 else if is_wide_space a b c then 3 else 0

-- how many bytes the character takes that a text starts with, where it is white space; else 0
unfoldable pub space_width : Bytes → ℕ
space_width [] = 0
space_width (a ∷ s) = if is_space a then 1 else wide_space_width a s

-- strings.TrimLeftFunc(s, unicode.IsSpace), behind `k` bytes of a character that goes
unfoldable pub trim_space_left : (k : ℕ) → Bytes → Bytes
unfolding space_width
trim_space_left k [] = []
trim_space_left zero (c ∷ s) =
    let w = space_width (c ∷ s) in
    let rest = trim_space_left (w - 1) s in if w == 0 then c ∷ s else rest
trim_space_left (suc k) (c ∷ s) = trim_space_left k s

-- strings.TrimRightFunc(s, unicode.IsSpace): the text ends where only white space follows
unfoldable pub trim_space_right : Bytes → Bytes
unfolding trim_space_left
trim_space_right [] = []
trim_space_right (c ∷ s) =
    let rest = trim_space_right s in if null (trim_space_left 0 (c ∷ s)) then [] else c ∷ rest

-- strings.TrimSpace
unfoldable pub trim_space : Bytes → Bytes
unfolding trim_space_left trim_space_right
trim_space s = trim_space_right (trim_space_left 0 s)

-- a byte of ASCII that is printed and is not a space
abbrev pub is_graphic : ℕ → Bool
is_graphic c = leb 33 c && leb c 126

graphic_width : (c : ℕ) (s : Bytes) → is_graphic c ≡ true → space_width (c ∷ s) ≡ 0
unfolding space_width
graphic_width c [] h = ground arith
graphic_width c (b ∷ []) h = ground arith
graphic_width c (b ∷ d ∷ s) h = ground arith

graphic_left : (c : ℕ) (s : Bytes) → is_graphic c ≡ true → trim_space_left 0 (c ∷ s) ≡ c ∷ s
unfolding trim_space_left
graphic_left c s h = rw (graphic_width c s h) refl

graphic_right : (s : Bytes) → all is_graphic s ≡ true → trim_space_right s ≡ s
unfolding trim_space_right
graphic_right [] h = refl
graphic_right (c ∷ s) h =
    let (first, others) = and_split (is_graphic c) (all is_graphic s) h in
    rw (graphic_right s others, graphic_left c s first) refl

-- TrimSpace leaves a text without white space as it is.
pub trim_space-graphic : (s : Bytes) → all is_graphic s ≡ true → trim_space s ≡ s
unfolding trim_space
trim_space-graphic [] h = refl
trim_space-graphic (c ∷ s) h =
    rw (graphic_left c s (and_split (is_graphic c) (all is_graphic s) h).0)
      (graphic_right (c ∷ s) h)

-- one byte of UTF-8 that is not the first of a character
abbrev is_tail : ℕ → Bool
is_tail c = leb 128 c && leb c 191

-- the rest of a character of three and of four bytes: the second byte has bounds of its own
abbrev is_second_of_three : ℕ → ℕ → Bool
is_second_of_three a b =
    if a == 224
    then leb 160 b && leb b 191
    else if a == 237
    then leb 128 b && leb b 159
    else is_tail b

abbrev is_second_of_four : ℕ → ℕ → Bool
is_second_of_four a b =
    if a == 240
    then leb 144 b && leb b 191
    else if a == 244
    then leb 128 b && leb b 143
    else is_tail b

abbrev two_bytes : ℕ → Bytes → ℕ × ℕ
two_bytes a (b ∷ s) = if is_tail b then ((a - 192) * 64 + (b - 128), 2) else (65533, 1)
two_bytes a [] = (65533, 1)

abbrev three_bytes : ℕ → Bytes → ℕ × ℕ
three_bytes a (b ∷ c ∷ s) =
    if is_second_of_three a b && is_tail c
    then ((a - 224) * 4096 + (b - 128) * 64 + (c - 128), 3)
    else (65533, 1)
three_bytes a _ = (65533, 1)

abbrev four_bytes : ℕ → Bytes → ℕ × ℕ
four_bytes a (b ∷ c ∷ d ∷ s) =
    if is_second_of_four a b && is_tail c && is_tail d
    then ((a - 240) * 262144 + (b - 128) * 4096 + (c - 128) * 64 + (d - 128), 4)
    else (65533, 1)
four_bytes a _ = (65533, 1)

-- utf8.DecodeRuneInString: the code of the first character, and how many bytes it takes; what is
-- not UTF-8 is U+FFFD of one byte
unfoldable pub decode_rune : ℕ → Bytes → ℕ × ℕ
decode_rune a s =
    if ltb a 128
    then (a, 1)
    else if leb 194 a && leb a 223
    then two_bytes a s
    else if leb 224 a && leb a 239
    then three_bytes a s
    else if leb 240 a && leb a 244
    then four_bytes a s
    else (65533, 1)

-- the characters that `for _, r := range s` visits, behind `k` bytes of one before
unfoldable pub runes : (k : ℕ) → Bytes → List ℕ
unfolding decode_rune
runes k [] = []
runes zero (c ∷ s) = let (r, w) = decode_rune c s in r ∷ runes (w - 1) s
runes (suc k) (c ∷ s) = runes k s

abbrev prepend : ℕ → List Bytes → List Bytes
prepend c [] = (c ∷ []) ∷ []
prepend c (w ∷ ws) = (c ∷ w) ∷ ws

-- strings.Fields
unfoldable pub fields : Bytes → List Bytes
fields [] = []
fields (c ∷ []) = if is_space c then [] else (c ∷ []) ∷ []
fields (c ∷ d ∷ s) =
    let rest = fields (d ∷ s) in
    if is_space c then rest else if is_space d then (c ∷ []) ∷ rest else prepend c rest
