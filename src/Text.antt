-- ===== src/Text.antt =====
-- Python text by its code points, where the program builds or takes apart a text: f-strings,
-- `str` of an int, `int` of a text, `str.split(":")`, `"|".join`, `sorted` of texts.
pub mod Decimal
pub mod Split
pub mod Sorting
use Prim.Native.Char.{code}
use matchmaker_platform.Prelude.{
  ℕ, zero, suc, ◌+◌, ◌-◌, ◌*◌, ◌/◌, ◌%◌, String, Bool, true, false, ◌&&◌, Option, none, some, List,
  [], ◌∷◌, ◌++◌, ltb, leb, ◌==◌, if◌then◌else◌,
}

abbrev pub Text : Type 0
Text = List ℕ

-- The code points of a literal.
abbrev pub codes : String → Text
codes String.[] = []
codes (String.◌∷◌ c s) = code c ∷ codes s

-- str(n): the digits, the most significant first. The fuel counts digits, and n + 1 is enough.
unfoldable pub print_from : ℕ → ℕ → Text → Text
print_from zero n rest = rest
print_from (suc fuel) n rest =
    let more = print_from fuel (n / 10) ((48 + n % 10) ∷ rest) in
    if ltb n 10 then (48 + n) ∷ rest else more

unfoldable pub decimal : ℕ → Text
unfolding print_from
decimal n = print_from (suc n) n []

abbrev pub is_digit : ℕ → Bool
is_digit c = leb 48 c && leb c 57

-- int(text), on what is read so far; any other character is a ValueError.
unfoldable pub read_from : ℕ → Text → Option ℕ
read_from acc [] = some acc
read_from acc (c ∷ cs) =
    let more = read_from (10 * acc + (c - 48)) cs in if is_digit c then more else none

-- int(text) of an unsigned decimal; int("") is a ValueError.
unfoldable pub parse_int : Text → Option ℕ
unfolding read_from
parse_int [] = none
parse_int (c ∷ cs) = read_from 0 (c ∷ cs)

-- text.split(sep) for a separator of one character: one part more than there are separators.
unfoldable pub split_head : ℕ → Text → Text
split_head sep [] = []
split_head sep (c ∷ cs) = let rest = split_head sep cs in if c == sep then [] else c ∷ rest

unfoldable pub split_tail : ℕ → Text → List Text
split_tail sep [] = []
split_tail sep (c ∷ cs) =
    let rest = split_tail sep cs in if c == sep then split_head sep cs ∷ rest else rest

unfoldable pub split : ℕ → Text → List Text
unfolding split_head split_tail
split sep t = split_head sep t ∷ split_tail sep t

-- sep.join(texts)
unfoldable pub join : Text → List Text → Text
join sep [] = []
join sep (t ∷ []) = t
join sep (t ∷ u ∷ ts) = t ++ (sep ++ join sep (u ∷ ts))

-- a <= b on str: by code points, the first difference decides.
unfoldable pub text_le : Text → Text → Bool
text_le [] b = true
text_le (x ∷ a) [] = false
text_le (x ∷ a) (y ∷ b) =
    let rest = text_le a b in if ltb x y then true else if ltb y x then false else rest

unfoldable pub insert_text : Text → List Text → List Text
unfolding text_le
insert_text t [] = t ∷ []
insert_text t (u ∷ us) = let rest = insert_text t us in if text_le t u then t ∷ u ∷ us else u ∷ rest

-- sorted(texts)
unfoldable pub sorted : List Text → List Text
unfolding insert_text
sorted [] = []
sorted (t ∷ ts) = insert_text t (sorted ts)
