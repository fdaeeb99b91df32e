-- ===== src/Base/Text.antt =====
-- The functions of Go's `strings` and `strconv` packages that the chain calls. A text is read as
-- its code points; `equal_fold` and `trim_space` treat ASCII, which is exact on the hexadecimal
-- digests and the identifiers that the chain passes to them.
use ag3nt_coin.Base.Tests.{leb, ltb, ◌==◌, if◌then◌else◌}
use Prim.Native.Nat.{ℕ, zero, suc, ◌+◌, ◌-◌, ◌*◌, ◌/◌, ◌%◌}
use Prim.Native.Char.{code}
use Prim.Native.String.{String}
use Prim.Native.String.{◌++◌ as text_append}
use mathlib.Core.Bool.{Bool, true, false, ◌&&◌, ◌||◌}
use mathlib.Core.Option.{Option, none, some}
use mathlib.Core.List.{List, [], ◌∷◌, map}
use mathlib.Core.Path.{◌≡◌}
use native.Mathlib.Omega.{arith}
use text.Mathlib.Text.{◌==◌ as str_eq}
use text.Mathlib.TextEquality.{eq_iff}

abbrev pub codes : String → List ℕ
codes String.[] = []
codes (String.◌∷◌ c s) = code c ∷ codes s

unfoldable pub codes_eq : List ℕ → List ℕ → Bool
codes_eq [] [] = true
codes_eq (x ∷ xs) (y ∷ ys) = (x == y) && codes_eq xs ys
codes_eq _ _ = false

unfoldable pub lower : ℕ → ℕ
lower c = if leb b'A' c && leb c b'Z' then c + 32 else c

-- `strings.EqualFold`
unfoldable pub equal_fold : String → String → Bool
unfolding codes_eq lower
equal_fold s t = codes_eq (map lower (codes s)) (map lower (codes t))

is_space : ℕ → Bool
is_space c = (c == 32) || (leb 9 c && leb c 13)

drop_spaces : String → String
drop_spaces String.[] = ""
drop_spaces (String.◌∷◌ c s) =
    let rest = drop_spaces s in if is_space (code c) then rest else String.◌∷◌ c s

reverse_onto : String → String → String
reverse_onto acc String.[] = acc
reverse_onto acc (String.◌∷◌ c s) = reverse_onto (String.◌∷◌ c acc) s

-- `strings.TrimSpace`
unfoldable pub trim_space : String → String
unfolding is_space drop_spaces reverse_onto
trim_space s = reverse_onto "" (drop_spaces (reverse_onto "" (drop_spaces s)))

digit : ℕ → String
digit n =
    if n == 0
    then "0"
    else if n == 1
    then "1"
    else if n == 2
    then "2"
    else if n == 3
    then "3"
    else if n == 4
    then "4"
    else if n == 5
    then "5"
    else if n == 6
    then "6"
    else if n == 7
    then "7"
    else if n == 8
    then "8"
    else "9"

format_digits : ℕ → ℕ → String → String
format_digits zero n acc = acc
format_digits (suc fuel) n acc =
    let acc' = text_append (digit (n % 10)) acc in
    let rest = format_digits fuel (n / 10) acc' in if ltb n 10 then acc' else rest

-- `strconv.FormatUint(n, 10)`: a `uint64` has at most 20 digits.
unfoldable pub format_uint : ℕ → String
unfolding digit format_digits
format_uint n = format_digits 20 n ""

parse_digits : ℕ → List ℕ → Option ℕ
parse_digits n [] = some n
parse_digits n (c ∷ cs) =
    if leb b'0' c && leb c b'9' then parse_digits (n * 10 + (c - b'0')) cs else none

-- `strconv.ParseInt(raw, 10, 64)`, for the results that are not negative; `none` for an error
-- and for a number below zero, which the one caller treats alike.
unfoldable pub parse_int : String → Option ℕ
unfolding parse_digits
parse_int raw = start (codes raw)
  where
    in_range : Option ℕ → Option ℕ
    in_range none = none
    in_range (some n) = if ltb n 9223372036854775808 then some n else none

    some_digits : List ℕ → Option ℕ
    some_digits [] = none
    some_digits (c ∷ cs) = in_range (parse_digits 0 (c ∷ cs))

    start : List ℕ → Option ℕ
    start [] = none
    start (c ∷ cs) = if c == b'+' then some_digits cs else some_digits (c ∷ cs)

pub str_eq_sym : (a b : String) → str_eq a b ≡ false → str_eq b a ≡ false
str_eq_sym a b h = ground (arith, eq_iff a b, eq_iff b a)
