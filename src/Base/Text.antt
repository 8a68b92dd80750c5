-- ===== src/Base/Text.antt =====
-- Texts. Codes and names are native strings; where the source strips and lowers a name before it
-- compares it, the name is read as its code points.
use Prim.Native.Nat.{Ordering, ℕ, zero, suc, ◌+◌, ◌-◌, ◌*◌, ◌/◌, ◌%◌}
use Prim.Native.Char.{code}
use Prim.Native.String.{String, compare as text_compare}
use mathlib.Core.Path.{◌≡◌, refl}
use mathlib.Core.Bool.{Bool, true, false, ◌&&◌, ◌||◌, not}
use mathlib.Core.Option.{Option, none, some}
use mathlib.Core.List.{List, [], ◌∷◌, map}
use native.Mathlib.Omega.{arith}
use mono256_sic_core.Base.Tests.{◌==◌, ltb, leb, if◌then◌else◌}
pub use Prim.Native.String.{◌++◌ as concat}
pub use text.Mathlib.Text.{◌==◌ as str_eq}
pub use text.Mathlib.TextEquality.{eq_iff as str_eq_iff}

abbrev pub codes : String → List ℕ
codes String.[] = []
codes (String.◌∷◌ c s) = code c ∷ codes s

-- The white space that `str.strip` removes, below U+0100.
abbrev is_space : ℕ → Bool
is_space c = (leb 9 c && leb c 13) || (leb 28 c && leb c 32) || c == 0x85 || c == 0xa0

-- `str.lower` of ASCII and of the Latin-1 letters, in which the chart of accounts is written.
abbrev lower_code : ℕ → ℕ
lower_code c =
    if (leb 65 c && leb c 90) || (leb 0xc0 c && leb c 0xde && not (c == 0xd7)) then c + 32 else c

unfoldable pub lstrip : String → String
lstrip String.[] = String.[]
lstrip (String.◌∷◌ c s) = if is_space (code c) then lstrip s else String.◌∷◌ c s

abbrev is_blank : String → Bool
is_blank String.[] = true
is_blank (String.◌∷◌ c s) = false

unfoldable pub rstrip : String → String
rstrip String.[] = String.[]
rstrip (String.◌∷◌ c s) =
    let rest = rstrip s in
    if is_blank rest && is_space (code c) then String.[] else String.◌∷◌ c rest

-- `s.strip()`
unfoldable pub strip : String → String
unfolding lstrip rstrip
strip s = rstrip (lstrip s)

-- `s.strip() or default`
unfoldable pub strip_or : String → String → String
unfolding strip
strip_or s default = let t = strip s in if is_blank t then default else t

-- `name.strip().lower()`
unfoldable pub normalize : String → List ℕ
unfolding strip
normalize s = map lower_code (codes (strip s))

-- A decimal digit, and the text of a number as an f-string writes it.
abbrev digit : ℕ → String
digit d =
    if d == 0
    then "0"
    else if d == 1
    then "1"
    else if d == 2
    then "2"
    else if d == 3
    then "3"
    else if d == 4
    then "4"
    else if d == 5
    then "5"
    else if d == 6
    then "6"
    else if d == 7
    then "7"
    else if d == 8
    then "8"
    else "9"

-- The fuel `n + 1` exceeds the number of digits of `n`.
show_digits : ℕ → ℕ → String
show_digits zero n = ""
show_digits (suc fuel) n =
    let front = show_digits fuel (n / 10) in
    if ltb n 10 then digit n else concat front (digit (n % 10))

unfoldable pub show : ℕ → String
unfolding show_digits
show n = show_digits (n + 1) n

show-2026 : show 2026 ≡ "2026"
unfolding show
show-2026 = refl

normalize-name : normalize " Mercaderías " ≡ codes "mercaderías"
unfolding normalize
normalize-name = refl

-- Equality of texts given as code points.
abbrev pub codes_eq : List ℕ → List ℕ → Bool
codes_eq [] [] = true
codes_eq (c ∷ cs) (d ∷ ds) = c == d && codes_eq cs ds
codes_eq [] (d ∷ ds) = false
codes_eq (c ∷ cs) [] = false

pub codes_eq_refl : (cs : List ℕ) → codes_eq cs cs ≡ true
codes_eq_refl [] = refl
codes_eq_refl (c ∷ cs) = ground (arith, codes_eq_refl cs)

pub codes_eq→eq : (cs ds : List ℕ) → codes_eq cs ds ≡ true → cs ≡ ds
codes_eq→eq [] [] h = refl
codes_eq→eq [] (d ∷ ds) h = cc
codes_eq→eq (c ∷ cs) [] h = cc
codes_eq→eq (c ∷ cs) (d ∷ ds) h = ground (arith, codes_eq→eq cs ds)

-- `a <= b`, by code points.
abbrev pub str_leb : String → String → Bool
str_leb a b = elim (text_compare a b) [ Ordering.gt ↦ false | _ ↦ true ]

-- `f"{n:02d}"` below 100.
unfoldable pub two_digits : ℕ → String
two_digits n = concat (digit (n / 10)) (digit (n % 10))

is_digit : ℕ → Bool
is_digit c = leb 48 c && leb c 57

parse_from : ℕ → List ℕ → Option ℕ
unfolding is_digit
parse_from acc [] = some acc
parse_from acc (c ∷ cs) =
    if c == 46
    then parse_from acc cs
    else if is_digit c
    then parse_from (acc * 10 + (c - 48)) cs
    else none

has_digit : List ℕ → Bool
unfolding is_digit
has_digit [] = false
has_digit (c ∷ cs) = is_digit c || has_digit cs

-- `int(code.replace(".", ""))`, `none` for `ValueError`. Codes are digits and dots.
unfoldable pub int_of_code : String → Option ℕ
unfolding parse_from has_digit
int_of_code s = if has_digit (codes s) then parse_from 0 (codes s) else none
