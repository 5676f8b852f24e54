-- ===== src/Data/Text.antt =====
-- The methods of Python's `str` that the program calls. `lower` and `upper` map the letters of ASCII
-- and of the Polish alphabet, and leave every other character alone.
pub mod Digits
use Prim.Native.Char.{Char, code}
use text.Mathlib.Text.{starts_with}
use recru_flow.Base.{
  ℕ, zero, suc, ◌/◌, ◌%◌, String, ◌<>◌, ◌≡◌, refl, Bool, true, false, ◌&&◌, ◌||◌, List, [], ◌∷◌,
  ltb, leb, ◌==◌, if◌then◌else◌, get_or, get_elem?,
}

-- `str.isspace`, for one character.
unfoldable pub is_space : Char → Bool
is_space c =
    (leb 9 (code c) && leb (code c) 13)
    || (leb 28 (code c) && leb (code c) 32)
    || code c == 0x85
    || code c == 0xa0
    || code c == 0x1680
    || (leb 0x2000 (code c) && leb (code c) 0x200a)
    || (code c == 0x2028
        || code c == 0x2029
        || code c == 0x202f
        || code c == 0x205f
        || code c == 0x3000)

unfoldable pub is_empty : String → Bool
is_empty String.[] = true
is_empty (String.◌∷◌ c s) = false

unfoldable pub lstrip : String → String
unfolding is_space
lstrip String.[] = String.[]
lstrip (String.◌∷◌ c s) = let rest = lstrip s in if is_space c then rest else String.◌∷◌ c s

unfoldable pub rstrip : String → String
unfolding is_space is_empty
rstrip String.[] = String.[]
rstrip (String.◌∷◌ c s) =
    let rest = rstrip s in if is_empty rest && is_space c then String.[] else String.◌∷◌ c rest

unfoldable pub strip : String → String
unfolding lstrip rstrip
strip s = lstrip (rstrip s)

-- The capital letters beside their small ones.
abbrev letters : List (Char × Char)
letters =
    ("A", "a")
    ∷ ("B", "b")
    ∷ ("C", "c")
    ∷ ("D", "d")
    ∷ ("E", "e")
    ∷ ("F", "f")
    ∷ ("G", "g")
    ∷ ("H", "h")
    ∷ ("I", "i")
    ∷ ("J", "j")
    ∷ ("K", "k")
    ∷ ("L", "l")
    ∷ ("M", "m")
    ∷ ("N", "n")
    ∷ ("O", "o")
    ∷ ("P", "p")
    ∷ ("Q", "q")
    ∷ ("R", "r")
    ∷ ("S", "s")
    ∷ ("T", "t")
    ∷ ("U", "u")
    ∷ ("V", "v")
    ∷ ("W", "w")
    ∷ ("X", "x")
    ∷ ("Y", "y")
    ∷ ("Z", "z")
    ∷ ("Ą", "ą")
    ∷ ("Ć", "ć")
    ∷ ("Ę", "ę")
    ∷ ("Ł", "ł")
    ∷ ("Ń", "ń")
    ∷ ("Ó", "ó")
    ∷ ("Ś", "ś")
    ∷ ("Ź", "ź")
    ∷ ("Ż", "ż")
    ∷ []

small_of : List (Char × Char) → Char → Char
small_of [] c = c
small_of ((big, small) ∷ rest) c = if code big == code c then small else small_of rest c

big_of : List (Char × Char) → Char → Char
big_of [] c = c
big_of ((big, small) ∷ rest) c = if code small == code c then big else big_of rest c

unfoldable pub lower : String → String
unfolding small_of
lower String.[] = String.[]
lower (String.◌∷◌ c s) = String.◌∷◌ (small_of letters c) (lower s)

unfoldable pub upper : String → String
unfolding big_of
upper String.[] = String.[]
upper (String.◌∷◌ c s) = String.◌∷◌ (big_of letters c) (upper s)

-- `separator.join(parts)`
unfoldable pub join : String → List String → String
join separator [] = ""
join separator (part ∷ []) = part
join separator (part ∷ parts) = part <> (separator <> join separator parts)

-- `part in text`
unfoldable pub contains : String → String → Bool
unfolding is_empty
contains String.[] part = is_empty part
contains (String.◌∷◌ c s) part = starts_with (String.◌∷◌ c s) part || contains s part

-- `str(n)` of a number that is not negative.
abbrev pub digit : ℕ → String
digit n = get_or (get_elem? ("0" ∷ "1" ∷ "2" ∷ "3" ∷ "4" ∷ "5" ∷ "6" ∷ "7" ∷ "8" ∷ "9" ∷ []) n) ""

unfoldable pub decimal : ℕ → ℕ → String
decimal zero n = digit n
decimal (suc fuel) n =
    let rest = decimal fuel (n / 10) <> digit (n % 10) in if ltb n 10 then digit n else rest

-- A number has no more digits than its value.
unfoldable pub show : ℕ → String
unfolding decimal
show n = decimal n n

strip_example : strip "  Warszawa \t" ≡ "Warszawa"
unfolding strip
strip_example = refl

lower_example : lower "Młodszy ŻÓŁW (Mid)" ≡ "młodszy żółw (mid)"
unfolding lower
lower_example = refl

show_example : show 1203 ≡ "1203"
unfolding show
show_example = refl

join_example : join ", " ("a" ∷ "b" ∷ "c" ∷ []) ≡ "a, b, c"
unfolding join
join_example = refl
