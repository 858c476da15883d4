-- ===== src/Text.antt =====
-- The methods of Python's `str` that the program calls on symbols and tags. Case mapping is that of
-- the letters A to Z: symbols, statuses and tags are ASCII.
pub mod Prefix
use Prim.Native.Char.{Char, code}
use Prim.Native.String.{◌++◌ as append}
use algo_trader.Prelude.{
  Bool, true, false, ◌&&◌, ◌||◌, List, [], ◌∷◌, String, leb, ◌==◌, str_eq, if◌then◌else◌,
}

abbrev letters : List (Char × Char)
letters =
    ("a", "A")
    ∷ ("b", "B")
    ∷ ("c", "C")
    ∷ ("d", "D")
    ∷ ("e", "E")
    ∷ ("f", "F")
    ∷ ("g", "G")
    ∷ ("h", "H")
    ∷ ("i", "I")
    ∷ ("j", "J")
    ∷ ("k", "K")
    ∷ ("l", "L")
    ∷ ("m", "M")
    ∷ ("n", "N")
    ∷ ("o", "O")
    ∷ ("p", "P")
    ∷ ("q", "Q")
    ∷ ("r", "R")
    ∷ ("s", "S")
    ∷ ("t", "T")
    ∷ ("u", "U")
    ∷ ("v", "V")
    ∷ ("w", "W")
    ∷ ("x", "X")
    ∷ ("y", "Y")
    ∷ ("z", "Z")
    ∷ []

upper_in : List (Char × Char) → Char → Char
upper_in [] c = c
upper_in ((l, u) ∷ rest) c = if code c == code l then u else upper_in rest c

lower_in : List (Char × Char) → Char → Char
lower_in [] c = c
lower_in ((l, u) ∷ rest) c = if code c == code u then l else lower_in rest c

map_chars : (Char → Char) → String → String
map_chars f String.[] = String.[]
map_chars f (String.◌∷◌ c s) = String.◌∷◌ (f c) (map_chars f s)

-- `s.upper()`
unfoldable pub upper : String → String
unfolding upper_in map_chars
upper = map_chars (upper_in letters)

-- `s.lower()`
unfoldable pub lower : String → String
unfolding lower_in map_chars
lower = map_chars (lower_in letters)

is_blank : Char → Bool
is_blank c =
    code c == 32 || (leb 9 (code c) && leb (code c) 13) || (leb 28 (code c) && leb (code c) 31)

strip_left : String → String
strip_left String.[] = String.[]
strip_left (String.◌∷◌ c s) = if is_blank c then strip_left s else String.◌∷◌ c s

keep_right : Char → String → String
keep_right c String.[] = if is_blank c then String.[] else String.◌∷◌ c String.[]
keep_right c (String.◌∷◌ d s) = String.◌∷◌ c (String.◌∷◌ d s)

strip_right : String → String
strip_right String.[] = String.[]
strip_right (String.◌∷◌ c s) = keep_right c (strip_right s)

-- `s.strip()`
unfoldable pub strip : String → String
unfolding is_blank strip_left keep_right strip_right
strip s = strip_left (strip_right s)

-- The truth value of a text.
abbrev pub is_nonempty : String → Bool
is_nonempty String.[] = false
is_nonempty (String.◌∷◌ _ _) = true

-- `s in texts`
abbrev pub elem : String → List String → Bool
elem s [] = false
elem s (t ∷ ts) = str_eq s t || elem s ts

-- `needle in s`, over the suffixes of `s`
unfoldable pub starts_at : String → String → Bool
starts_at String.[] s = true
starts_at (String.◌∷◌ c n) String.[] = false
starts_at (String.◌∷◌ c n) (String.◌∷◌ d s) = (code c == code d) && starts_at n s

unfoldable pub contains : String → String → Bool
unfolding starts_at
contains n String.[] = starts_at n String.[]
contains n (String.◌∷◌ c s) = starts_at n (String.◌∷◌ c s) || contains n s

-- `a + b`
abbrev pub concat : String → String → String
concat a b = append a b
