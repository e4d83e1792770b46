-- ===== src/Base/Text.antt =====
-- The `str` methods that the program uses. `upper` and `lower` map the ASCII letters, which is
-- all that MAC addresses and role names hold; `strip` knows every white space character.
use Prim.Native.Nat.{ℕ, zero, suc}
use Prim.Native.Char.{Char, code}
use Prim.Native.String.{String}
use mathlib.Core.Path.{◌≡◌, refl}
use mathlib.Core.Bool.{Bool, true, false, ◌||◌, ◌&&◌}
use mathlib.Core.List.{List, [], ◌∷◌, ◌++◌}
use native.Mathlib.Omega.{arith}
use text.Mathlib.Text.{◌==◌}
use home_lab_hq.Base.Tests.{leb, nat_eq, if◌then◌else◌}

abbrev letters : List (Char × Char)
letters =
    ("a", "A")
    ∷ ("b", "B")
    ∷ ("c", "C")
    ∷ ("d", "D")
    ∷ ("e", "E")
    ∷ ("f", "F")
    ∷ ("g", "G")
    ∷ ("h", "H")
    ∷ ("i", "I")
    ∷ ("j", "J")
    ∷ ("k", "K")
    ∷ ("l", "L")
    ∷ ("m", "M")
    ∷ ("n", "N")
    ∷ ("o", "O")
    ∷ ("p", "P")
    ∷ ("q", "Q")
    ∷ ("r", "R")
    ∷ ("s", "S")
    ∷ ("t", "T")
    ∷ ("u", "U")
    ∷ ("v", "V")
    ∷ ("w", "W")
    ∷ ("x", "X")
    ∷ ("y", "Y")
    ∷ ("z", "Z")
    ∷ []

upper_char : List (Char × Char) → Char → Char
upper_char [] c = c
upper_char ((low, up) ∷ rest) c =
    let later = upper_char rest c in if nat_eq (code low) (code c) then up else later

lower_char : List (Char × Char) → Char → Char
lower_char [] c = c
lower_char ((low, up) ∷ rest) c =
    let later = lower_char rest c in if nat_eq (code up) (code c) then low else later

-- `s.upper()`
unfoldable pub upper : String → String
unfolding upper_char
upper String.[] = String.[]
upper (String.◌∷◌ c s) = String.◌∷◌ (upper_char letters c) (upper s)

-- `s.lower()`
unfoldable pub lower : String → String
unfolding lower_char
lower String.[] = String.[]
lower (String.◌∷◌ c s) = String.◌∷◌ (lower_char letters c) (lower s)

is_space : ℕ → Bool
is_space n =
    (leb 9 n && leb n 13)
    || (leb 28 n && leb n 32)
    || nat_eq n 133
    || nat_eq n 160
    || nat_eq n 0x1680
    || (leb 0x2000 n && leb n 0x200a)
    || nat_eq n 0x2028
    || nat_eq n 0x2029
    || nat_eq n 0x202f
    || nat_eq n 0x205f
    || nat_eq n 0x3000

strip_left : String → String
unfolding is_space
strip_left String.[] = String.[]
strip_left (String.◌∷◌ c s) =
    let rest = strip_left s in if is_space (code c) then rest else String.◌∷◌ c s

strip_right : String → String
unfolding is_space
strip_right String.[] = String.[]
strip_right (String.◌∷◌ c s) =
    let rest = strip_right s in
    if is_space (code c) && rest == "" then String.[] else String.◌∷◌ c rest

-- `s.strip()`
unfoldable pub strip : String → String
unfolding strip_left strip_right
strip s = strip_right (strip_left s)

-- `s.startswith(prefix)`
unfoldable pub starts_with : String → String → Bool
starts_with String.[] s = true
starts_with (String.◌∷◌ p prefix) String.[] = false
starts_with (String.◌∷◌ p prefix) (String.◌∷◌ c s) =
    nat_eq (code p) (code c) && starts_with prefix s

-- `part in s`
unfoldable pub has_part : String → String → Bool
unfolding starts_with
has_part part String.[] = starts_with part String.[]
has_part part (String.◌∷◌ c s) = starts_with part (String.◌∷◌ c s) || has_part part s

-- `s[:n]`
unfoldable pub clip : ℕ → String → String
clip zero s = String.[]
clip (suc n) String.[] = String.[]
clip (suc n) (String.◌∷◌ c s) = String.◌∷◌ c (clip n s)

-- `x in xs`
abbrev pub is_in : String → List String → Bool
is_in x [] = false
is_in x (y ∷ ys) = y == x || is_in x ys

-- No text stands twice in the list.
abbrev pub AllDistinct : List String → Type 0
AllDistinct [] = Unit
AllDistinct (x ∷ xs) = (is_in x xs ≡ false) × AllDistinct xs

pub is_in-append :
    (k : String) (xs ys : List String) → is_in k (xs ++ ys) ≡ (is_in k xs || is_in k ys)
is_in-append k [] ys = refl
is_in-append k (x ∷ xs) ys = ground (arith, is_in-append k xs ys)
