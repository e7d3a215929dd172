-- ===== src/Prelude/Bytes.antt =====
-- Bytes as numbers, and the few operations on slices of them that the source takes from Rust.
use Prim.Native.Nat.{ℕ}
use Prim.Native.Char.{code}
use Prim.Native.String.{String}
use mathlib.Core.Path.{◌≡◌, refl}
use mathlib.Core.Bool.{Bool, true, false, ◌&&◌, ◌||◌}
use mathlib.Core.List.{List, [], ◌∷◌}
use mathlib.Core.Option.{Option, none, some}
use native.Mathlib.Omega.{arith}
use tit.Prelude.Tests.{leb, ltb, ◌==◌, if◌then◌else◌, ==_refl}

-- The code points of a text: its bytes, if it is ASCII.
abbrev pub codes : String → List ℕ
codes String.[] = []
codes (String.◌∷◌ c s) = code c ∷ codes s

abbrev pub bytes_eq : List ℕ → List ℕ → Bool
bytes_eq [] [] = true
bytes_eq [] (b ∷ ys) = false
bytes_eq (a ∷ xs) [] = false
bytes_eq (a ∷ xs) (b ∷ ys) = a == b && bytes_eq xs ys

-- `a ≤ b` in the order of `memcmp`.
abbrev pub bytes_leb : List ℕ → List ℕ → Bool
bytes_leb [] ys = true
bytes_leb (a ∷ xs) [] = false
bytes_leb (a ∷ xs) (b ∷ ys) = ltb a b || (a == b && bytes_leb xs ys)

-- `slice.starts_with(prefix)`, with the prefix first.
abbrev pub starts_with : List ℕ → List ℕ → Bool
starts_with [] ys = true
starts_with (a ∷ xs) [] = false
starts_with (a ∷ xs) (b ∷ ys) = a == b && starts_with xs ys

-- `text.strip_suffix(suffix)`, with the suffix first.
abbrev pub strip_suffix : List ℕ → List ℕ → Option (List ℕ)
strip_suffix suffix [] = if bytes_eq suffix [] then some [] else none
strip_suffix suffix (b ∷ ys) =
    let rest = strip_suffix suffix ys in
    if bytes_eq suffix (b ∷ ys) then some [] else elim rest [ none ↦ none | some r ↦ some (b ∷ r) ]

abbrev onto_first : ℕ → List (List ℕ) → List (List ℕ)
onto_first b [] = (b ∷ []) ∷ []
onto_first b (first ∷ rest) = (b ∷ first) ∷ rest

-- `slice.split(|byte| *byte == separator)`
abbrev pub split : ℕ → List ℕ → List (List ℕ)
split separator [] = [] ∷ []
split separator (b ∷ ys) =
    let rest = split separator ys in if b == separator then [] ∷ rest else onto_first b rest

-- What lies before and after the first separator, if there is one.
abbrev pub split_once : ℕ → List ℕ → Option (List ℕ × List ℕ)
split_once separator [] = none
split_once separator (b ∷ ys) =
    let rest = split_once separator ys in
    if b == separator
    then some ([], ys)
    else elim rest [ none ↦ none | some r ↦ some (b ∷ r.0, r.1) ]

abbrev pub is_ascii_hexdigit : ℕ → Bool
is_ascii_hexdigit b =
    (leb b'0' b && leb b b'9') || (leb b'a' b && leb b b'f') || (leb b'A' b && leb b b'F')

pub bytes_eq_lem : (xs ys : List ℕ) → bytes_eq xs ys ≡ true → xs ≡ ys
bytes_eq_lem [] [] h = refl
bytes_eq_lem [] (b ∷ ys) h = cc
bytes_eq_lem (a ∷ xs) [] h = cc
bytes_eq_lem (a ∷ xs) (b ∷ ys) h = grind (arith, bytes_eq_lem xs ys)

pub bytes_eq_refl : (ys : List ℕ) → bytes_eq ys ys ≡ true
bytes_eq_refl [] = refl
bytes_eq_refl (b ∷ ys) = rw (==_refl b) (bytes_eq_refl ys)
