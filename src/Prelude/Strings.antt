-- ===== src/Prelude/Strings.antt =====
-- Go strings as their bytes, with the functions of package `strings` that the server calls.
use Prim.Native.Nat.{ℕ, zero, suc, ◌+◌}
use Prim.Native.Char.{code}
use Prim.Native.String.{String}
use mathlib.Core.Path.{◌≡◌, refl}
use mathlib.Core.Logic.{◌↔◌}
use mathlib.Core.Bool.{Bool, true, false, ◌&&◌, ◌||◌}
use mathlib.Core.List.{List, [], ◌∷◌, reverse}
use native.Mathlib.Omega.{arith}
use mathlib.Core.Option.{Option, none, some}
use repo_mender.Prelude.Tests.{leb, ltb, ◌==◌, if◌then◌else◌}
use repo_mender.Prelude.Lists.{any}

abbrev pub Text : Type 0
Text = List ℕ

-- The bytes of an ASCII literal.
unfoldable pub text : String → Text
text String.[] = []
text (String.◌∷◌ c s) = code c ∷ text s

-- Go's `==` on strings.
unfoldable pub text_eq : Text → Text → Bool
text_eq [] [] = true
text_eq (x ∷ xs) (y ∷ ys) = x == y && text_eq xs ys
text_eq _ _ = false

pub text_eq_iff : (a b : Text) → (text_eq a b ≡ true) ↔ (a ≡ b)
unfolding text_eq
text_eq_iff [] [] = ground arith
text_eq_iff [] (y ∷ ys) = ground arith
text_eq_iff (x ∷ xs) [] = ground arith
text_eq_iff (x ∷ xs) (y ∷ ys) = ground (arith, text_eq_iff xs ys)

pub text_eq_refl : (a : Text) → text_eq a a ≡ true
text_eq_refl a = (text_eq_iff a a).1 refl

-- `s == ""`
abbrev pub is_empty : Text → Bool
is_empty [] = true
is_empty (x ∷ xs) = false

-- `strings.HasPrefix(s, prefix)`, the prefix first.
unfoldable pub has_prefix : Text → Text → Bool
has_prefix [] s = true
has_prefix (p ∷ ps) [] = false
has_prefix (p ∷ ps) (c ∷ s) = p == c && has_prefix ps s

-- `strings.Contains(s, part)`, the part first.
unfoldable pub contains : Text → Text → Bool
unfolding has_prefix
contains part [] = has_prefix part []
contains part (c ∷ s) = has_prefix part (c ∷ s) || contains part s

-- `strings.ContainsAny(s, chars)` for ASCII `chars`, which come first.
unfoldable pub contains_any : Text → Text → Bool
contains_any chars s = any (λ c. any (λ d. c == d) chars) s

-- The rest of the text behind one white space, as UTF-8 has it, or nothing where it starts with
-- none: the ASCII spaces, then U+0085, U+00A0, U+1680, U+2000 to U+200A, U+2028, U+2029, U+202F,
-- U+205F and U+3000.
abbrev is_ascii_space : ℕ → Bool
is_ascii_space c = (leb 9 c && leb c 13) || c == 32

abbrev is_space2 : ℕ → ℕ → Bool
is_space2 a b = a == 0xC2 && (b == 0x85 || b == 0xA0)

abbrev is_space3 : ℕ → ℕ → ℕ → Bool
is_space3 a b c =
    (a == 0xE1 && b == 0x9A && c == 0x80)
    || (a == 0xE2
        && b == 0x80
        && ((leb 0x80 c && leb c 0x8A) || c == 0xA8 || c == 0xA9 || c == 0xAF))
    || (a == 0xE2 && b == 0x81 && c == 0x9F)
    || (a == 0xE3 && b == 0x80 && c == 0x80)

-- `strings.TrimLeft` by white space.
unfoldable pub trim_left : Text → Text
trim_left [] = []
trim_left (a ∷ []) = if is_ascii_space a then [] else a ∷ []
trim_left (a ∷ b ∷ []) =
    let rest = trim_left (b ∷ []) in
    if is_ascii_space a then rest else if is_space2 a b then [] else a ∷ b ∷ []
trim_left (a ∷ b ∷ c ∷ s) =
    let one = trim_left (b ∷ c ∷ s) in
    let two = trim_left (c ∷ s) in
    let three = trim_left s in
    if is_ascii_space a
    then one
    else if is_space2 a b
    then two
    else if is_space3 a b c
    then three
    else a ∷ b ∷ c ∷ s

-- The same from the end, on the reversed bytes.
unfoldable pub trim_left_reversed : Text → Text
trim_left_reversed [] = []
trim_left_reversed (a ∷ []) = if is_ascii_space a then [] else a ∷ []
trim_left_reversed (a ∷ b ∷ []) =
    let rest = trim_left_reversed (b ∷ []) in
    if is_ascii_space a then rest else if is_space2 b a then [] else a ∷ b ∷ []
trim_left_reversed (a ∷ b ∷ c ∷ s) =
    let one = trim_left_reversed (b ∷ c ∷ s) in
    let two = trim_left_reversed (c ∷ s) in
    let three = trim_left_reversed s in
    if is_ascii_space a
    then one
    else if is_space2 b a
    then two
    else if is_space3 c b a
    then three
    else a ∷ b ∷ c ∷ s

-- `strings.TrimSpace`
unfoldable pub trim_space : Text → Text
unfolding trim_left trim_left_reversed
trim_space s = reverse (trim_left_reversed (reverse (trim_left s)))

-- `strings.TrimSpace(s) == ""`
abbrev pub is_blank : Text → Bool
is_blank s = is_empty (trim_space s)

-- `strings.ReplaceAll(s, "\\", "/")`
abbrev pub slashes : Text → Text
slashes [] = []
slashes (c ∷ s) = (if c == 92 then 47 else c) ∷ slashes s

-- `strings.Split(s, "/")`, and the same by another byte, which comes first: the first segment and
-- the others.
abbrev pub split_rest : ℕ → Text → Text × List Text
split_rest d [] = ([], [])
split_rest d (c ∷ s) =
    let rest = split_rest d s in if c == d then ([], rest.0 ∷ rest.1) else (c ∷ rest.0, rest.1)

unfoldable pub split_slash : Text → List Text
split_slash s = (split_rest 47 s).0 ∷ (split_rest 47 s).1

-- `strings.ToLower` as far as ASCII texts are sought in its result: the only other characters whose
-- lower case is ASCII are U+0130 (to `i`) and U+212A (to `k`).
abbrev pub lower_byte : ℕ → ℕ
lower_byte c = if leb 65 c && leb c 90 then c + 32 else c

unfoldable pub to_lower : Text → Text
to_lower [] = []
to_lower (a ∷ []) = lower_byte a ∷ []
to_lower (a ∷ b ∷ []) = if a == 196 && b == 176 then 105 ∷ [] else lower_byte a ∷ lower_byte b ∷ []
to_lower (a ∷ b ∷ c ∷ s) =
    let rest1 = to_lower s in
    let rest2 = to_lower (c ∷ s) in
    let rest3 = to_lower (b ∷ c ∷ s) in
    if a == 196 && b == 176
    then 105 ∷ rest2
    else if a == 226 && b == 132 && c == 170
    then 107 ∷ rest1
    else lower_byte a ∷ rest3

-- What `unicode/utf8` allows behind a first byte: how many bytes, and the bounds of the next one.
abbrev utf8_tail : ℕ → Option (ℕ × ℕ × ℕ)
utf8_tail c =
    if ltb c 128
    then some (0, 128, 191)
    else if leb 194 c && leb c 223
    then some (1, 128, 191)
    else if c == 224
    then some (2, 160, 191)
    else if c == 237
    then some (2, 128, 159)
    else if leb 225 c && leb c 239
    then some (2, 128, 191)
    else if c == 240
    then some (3, 144, 191)
    else if leb 241 c && leb c 243
    then some (3, 128, 191)
    else if c == 244
    then some (3, 128, 143)
    else none

utf8_rest : ℕ → ℕ → ℕ → Text → Bool
utf8_rest zero low high [] = true
utf8_rest (suc n) low high [] = false
utf8_rest zero low high (c ∷ s) = elim (utf8_tail c) [
  | none ↦ false
  | some t ↦ utf8_rest t.0 t.1 t.2 s
]
utf8_rest (suc n) low high (c ∷ s) = leb low c && leb c high && utf8_rest n 128 191 s

-- `utf8.ValidString`
unfoldable pub valid_utf8 : Text → Bool
unfolding utf8_rest
valid_utf8 s = utf8_rest 0 128 191 s
