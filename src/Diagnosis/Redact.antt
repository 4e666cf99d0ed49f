-- ===== src/Diagnosis/Redact.antt =====
-- `redact` of server/internal/diagnosis/types.go: configured patterns, and the two expressions
-- `assignmentSecret` and `knownToken` as matchers on bytes.
use repo_mender.Prelude.{
  ℕ, zero, suc, ◌+◌, ◌-◌, Bool, true, false, ◌&&◌, ◌||◌, not, Option, none, some, List, [], ◌∷◌,
  ◌++◌, Text, text, has_prefix, is_blank, lower_byte, take, leb, length, ◌==◌, if◌then◌else◌,
}

-- A matcher looks at the byte before a place, which is 0 at the start, and at the text behind it. It
-- gives what replaces the match and how many bytes of the match follow its first one.
abbrev pub Matcher : Type 0
Matcher = ℕ → Text → Option (Text × ℕ)

-- Replaces the matches from left to right; the first argument counts the bytes of a match that are
-- still to be passed over.
abbrev pub replace_from : Matcher → ℕ → ℕ → Text → Text
replace_from m skip before [] = []
replace_from m (suc skip) before (c ∷ s) = replace_from m skip c s
replace_from m zero before (c ∷ s) = elim (m before (c ∷ s)) [
  | none ↦ c ∷ replace_from m zero c s
  | some (new, more) ↦ new ++ replace_from m more c s
]

unfoldable pub replace : Matcher → Text → Text
replace m s = replace_from m 0 0 s

-- `strings.ReplaceAll(s, old, new)` for an `old` that is not empty.
abbrev pub literal : Text → Text → Matcher
literal old new before s = if has_prefix old s then some (new, length old - 1) else none

abbrev pub redacted : Text
redacted = text "[REDACTED]"

-- `\s` of package regexp
abbrev is_space : ℕ → Bool
is_space c = c == 32 || c == 9 || c == 10 || c == 12 || c == 13

unfoldable pub skip_spaces : Text → Text
skip_spaces [] = []
skip_spaces (c ∷ s) = let rest = skip_spaces s in if is_space c then rest else c ∷ s

-- `[^\s,;]*`: what follows it.
unfoldable pub skip_value : Text → Text
skip_value [] = []
skip_value (c ∷ s) =
    let rest = skip_value s in if is_space c || c == b',' || c == b';' then c ∷ s else rest

-- What follows a word at the start of a text, without regard to case. Under `(?i)` package regexp
-- also takes U+017F for an `s` and U+212A for a `k`.
abbrev fold_byte : ℕ → Text → Option Text
fold_byte p [] = none
fold_byte p (a ∷ s) =
    if lower_byte a == p
    then some s
    else if p == b's' && has_prefix (197 ∷ 191 ∷ []) (a ∷ s)
    then some (elim s [ [] ↦ [] | b ∷ t ↦ t ])
    else if p == b'k' && has_prefix (226 ∷ 132 ∷ 170 ∷ []) (a ∷ s)
    then some (elim s [ [] ↦ [] | b ∷ [] ↦ [] | b ∷ c ∷ t ↦ t ])
    else none

abbrev fold_word : Text → Text → Option Text
fold_word [] s = some s
fold_word (p ∷ ps) s = elim (fold_byte p s) [ none ↦ none | some t ↦ fold_word ps t ]

abbrev or_else : Option Text → Option Text → Option Text
or_else (some t) later = some t
or_else none later = later

abbrev skip_dash : Text → Text
skip_dash [] = []
skip_dash (c ∷ s) = if c == b'_' || c == b'-' then s else c ∷ s

-- `(?i)(token|secret|password|authorization|api[_-]?key)`
unfoldable pub key_end : Text → Option Text
key_end s = or_else (fold_word (text "token") s) (
    or_else (fold_word (text "secret") s) (
      or_else (fold_word (text "password") s) (
        or_else (fold_word (text "authorization") s) (elim (fold_word (text "api") s) [
          | none ↦ none
          | some t ↦ fold_word (text "key") (skip_dash t)
        ]))))

-- `\s*[:=]\s*([^\s,;]+)`
unfoldable pub assigned_end : Text → Option Text
unfolding skip_spaces skip_value
assigned_end s = elim (skip_spaces s) [
  | [] ↦ none
  | c ∷ t ↦
      let value = skip_spaces t in
      let rest = skip_value value in
      if (c == b':' || c == b'=') && not (length rest == length value) then some rest else none
]

-- `assignmentSecret` with its replacement `$1=[REDACTED]`
unfoldable pub assignment_secret : Matcher
unfolding key_end assigned_end
assignment_secret before s = elim (key_end s) [
  | none ↦ none
  | some t ↦ elim (assigned_end t) [
    | none ↦ none
    | some rest ↦ some (take (length s - length t) s ++ b'=' ∷ redacted, length s - length rest - 1)
  ]
]

-- `[A-Za-z0-9_]`
abbrev pub is_word : ℕ → Bool
is_word c =
    (leb b'a' c && leb c b'z')
    || (leb b'A' c && leb c b'Z')
    || (leb b'0' c && leb c b'9')
    || c == b'_'

-- The length of `[A-Za-z0-9_]*`, and that of `[A-Za-z0-9_-]*` up to its last word byte.
unfoldable pub word_length : Text → ℕ
word_length [] = 0
word_length (c ∷ s) = let n = word_length s in if is_word c then suc n else 0

unfoldable pub dashed_length : Text → ℕ
dashed_length [] = 0
dashed_length (c ∷ s) =
    let n = dashed_length s in
    if is_word c then suc n else if c == b'-' && not (n == 0) then suc n else 0

abbrev pub drop_bytes : ℕ → Text → Text
drop_bytes zero s = s
drop_bytes (suc n) [] = []
drop_bytes (suc n) (c ∷ s) = drop_bytes n s

-- The length of a match that starts with a prefix and goes on with at least one byte.
abbrev pub prefixed : Text → (Text → ℕ) → Text → ℕ
prefixed p count s =
    let n = count (drop_bytes (length p) s) in
    if has_prefix p s && not (n == 0) then length p + n else 0

-- The alternatives of `knownToken`, the first one that matches: 0 where none does.
abbrev pub or_length : ℕ → ℕ → ℕ
or_length zero n = n
or_length (suc m) n = suc m

abbrev pub token_kinds : List (Text × (Text → ℕ))
token_kinds =
    (text "ghp_", word_length)
    ∷ (text "gho_", word_length)
    ∷ (text "ghu_", word_length)
    ∷ (text "ghs_", word_length)
    ∷ (text "ghr_", word_length)
    ∷ (text "github_pat_", word_length)
    ∷ (text "sk-", dashed_length)
    ∷ []

abbrev pub first_length : List (Text × (Text → ℕ)) → Text → ℕ
first_length [] s = 0
first_length (k ∷ ks) s = or_length (prefixed k.0 k.1 s) (first_length ks s)

unfoldable pub token_length : Text → ℕ
unfolding word_length dashed_length
token_length s = first_length token_kinds s

-- `knownToken`: its `\b` at the start asks for a byte before that is not of a word, and the ones at
-- the end hold where the lengths above end.
abbrev pub token_match : Bool → ℕ → Option (Text × ℕ)
token_match true n = none
token_match false zero = none
token_match false (suc n) = some (redacted, n)

unfoldable pub known_token : Matcher
unfolding token_length
known_token before s = token_match (is_word before) (token_length s)

-- `redact`
unfoldable pub redact_patterns : List Text → Text → Text
unfolding replace
redact_patterns [] value = value
redact_patterns (p ∷ ps) value =
    redact_patterns ps (if is_blank p then value else replace (literal p redacted) value)

unfoldable pub redact : List Text → Text → Text
unfolding redact_patterns replace assignment_secret known_token
redact patterns value =
    replace known_token (replace assignment_secret (redact_patterns patterns value))
