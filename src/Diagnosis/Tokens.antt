-- ===== src/Diagnosis/Tokens.antt =====
-- Where the kinds of tokens of `knownToken` (server/internal/diagnosis/types.go) match.
use repo_mender.Prelude.{
  ℕ, zero, suc, ◌+◌, ◌≡◌, refl, sym, ap, subst, ◌∙◌, Bool, true, false, ◌&&◌, ◌||◌, not, inl, inr,
  ◌⊎◌, none, some, List, [], ◌∷◌, Text, text, has_prefix, all, All, length, ◌==◌, Bool-cases, arith,
}
use repo_mender.Diagnosis.Redact.{
  redacted, is_word, word_length, dashed_length, drop_bytes, prefixed, or_length, token_kinds,
  first_length, token_length, token_match, known_token,
}

-- The second text goes along the first one, up to a `[` at most.
pub data IsCut : Text → Text → Type 0 where
  whole : IsCut [] []
  next : (c : ℕ) (s t : Text) → IsCut s t → IsCut (c ∷ s) (c ∷ t)
  cut : (s t : Text) → IsCut s (91 ∷ t)

unfoldable pub head_is_word : Text → Bool
head_is_word [] = false
head_is_word (c ∷ s) = is_word c

word_length-cut : (s t : Text) → IsCut s t → word_length s ≡ 0 → word_length t ≡ 0
unfolding word_length
word_length-cut _ _ whole e = refl
word_length-cut _ _ (next c s t k) e = ground arith
word_length-cut _ _ (cut s t) e = refl

dashed_length-cut : (s t : Text) → IsCut s t → dashed_length s ≡ 0 → dashed_length t ≡ 0
unfolding dashed_length
dashed_length-cut _ _ whole e = refl
dashed_length-cut _ _ (next c s t k) e = ground (arith, dashed_length-cut s t k)
dashed_length-cut _ _ (cut s t) e = refl

word_length-ends : (s : Text) → head_is_word (drop_bytes (word_length s) s) ≡ false
unfolding word_length head_is_word
word_length-ends [] = refl
word_length-ends (c ∷ s) = elim (Bool-cases (is_word c)) [
  | inl e ↦ rw (e, word_length) (word_length-ends s)
  | inr e ↦ rw (e, word_length) e
]

dashed_length-ends : (s : Text) → head_is_word (drop_bytes (dashed_length s) s) ≡ false
unfolding dashed_length head_is_word
dashed_length-ends [] = refl
dashed_length-ends (c ∷ s) = elim (Bool-cases (is_word c)) [
  | inl e ↦ rw (e, dashed_length) (dashed_length-ends s)
  | inr e ↦ elim (Bool-cases (c == 45 && not (dashed_length s == 0))) [
    | inl d ↦ rw (e, d, dashed_length) (dashed_length-ends s)
    | inr d ↦ rw (e, d, dashed_length) e
  ]
]

prefix-IsCut :
    (p s t : Text)
    → IsCut s t
    → all (λ c. not (c == 91)) p ≡ true
    → (has_prefix p t ≡ false)
      ⊎ ((has_prefix p s ≡ true) × IsCut (drop_bytes (length p) s) (drop_bytes (length p) t))
unfolding has_prefix
prefix-IsCut [] s t k free = inr (refl, k)
prefix-IsCut (x ∷ p) _ _ whole free = inl refl
prefix-IsCut (x ∷ p) _ _ (next c s t k) free = elim (Bool-cases (x == c)) [
  | inr other ↦ inl (rw (other, has_prefix) refl)
  | inl same ↦ rw (same, has_prefix) (prefix-IsCut p s t k (ground arith))
]
prefix-IsCut (x ∷ p) _ _ (cut s t) free = inl (ground arith)

drop-nil : (n : ℕ) → drop_bytes n [] ≡ []
drop-nil zero = refl
drop-nil (suc n) = refl

drop-drop : (m n : ℕ) (s : Text) → drop_bytes (m + n) s ≡ drop_bytes n (drop_bytes m s)
drop-drop zero n s = let q : 0 + n ≡ n = omega arith in ap (λ (k : ℕ). drop_bytes k s) q
drop-drop (suc m) n [] = drop-nil (suc m + n) ∙ sym (drop-nil n)
drop-drop (suc m) n (c ∷ s) =
    let q : suc m + n ≡ suc (m + n) = omega arith in
    ap (λ (k : ℕ). drop_bytes k (c ∷ s)) q ∙ drop-drop m n s

-- The first bytes of tokens, `g` and `s`.
abbrev pub is_start : ℕ → Bool
is_start c = c == 103 || c == 115

unfoldable pub head_is_start : Text → Bool
head_is_start [] = false
head_is_start (c ∷ s) = is_start c

-- A kind of token starts with such a byte and has no `[` in its prefix; where it counts nothing, it
-- counts nothing before a cut, and what it counts ends before a byte of no word.
pub record IsKind (k : Text × (Text → ℕ)) : Type 0 where
  pub starts : head_is_start k.0 ≡ true
  pub free : all (λ c. not (c == 91)) k.0 ≡ true
  pub stays : (s t : Text) → IsCut s t → k.1 s ≡ 0 → k.1 t ≡ 0
  pub ends : (s : Text) → head_is_word (drop_bytes (k.1 s) s) ≡ false

prefixed-cut :
    (k : Text × (Text → ℕ)) (s t : Text)
    → IsKind k
    → IsCut s t
    → prefixed k.0 k.1 s ≡ 0
    → prefixed k.0 k.1 t ≡ 0
prefixed-cut k s t h c e = elim (prefix-IsCut k.0 s t c h.free) [
  | inl off ↦ rw off refl
  | inr (on, rest) ↦
      let none_left : k.1 (drop_bytes (length k.0) s) ≡ 0 = ground arith in
      let quiet = h.stays _ _ rest none_left in rw quiet (ground arith)
]

prefixed-ends :
    (k : Text × (Text → ℕ)) (s : Text) (n : ℕ)
    → IsKind k
    → prefixed k.0 k.1 s ≡ suc n
    → head_is_word (drop_bytes (suc n) s) ≡ false
prefixed-ends k s n h e =
    let whole_length : length k.0 + k.1 (drop_bytes (length k.0) s) ≡ suc n = ground arith in
    subst (λ (m : ℕ). head_is_word (drop_bytes m s) ≡ false) whole_length
      (rw (drop-drop (length k.0) (k.1 (drop_bytes (length k.0) s)) s)
        (h.ends (drop_bytes (length k.0) s)))

prefixed-starts :
    (k : Text × (Text → ℕ)) (c : ℕ) (s : Text)
    → IsKind k
    → is_start c ≡ false
    → prefixed k.0 k.1 (c ∷ s) ≡ 0
unfolding head_is_start has_prefix
prefixed-starts ([], count) c s h e = ground (arith, h.starts)
prefixed-starts (x ∷ p, count) c s h e =
    let other : (x == c) ≡ false = ground (arith, h.starts) in rw (other, has_prefix) refl

or-length : (m n : ℕ) → or_length m n ≡ 0 → (m ≡ 0) × (n ≡ 0)
or-length zero n e = (refl, e)
or-length (suc m) n e = ground arith

module _ (s t : Text) (c : IsCut s t) where
  first_length-cut :
      (ks : List (Text × (Text → ℕ)))
      → All IsKind ks
      → first_length ks s ≡ 0
      → first_length ks t ≡ 0
  first_length-cut [] h e = refl
  first_length-cut (k ∷ ks) h e =
      let (first, rest) = or-length (prefixed k.0 k.1 s) (first_length ks s) e in
      rw (prefixed-cut k s t h.0 c first) (first_length-cut ks h.1 rest)

first_length-ends :
    (ks : List (Text × (Text → ℕ))) (s : Text) (n : ℕ)
    → All IsKind ks
    → first_length ks s ≡ suc n
    → head_is_word (drop_bytes (suc n) s) ≡ false
first_length-ends [] s n h e = ground arith
first_length-ends (k ∷ ks) s n h e =
    or_cases (prefixed k.0 k.1 s) refl e (λ q. first_length-ends ks s n h.1 q)
  where
    or_cases :
        (m : ℕ)
        → prefixed k.0 k.1 s ≡ m
        → or_length m (first_length ks s) ≡ suc n
        → (first_length ks s ≡ suc n → head_is_word (drop_bytes (suc n) s) ≡ false)
        → head_is_word (drop_bytes (suc n) s) ≡ false
    or_cases zero q e later = later e
    or_cases (suc m) q e later = prefixed-ends k s n h.0 (q ∙ e)

pub first_length-starts :
    (ks : List (Text × (Text → ℕ))) (c : ℕ) (s : Text)
    → All IsKind ks
    → is_start c ≡ false
    → first_length ks (c ∷ s) ≡ 0
first_length-starts [] c s h e = refl
first_length-starts (k ∷ ks) c s h e =
    rw (prefixed-starts k c s h.0 e) (first_length-starts ks c s h.1 e)

word-IsKind :
    (p : Text)
    → head_is_start p ≡ true
    → all (λ c. not (c == 91)) p ≡ true
    → IsKind (p, word_length)
word-IsKind p starts free = record {
  starts = starts;
  free = free;
  stays = word_length-cut;
  ends = word_length-ends;
}

dashed-IsKind :
    (p : Text)
    → head_is_start p ≡ true
    → all (λ c. not (c == 91)) p ≡ true
    → IsKind (p, dashed_length)
dashed-IsKind p starts free = record {
  starts = starts;
  free = free;
  stays = dashed_length-cut;
  ends = dashed_length-ends;
}

pub token_kinds-IsKind : All IsKind token_kinds
unfolding head_is_start text
token_kinds-IsKind = (
  word-IsKind _ refl refl,
  (
    word-IsKind _ refl refl,
    (
      word-IsKind _ refl refl,
      (
        word-IsKind _ refl refl,
        (word-IsKind _ refl refl, (word-IsKind _ refl refl, (dashed-IsKind _ refl refl, tt))),
      ),
    ),
  ),
)

match-none : (w : Bool) (n : ℕ) → token_match w n ≡ none → w ≡ false → n ≡ 0
match-none true n e f = cc
match-none false zero e f = refl
match-none false (suc n) e f = cc

match-zero : (w : Bool) → token_match w 0 ≡ none
match-zero true = refl
match-zero false = refl

match-some :
    (w : Bool) (n more : ℕ) (new : Text)
    → token_match w n ≡ some (new, more)
    → (new ≡ redacted) × (n ≡ suc more)
match-some true n more new e = (cc, cc)
match-some false zero more new e = (cc, cc)
match-some false (suc n) more new e = (cc, cc)

pub known-quiet : (b : ℕ) (s : Text) → token_length s ≡ 0 → known_token b s ≡ none
unfolding known_token
known-quiet b s e = rw (known_token, e) (match-zero (is_word b))

-- Where nothing matches, nothing matches before the cut, behind a byte of the same kind.
pub known-cut :
    (a b : ℕ) (s t : Text)
    → IsCut s t
    → is_word b ≡ is_word a
    → known_token a s ≡ none
    → known_token b t ≡ none
unfolding known_token token_length
known-cut a b s t c same e = elim (Bool-cases (is_word b)) [
  | inl word ↦ rw (known_token, word) refl
  | inr other ↦ known-quiet b t (
      first_length-cut s t c token_kinds token_kinds-IsKind
        (match-none (is_word a) (token_length s) e (sym same ∙ other)))
]

-- Behind a match no byte of a word stands, and a match starts with one.
pub match-ends :
    (a : ℕ) (s new : Text) (more : ℕ)
    → known_token a s ≡ some (new, more)
    → (new ≡ redacted) × (head_is_word (drop_bytes (suc more) s) ≡ false)
unfolding known_token token_length
match-ends a s new more e =
    let (same, n) = match-some (is_word a) (token_length s) more new e in
    (same, first_length-ends token_kinds s more token_kinds-IsKind n)
