-- ===== src/Diagnosis/Clean.antt =====
-- What `redact` (server/internal/diagnosis/types.go) leaves: no text that `knownToken` matches.
use repo_mender.Prelude.{
  ℕ, zero, suc, ◌≡◌, refl, true, false, not, inl, inr, ◌⊎◌, none, List, [], ◌∷◌, ◌++◌, Text, text,
  all, Option-cases, arith,
}
use repo_mender.Diagnosis.Redact.{
  replace_from, replace, redacted, is_word, drop_bytes, token_kinds, token_length, known_token,
  redact,
}
use repo_mender.Diagnosis.Tokens.{
  IsCut, whole, next, cut, head_is_word, is_start, first_length-starts, token_kinds-IsKind,
  known-quiet, known-cut, match-ends,
}

-- At no place of a text behind a byte does `knownToken` match.
abbrev pub IsClean : ℕ → Text → Type 0
IsClean before [] = Unit
IsClean before (c ∷ s) = (known_token before (c ∷ s) ≡ none) × IsClean c s

replace-IsCut : (before : ℕ) (s : Text) → IsCut s (replace_from known_token 0 before s)
unfolding text
replace-IsCut before [] = whole
replace-IsCut before (c ∷ s) = elim (Option-cases (known_token before (c ∷ s))) [
  | inl e ↦ rw (e, replace_from) (next c s _ (replace-IsCut c s))
  | inr ((new, more), e) ↦ rw (e, replace_from, (match-ends before (c ∷ s) new more e).0) (cut _ _)
]

append-IsClean :
    (r : Text) (b : ℕ) (s : Text)
    → all (λ c. not (is_start c)) r ≡ true
    → ((a : ℕ) → IsClean a s)
    → IsClean b (r ++ s)
unfolding token_length
append-IsClean [] b s free h = h b
append-IsClean (c ∷ r) b s free h = (
  known-quiet b _ (first_length-starts token_kinds c (r ++ s) token_kinds-IsKind (ground arith)),
  append-IsClean r c s (ground arith) h,
)

start-word : (c : ℕ) → is_word c ≡ false → is_start c ≡ false
start-word c e = ground arith

-- The place behind the byte `b` of the result is the one behind `before`, or the next byte that is not
-- passed over is of no word.
abbrev IsSteady : ℕ → ℕ → ℕ → Text → Type 0
IsSteady skip before b s =
    ((skip ≡ 0) × (is_word b ≡ is_word before)) ⊎ (head_is_word (drop_bytes skip s) ≡ false)

replace-IsClean :
    (skip before b : ℕ) (s : Text)
    → IsSteady skip before b s
    → IsClean b (replace_from known_token skip before s)
unfolding text token_length head_is_word
replace-IsClean skip before b [] h = tt
replace-IsClean (suc skip) before b (c ∷ s) h =
    replace-IsClean skip c b s (inr (elim h [ inl k ↦ cc k.0 | inr k ↦ k ]))
replace-IsClean zero before b (c ∷ s) h = elim (Option-cases (known_token before (c ∷ s))) [
  | inr ((new, more), e) ↦
      let (same, ends) = match-ends before (c ∷ s) new more e in
      rw (e, replace_from, same)
        (append-IsClean redacted b _ redacted_free (λ a. replace-IsClean more c a s (inr ends)))
  | inl e ↦ rw (e, replace_from) (first_quiet h e, replace-IsClean zero c c s (inl (refl, refl)))
]
  where
    redacted_free : all (λ c. not (is_start c)) redacted ≡ true
    redacted_free = refl

    first_quiet :
        IsSteady zero before b (c ∷ s)
        → known_token before (c ∷ s) ≡ none
        → known_token b (c ∷ replace_from known_token zero c s) ≡ none
    first_quiet (inl k) e = known-cut before b _ _ (next c s _ (replace-IsCut c s)) k.1 e
    first_quiet (inr k) e =
        known-quiet b _ (first_length-starts token_kinds c _ token_kinds-IsKind (start-word c k))

-- After `redact` no place of a text is left at which `knownToken` matches.
pub redact-IsClean : (patterns : List Text) (value : Text) → IsClean 0 (redact patterns value)
unfolding redact replace
redact-IsClean patterns value = replace-IsClean 0 0 0 _ (inl (refl, refl))
