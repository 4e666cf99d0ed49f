-- ===== src/Diagnosis/Complete.antt =====
-- What the chunks of `RedactAndChunkLogs` (server/internal/diagnosis/types.go) hold together.
use repo_mender.Prelude.{
  ℕ, zero, suc, ◌+◌, ◌-◌, ◌≡◌, refl, sym, ap, ◌∙◌, Bool, true, false, not, inl, inr, List, [], ◌∷◌,
  ◌++◌, ◌||◌, Text, is_empty, valid_utf8, contains_any, split_rest, take, drop, ltb, length, select,
  select-append, ◌==◌, if◌then◌else◌, ℤ, ok, Bool-cases, arith,
}
use mathlib.Core.List.{append_assoc, append-nil}
use repo_mender.Diagnosis.Logs.{
  LogChunk, Builder, flushed_chunk, flush, write, write_pieces, write_rest, write_candidate,
  add_line, add_lines, empty_builder, log_text, split_lines, chunk_limit, redact_and_chunk_logs,
  max_log_bytes,
}

-- A text without its newlines.
abbrev pub unlined : Text → Text
unlined s = select (λ c. not (c == 10)) s

abbrev pub contents : List LogChunk → Text
contents [] = []
contents (c ∷ cs) = c.content ++ contents cs

contents-append : (cs ds : List LogChunk) → contents (cs ++ ds) ≡ contents cs ++ contents ds
contents-append [] ds = refl
contents-append (c ∷ cs) ds =
    ap (λ (s : Text). c.content ++ s) (contents-append cs ds)
    ∙ sym (append_assoc c.content (contents cs) (contents ds))

unlined-append : (s t : Text) → unlined (s ++ t) ≡ unlined s ++ unlined t
unlined-append s t = select-append (λ c. not (c == 10)) s t

pub take-drop : (n : ℕ) (s : Text) → take n s ++ drop n s ≡ s
take-drop zero s = refl
take-drop (suc n) [] = refl
take-drop (suc n) (c ∷ s) = ap (λ (t : Text). c ∷ t) (take-drop n s)

-- What a builder has taken up.
unfoldable taken : Builder → Text
taken b = unlined (contents b.chunks ++ b.current)

taken-flush : (n : ℕ) (b : Builder) → taken (flush n b) ≡ taken b
unfolding flush taken
taken-flush n b = elim (Bool-cases (is_empty b.current)) [
  | inl e ↦ rw e refl
  | inr e ↦ rw e (
      ap unlined (
        append-nil (contents (b.chunks ++ flushed_chunk n b ∷ []))
        ∙ contents-append b.chunks (flushed_chunk n b ∷ [])
        ∙ ap (λ (s : Text). contents b.chunks ++ s) (append-nil b.current)))
]

taken-write :
    (line : ℕ) (part : Text) (b : Builder) → taken (write line part b) ≡ taken b ++ unlined part
unfolding write taken
taken-write line part b =
    ap unlined (sym (append_assoc (contents b.chunks) b.current part))
    ∙ unlined-append (contents b.chunks ++ b.current) part

taken-write_pieces :
    (fuel size line : ℕ) (candidate : Text) (b : Builder)
    → taken (write_pieces fuel size line candidate b).1
        ++ unlined (write_pieces fuel size line candidate b).0
      ≡ taken b ++ unlined candidate
unfolding write_pieces
taken-write_pieces zero size line candidate b = refl
taken-write_pieces (suc fuel) size line candidate b =
    elim (Bool-cases (ltb size (length candidate))) [
      | inr e ↦ rw (e, write_pieces) refl
      | inl e ↦
          rw (e, write_pieces)
            (let next = flush line (write line (take size candidate) b) in
              taken-write_pieces fuel size line (drop size candidate) next
              ∙ ap (λ (s : Text). s ++ unlined (drop size candidate))
                  (taken-flush line (write line (take size candidate) b)
                    ∙ taken-write line (take size candidate) b)
              ∙ append_assoc (taken b) (unlined (take size candidate))
                  (unlined (drop size candidate))
              ∙ ap (λ (s : Text). taken b ++ s)
                  (sym (unlined-append (take size candidate) (drop size candidate))
                    ∙ ap unlined (take-drop size candidate)))
    ]

taken-write_rest :
    (line : ℕ) (rest : Text) (b : Builder)
    → taken (write_rest line (rest, b)) ≡ taken b ++ unlined rest
unfolding write_rest
taken-write_rest line [] b = sym (append-nil (taken b))
taken-write_rest line (c ∷ s) b = taken-write line (c ∷ s) b

taken-write_candidate :
    (size line : ℕ) (candidate : Text) (b : Builder)
    → taken (write_candidate size line candidate b) ≡ taken b ++ unlined candidate
unfolding write_candidate
taken-write_candidate size line candidate b =
    let (rest, after) = write_pieces (length candidate) size line candidate b in
    taken-write_rest line rest after ∙ taken-write_pieces (length candidate) size line candidate b

taken-if :
    (c : Bool) (x y : Builder) {s : Text}
    → taken x ≡ s
    → taken y ≡ s
    → taken (if c then x else y) ≡ s
taken-if true x y p q = p
taken-if false x y p q = q

taken-add_line :
    (size line : ℕ) (content : Text) (b : Builder)
    → taken (add_line size line content b) ≡ taken b ++ unlined content
unfolding add_line
taken-add_line size line content b =
    taken-if (is_empty b.current) _ _ (taken-write_candidate size line content b) (
      taken-if (ltb size (length b.current + length (10 ∷ content))) _ _
        (taken-write_candidate size line content (flush (line - 1) b)
          ∙ ap (λ (s : Text). s ++ unlined content) (taken-flush (line - 1) b))
        (taken-write_candidate size line (10 ∷ content) b))

abbrev unlined_all : List Text → Text
unlined_all [] = []
unlined_all (t ∷ ts) = unlined t ++ unlined_all ts

taken-add_lines :
    (size line : ℕ) (ts : List Text) (b : Builder)
    → taken (add_lines size line ts b) ≡ taken b ++ unlined_all ts
unfolding add_lines
taken-add_lines size line [] b = taken-flush (line - 1) b ∙ sym (append-nil (taken b))
taken-add_lines size line (t ∷ ts) b =
    taken-add_lines size (line + 1) ts (add_line size line t b)
    ∙ ap (λ (s : Text). s ++ unlined_all ts) (taken-add_line size line t b)
    ∙ append_assoc (taken b) (unlined t) (unlined_all ts)

-- The last flush leaves nothing behind.
pub flush-empty : (n : ℕ) (b : Builder) → is_empty (flush n b).current ≡ true
unfolding flush
flush-empty n b = elim (Bool-cases (is_empty b.current)) [ inl e ↦ rw e e | inr e ↦ rw e refl ]

add_lines-empty :
    (size line : ℕ) (ts : List Text) (b : Builder)
    → is_empty (add_lines size line ts b).current ≡ true
unfolding add_lines
add_lines-empty size line [] b = flush-empty (line - 1) b
add_lines-empty size line (t ∷ ts) b = add_lines-empty size (line + 1) ts (add_line size line t b)

append-empty : (s t : Text) → is_empty t ≡ true → s ++ t ≡ s
append-empty s [] e = append-nil s
append-empty s (c ∷ t) e = cc

split-unlined :
    (s : Text) → unlined ((split_rest 10 s).0) ++ unlined_all (split_rest 10 s).1 ≡ unlined s
split-unlined [] = refl
split-unlined (c ∷ s) = ground (arith, split-unlined s)

pub accepted :
    (logs : Text) (patterns : List Text) (size : ℤ) (chunks : List LogChunk)
    → redact_and_chunk_logs logs patterns size ≡ ok chunks
    → chunks
      ≡ (add_lines (chunk_limit size) 1 (split_lines (log_text patterns logs)) empty_builder).chunks
unfolding redact_and_chunk_logs
accepted logs patterns size chunks e = elim (Bool-cases (ltb max_log_bytes (length logs))) [
  | inl large ↦ cc (rw (large, redact_and_chunk_logs) at e)
  | inr small ↦ elim (Bool-cases (not (valid_utf8 logs) || contains_any (0 ∷ []) logs)) [
    | inl binary ↦ cc (rw (small, binary, redact_and_chunk_logs) at e)
    | inr fine ↦ let q = rw (small, fine, redact_and_chunk_logs) at e in ground arith
  ]
]

-- Where logs are accepted, the chunks together hold the redacted logs, in order and but for the
-- line ends: splitting drops nothing, however long a line is.
pub redact_and_chunk_logs_complete :
    (logs : Text) (patterns : List Text) (size : ℤ) (chunks : List LogChunk)
    → redact_and_chunk_logs logs patterns size ≡ ok chunks
    → unlined (contents chunks) ≡ unlined (log_text patterns logs)
unfolding taken split_lines
redact_and_chunk_logs_complete logs patterns size chunks e =
    let lines = split_lines (log_text patterns logs) in
    let last = add_lines (chunk_limit size) 1 lines empty_builder in
    rw (accepted logs patterns size chunks e) (
      sym (
        ap unlined (
          append-empty (contents last.chunks) last.current
            (add_lines-empty (chunk_limit size) 1 lines empty_builder)))
      ∙ taken-add_lines (chunk_limit size) 1 lines empty_builder
      ∙ split-unlined (log_text patterns logs))
