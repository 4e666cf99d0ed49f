-- ===== src/Diagnosis/Excerpts/Lines.antt =====
-- The lines of the logs one by one: the loops of `RedactAndChunkLogs`
-- (server/internal/diagnosis/types.go) and where they put their chunks.
use repo_mender.Prelude.{
  ℕ, zero, suc, ◌+◌, ◌-◌, ◌≤◌, ◌<◌, ◌≡◌, refl, sym, ap, subst, ◌∙◌, Bool, true, false, inl, inr,
  List, [], ◌∷◌, ◌++◌, Text, is_empty, take, drop, ltb, length, length-append, ltb→lt, All,
  All-weaken, if◌then◌else◌, ℤ, ok, Bool-cases, arith,
}
use mathlib.Core.List.{append_assoc, append-nil}
use repo_mender.Diagnosis.Logs.{
  LogChunk, Builder, flushed_chunk, flush, write, write_pieces, write_rest, write_candidate,
  add_line, add_lines, empty_builder, log_text, split_lines, chunk_limit, redact_and_chunk_logs,
}
use repo_mender.Diagnosis.Complete.{accepted, flush-empty, take-drop}
use repo_mender.Diagnosis.Excerpts.{
  IsExcerpt, IsPending, AreExcerpts, IsBuilt, IsExcerpt-more, joined-append, flush-adds,
  flush-AreExcerpts, empty-nil, length-nonempty, length-take, take-nonempty,
}

shorter :
    (size fuel : ℕ) (s : Text)
    → 0 < size
    → size < length s
    → length s ≤ suc fuel
    → length (drop size s) ≤ fuel
shorter size fuel s some_room over enough = omega (
  arith,
  length-nonempty (take size s) (take-nonempty size s some_room over),
  length-append (take size s) (drop size s),
  ap length (take-drop size s),
)

-- While the line after those seen is written, from a builder that holds nothing back.
module _ (size line : ℕ) (seen : List Text) (content : Text) (place : line ≡ length seen + 1) where
  rest-IsBuilt :
      (pre candidate : Text) (b : Builder)
      → content ≡ pre ++ candidate
      → length candidate ≤ size
      → AreExcerpts size (seen ++ content ∷ []) b
      → b.current ≡ []
      → IsBuilt size (seen ++ content ∷ []) (write_rest line (candidate, b))
  unfolding write_rest write
  rest-IsBuilt pre [] b split fits h none_left = (h, λ e. cc)
  rest-IsBuilt pre (c ∷ s) b split fits h none_left = (
    h,
    λ e. record {
      bounded = rw none_left fits;
      earlier = seen;
      first = content;
      rest = [];
      before = pre;
      stands = refl;
      starts = rw none_left place;
      quotes = rw none_left split;
    },
  )

  piece-IsExcerpt :
      (pre candidate : Text) (b : Builder)
      → 0 < size
      → size < length candidate
      → content ≡ pre ++ candidate
      → b.current ≡ []
      → IsExcerpt size
          (seen ++ content ∷ [])
          (flushed_chunk line (write line (take size candidate) b))
  unfolding write
  piece-IsExcerpt pre candidate b some_room over split none_left = record {
    nonempty = rw none_left (take-nonempty size candidate some_room over);
    bounded = rw none_left (length-take size candidate);
    earlier = seen;
    first = content;
    rest = [];
    later = [];
    before = pre;
    after = drop size candidate;
    stands = refl;
    starts = rw none_left place;
    ends = place;
    quotes = rw none_left (split ∙ ap (λ (s : Text). pre ++ s) (sym (take-drop size candidate)));
  }

  pieces-IsBuilt :
      (fuel : ℕ) (pre candidate : Text) (b : Builder)
      → 0 < size
      → content ≡ pre ++ candidate
      → length candidate ≤ fuel
      → AreExcerpts size (seen ++ content ∷ []) b
      → b.current ≡ []
      → IsBuilt size
          (seen ++ content ∷ [])
          (write_rest line (write_pieces fuel size line candidate b))
  unfolding write_pieces
  pieces-IsBuilt zero pre candidate b some_room split enough h none_left =
      rest-IsBuilt pre candidate b split (omega arith) h none_left
  pieces-IsBuilt (suc fuel) pre candidate b some_room split enough h none_left =
      elim (Bool-cases (ltb size (length candidate))) [
        | inr e ↦
            rw (e, write_pieces) (rest-IsBuilt pre candidate b split (ground arith) h none_left)
        | inl e ↦
            rw (e, write_pieces)
              (let over : size < length candidate = ltb→lt size (length candidate) e in
                let w = write line (take size candidate) b in
                pieces-IsBuilt fuel (pre ++ take size candidate) (drop size candidate)
                  (flush line w) some_room
                  (split
                    ∙ ap (λ (s : Text). pre ++ s) (sym (take-drop size candidate))
                    ∙ sym (append_assoc pre (take size candidate) (drop size candidate)))
                  (shorter size fuel candidate some_room over enough)
                  (flush-adds size line (seen ++ content ∷ []) w h
                    (λ k. piece-IsExcerpt pre candidate b some_room over split none_left))
                  (empty-nil (flush line w).current (flush-empty line w)))
      ]

-- A line that still fits behind the pending text.
fits-IsBuilt :
    (size line : ℕ) (seen : List Text) (content : Text) (b : Builder)
    → is_empty b.current ≡ false
    → length b.current + length (10 ∷ content) ≤ size
    → IsBuilt size seen b
    → IsBuilt size (seen ++ content ∷ []) (write_candidate size line (10 ∷ content) b)
unfolding write_candidate write_pieces write_rest write
fits-IsBuilt size line seen content b e fits h =
    let p : IsPending size seen b = h.1 e in
    let short : ltb size (length (10 ∷ content)) ≡ false = ground arith in
    rw (short, write_candidate, write_pieces)
      (
        All-weaken (IsExcerpt size seen) (IsExcerpt size (seen ++ content ∷ [])) b.chunks
            (IsExcerpt-more size seen (content ∷ [])) h.0,
        λ k. record {
          bounded = omega (arith, length-append b.current (10 ∷ content));
          earlier = p.earlier;
          first = p.first;
          rest = p.rest ++ content ∷ [];
          before = p.before;
          stands =
              ap (λ (ls : List Text). ls ++ content ∷ []) p.stands
              ∙ append_assoc p.earlier (p.first ∷ p.rest) (content ∷ []);
          starts = rw e p.starts;
          quotes =
              joined-append p.first p.rest content
              ∙ ap (λ (s : Text). s ++ 10 ∷ content) p.quotes
              ∙ append_assoc p.before b.current (10 ∷ content);
        },
      )

IsBuilt-if :
    (size : ℕ) (seen : List Text) (c : Bool) (x y : Builder)
    → (c ≡ true → IsBuilt size seen x)
    → (c ≡ false → IsBuilt size seen y)
    → IsBuilt size seen (if c then x else y)
IsBuilt-if size seen true x y p q = p refl
IsBuilt-if size seen false x y p q = q refl

module _ (size : ℕ) (some_room : 0 < size) where
  add_line-IsBuilt :
      (line : ℕ) (seen : List Text) (content : Text) (b : Builder)
      → line ≡ length seen + 1
      → IsBuilt size seen b
      → IsBuilt size (seen ++ content ∷ []) (add_line size line content b)
  unfolding add_line write_candidate
  add_line-IsBuilt line seen content b place h =
      let next = seen ++ content ∷ [] in
      let fresh : (w : Builder)
          → AreExcerpts size seen w
          → is_empty w.current ≡ true
          → IsBuilt size next (write_candidate size line content w) =
        λ w k e.
          pieces-IsBuilt size line seen content place (length content) [] content w some_room refl
            (omega arith)
            (All-weaken (IsExcerpt size seen) (IsExcerpt size next) w.chunks
              (IsExcerpt-more size seen (content ∷ [])) k)
            (empty-nil w.current e) in
      IsBuilt-if size next (is_empty b.current) _ _ (fresh b h.0) (λ e.
        IsBuilt-if size next (ltb size (length b.current + length (10 ∷ content))) _ _
          (λ over.
            fresh (flush (line - 1) b) (flush-AreExcerpts size (line - 1) seen b (omega arith) h)
              (flush-empty (line - 1) b))
          (λ fits. fits-IsBuilt size line seen content b e (ground arith) h))

  add_lines-AreExcerpts :
      (line : ℕ) (seen rest : List Text) (b : Builder)
      → line ≡ length seen + 1
      → IsBuilt size seen b
      → AreExcerpts size (seen ++ rest) (add_lines size line rest b)
  unfolding add_lines
  add_lines-AreExcerpts line seen [] b place h =
      subst (λ (ls : List Text). AreExcerpts size ls (flush (line - 1) b)) (sym (append-nil seen))
        (flush-AreExcerpts size (line - 1) seen b (omega arith) h)
  add_lines-AreExcerpts line seen (t ∷ ts) b place h =
      subst
        (λ (ls : List Text).
          AreExcerpts size ls (add_lines size (line + 1) ts (add_line size line t b)))
        (append_assoc seen (t ∷ []) ts)
        (add_lines-AreExcerpts (line + 1) (seen ++ t ∷ []) ts (add_line size line t b)
          (omega (arith, place, length-append seen (t ∷ [])))
          (add_line-IsBuilt line seen t b place h))

limit-positive : (size : ℤ) → 0 < chunk_limit size
unfolding chunk_limit
limit-positive size = ground arith

-- Where logs are accepted, every chunk is not empty, is no longer than the limit, and its text is
-- a piece of exactly the lines of the redacted logs that it names, counted from 1.
pub redact_and_chunk_logs-AreExcerpts :
    (logs : Text) (patterns : List Text) (size : ℤ) (chunks : List LogChunk)
    → redact_and_chunk_logs logs patterns size ≡ ok chunks
    → All (IsExcerpt (chunk_limit size) (split_lines (log_text patterns logs))) chunks
redact_and_chunk_logs-AreExcerpts logs patterns size chunks e =
    rw (accepted logs patterns size chunks e) (
      add_lines-AreExcerpts (chunk_limit size) (limit-positive size) 1 []
        (split_lines (log_text patterns logs)) empty_builder (omega arith) (tt, λ k. cc))
