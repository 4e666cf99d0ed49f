-- ===== src/Diagnosis/Excerpts.antt =====
-- Where the chunks of `RedactAndChunkLogs` (server/internal/diagnosis/types.go) stand in the logs.
pub mod Lines
use repo_mender.Prelude.{
  ℕ, zero, suc, ◌+◌, ◌-◌, ◌≤◌, ◌<◌, ◌≡◌, refl, sym, ap, subst, ◌∙◌, Bool, true, false, inl, inr,
  List, [], ◌∷◌, ◌++◌, Text, is_empty, take, drop, ltb, leb, length, length-append, ltb→lt, All,
  All-append, All-weaken, if◌then◌else◌, ℤ, pos, leb_ℤ, ltb_ℤ, ok, err, Bool-cases, arith,
}
use mathlib.Core.List.{append_assoc, append-nil}
use repo_mender.Diagnosis.Logs.{
  LogChunk, Builder, flushed_chunk, flush, write, write_pieces, write_rest, write_candidate,
  add_line, add_lines, empty_builder, log_text, split_lines, chunk_limit, redact_and_chunk_logs,
}
use repo_mender.Diagnosis.Complete.{accepted, flush-empty, take-drop}

-- A line and those after it, joined by newlines.
abbrev pub joined : Text → List Text → Text
joined line [] = line
joined line (next ∷ rest) = line ++ 10 ∷ joined next rest

-- A chunk's text is a piece of the lines it names, counted from 1; it is not empty and no longer
-- than a chunk may be.
pub record IsExcerpt (size : ℕ) (lines : List Text) (c : LogChunk) : Type 0 where
  pub nonempty : is_empty c.content ≡ false
  pub bounded : length c.content ≤ size
  pub earlier : List Text
  pub first : Text
  pub rest : List Text
  pub later : List Text
  pub before : Text
  pub after : Text
  pub stands : lines ≡ earlier ++ (first ∷ rest ++ later)
  pub starts : c.start_line ≡ length earlier + 1
  pub ends : c.end_line ≡ length earlier + length (first ∷ rest)
  pub quotes : joined first rest ≡ before ++ (c.content ++ after)

-- What the builder has not flushed reaches to the end of the lines that it has seen.
pub record IsPending (size : ℕ) (seen : List Text) (b : Builder) : Type 0 where
  pub bounded : length b.current ≤ size
  pub earlier : List Text
  pub first : Text
  pub rest : List Text
  pub before : Text
  pub stands : seen ≡ earlier ++ first ∷ rest
  pub starts : b.start_line ≡ length earlier + 1
  pub quotes : joined first rest ≡ before ++ b.current

abbrev pub AreExcerpts : ℕ → List Text → Builder → Type 0
AreExcerpts size seen b = All (IsExcerpt size seen) b.chunks

abbrev pub IsBuilt : ℕ → List Text → Builder → Type 0
IsBuilt size seen b = AreExcerpts size seen b × (is_empty b.current ≡ false → IsPending size seen b)

pub IsExcerpt-more :
    (size : ℕ) (seen more : List Text) (c : LogChunk)
    → IsExcerpt size seen c
    → IsExcerpt size (seen ++ more) c
IsExcerpt-more size seen more c h = record {
  nonempty = h.nonempty;
  bounded = h.bounded;
  earlier = h.earlier;
  first = h.first;
  rest = h.rest;
  before = h.before;
  after = h.after;
  starts = h.starts;
  ends = h.ends;
  quotes = h.quotes;
  later = h.later ++ more;
  stands =
      ap (λ (ls : List Text). ls ++ more) h.stands
      ∙ append_assoc h.earlier (h.first ∷ h.rest ++ h.later) more
      ∙ ap (λ (ls : List Text). h.earlier ++ h.first ∷ ls) (append_assoc h.rest h.later more);
}

pub joined-append :
    (first : Text) (rest : List Text) (line : Text)
    → joined first (rest ++ line ∷ []) ≡ joined first rest ++ 10 ∷ line
joined-append first [] line = refl
joined-append first (next ∷ rest) line =
    ap (λ (s : Text). first ++ 10 ∷ s) (joined-append next rest line)
    ∙ sym (append_assoc first (10 ∷ joined next rest) (10 ∷ line))

-- The pending text becomes an excerpt when it is flushed.
pending-IsExcerpt :
    (size : ℕ) (seen : List Text) (b : Builder)
    → is_empty b.current ≡ false
    → IsPending size seen b
    → IsExcerpt size seen (flushed_chunk (length seen) b)
pending-IsExcerpt size seen b e p = record {
  nonempty = e;
  bounded = p.bounded;
  earlier = p.earlier;
  first = p.first;
  rest = p.rest;
  later = [];
  before = p.before;
  after = [];
  stands = p.stands ∙ ap (λ (ls : List Text). p.earlier ++ p.first ∷ ls) (sym (append-nil p.rest));
  starts = p.starts;
  ends = ap length p.stands ∙ length-append p.earlier (p.first ∷ p.rest);
  quotes = p.quotes ∙ ap (λ (s : Text). p.before ++ s) (sym (append-nil b.current));
}

pub flush-adds :
    (size n : ℕ) (seen : List Text) (b : Builder)
    → AreExcerpts size seen b
    → (is_empty b.current ≡ false → IsExcerpt size seen (flushed_chunk n b))
    → AreExcerpts size seen (flush n b)
unfolding flush
flush-adds size n seen b h k = elim (Bool-cases (is_empty b.current)) [
  | inl e ↦ rw e h
  | inr e ↦ rw e (All-append (IsExcerpt size seen) b.chunks (flushed_chunk n b ∷ []) h (k e, tt))
]

pub flush-AreExcerpts :
    (size n : ℕ) (seen : List Text) (b : Builder)
    → n ≡ length seen
    → IsBuilt size seen b
    → AreExcerpts size seen (flush n b)
flush-AreExcerpts size n seen b same h =
    rw same
      (flush-adds size (length seen) seen b h.0 (λ e. pending-IsExcerpt size seen b e (h.1 e)))

pub empty-nil : (s : Text) → is_empty s ≡ true → s ≡ []
empty-nil [] e = refl
empty-nil (c ∷ s) e = cc

pub length-nonempty : (s : Text) → is_empty s ≡ false → 1 ≤ length s
length-nonempty [] e = cc
length-nonempty (c ∷ s) e = omega arith

pub length-take : (n : ℕ) (s : Text) → length (take n s) ≤ n
length-take zero s = omega arith
length-take (suc n) [] = omega arith
length-take (suc n) (c ∷ s) = omega (arith, length-take n s)

pub take-nonempty : (n : ℕ) (s : Text) → 0 < n → n < length s → is_empty (take n s) ≡ false
take-nonempty zero s p q = ground arith
take-nonempty (suc n) [] p q = ground arith
take-nonempty (suc n) (c ∷ s) p q = refl
