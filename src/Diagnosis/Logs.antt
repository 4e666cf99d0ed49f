-- ===== src/Diagnosis/Logs.antt =====
-- `RedactAndChunkLogs` of server/internal/diagnosis/types.go.
use repo_mender.Prelude.{
  ℕ, zero, suc, ◌+◌, ◌-◌, true, false, ◌||◌, not, List, [], ◌∷◌, ◌++◌, Text, text, is_empty,
  valid_utf8, contains_any, split_rest, take, drop, ltb, length, if◌then◌else◌, ℤ, pos, pos_part,
  leb_ℤ, ltb_ℤ, Result, ok, err,
}
use repo_mender.Diagnosis.Redact.{replace, literal, redact}

pub data Error : Type 0 where
  unsupported_event invalid_event binary_logs logs_too_large lookup_failed task_failed : Error

-- `MaxLogBytes` and `DefaultChunkSize`
abbrev pub max_log_bytes : ℕ
max_log_bytes = 8388608

abbrev pub default_chunk_size : ℕ
default_chunk_size = 32768

pub record LogChunk : Type 0 where
  pub source : Text
  pub start_line : ℕ
  pub end_line : ℕ
  pub content : Text

-- The variables of the loop: `chunks`, `current` and `startLine`.
pub record Builder : Type 0 where
  pub chunks : List LogChunk
  pub current : Text
  pub start_line : ℕ

abbrev pub flushed_chunk : ℕ → Builder → LogChunk
flushed_chunk end_line b = record {
  source = text "workflow.log";
  start_line = b.start_line;
  end_line = end_line;
  content = b.current;
}

-- `flush`
unfoldable pub flush : ℕ → Builder → Builder
flush end_line b = if is_empty b.current then b else record {
  chunks = b.chunks ++ flushed_chunk end_line b ∷ [];
  current = [];
  start_line = end_line + 1;
}

-- `current.WriteString(part)`, with `startLine` set where `current` was empty.
unfoldable pub write : ℕ → Text → Builder → Builder
write line part b = record b {
  start_line = if is_empty b.current then line else b.start_line;
  current = b.current ++ part;
}

-- The loop over a candidate that is longer than a chunk: what is left of it. The length of the
-- candidate is fuel enough, as each turn takes a byte at least.
unfoldable pub write_pieces : ℕ → ℕ → ℕ → Text → Builder → Text × Builder
unfolding write flush
write_pieces zero size line candidate b = (candidate, b)
write_pieces (suc fuel) size line candidate b = elim (ltb size (length candidate)) [
  | false ↦ (candidate, b)
  | true ↦
      write_pieces fuel size line (drop size candidate)
        (flush line (write line (take size candidate) b))
]

unfoldable pub write_rest : ℕ → Text × Builder → Builder
unfolding write
write_rest line (candidate, b) = if is_empty candidate then b else write line candidate b

unfoldable pub write_candidate : ℕ → ℕ → Text → Builder → Builder
unfolding write_pieces write_rest
write_candidate size line candidate b =
    write_rest line (write_pieces (length candidate) size line candidate b)

-- One turn of the loop over the lines; `line` is `lineNumber`, which is at least 1.
unfoldable pub add_line : ℕ → ℕ → Text → Builder → Builder
unfolding write_candidate flush
add_line size line content b =
    if is_empty b.current
    then write_candidate size line content b
    else if ltb size (length b.current + length (10 ∷ content))
    then write_candidate size line content (flush (line - 1) b)
    else write_candidate size line (10 ∷ content) b

unfoldable pub add_lines : ℕ → ℕ → List Text → Builder → Builder
unfolding add_line flush
add_lines size line [] b = flush (line - 1) b
add_lines size line (t ∷ ts) b = add_lines size (line + 1) ts (add_line size line t b)

abbrev pub empty_builder : Builder
empty_builder = record { chunks = []; current = []; start_line = 1 }

-- `strings.Split(strings.ReplaceAll(redacted, "\r\n", "\n"), "\n")`
unfoldable pub log_text : List Text → Text → Text
unfolding redact replace
log_text patterns logs = replace (literal (13 ∷ 10 ∷ []) (10 ∷ [])) (redact patterns logs)

unfoldable pub split_lines : Text → List Text
split_lines s = (split_rest 10 s).0 ∷ (split_rest 10 s).1

unfoldable pub chunk_limit : ℤ → ℕ
chunk_limit size =
    if leb_ℤ size (pos 0) || ltb_ℤ (pos max_log_bytes) size
    then default_chunk_size
    else pos_part size

unfoldable pub redact_and_chunk_logs : Text → List Text → ℤ → Result Error (List LogChunk)
unfolding add_lines log_text split_lines chunk_limit
redact_and_chunk_logs logs patterns size =
    if ltb max_log_bytes (length logs)
    then err logs_too_large
    else if not (valid_utf8 logs) || contains_any (0 ∷ []) logs
    then err binary_logs
    else ok (
        (add_lines (chunk_limit size) 1 (split_lines (log_text patterns logs))
          empty_builder).chunks)
