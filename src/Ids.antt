-- ===== src/Ids.antt =====
-- Random identifiers: `newID` of server/internal/tasks/store.go, of which the approvals and repair
-- stores hold the same text, and auth.go the same steps.
use repo_mender.Prelude.{
  ℕ, ◌+◌, ◌-◌, ◌/◌, ◌%◌, Option, none, some, List, [], ◌∷◌, ◌++◌, Text, ltb, if◌then◌else◌,
}

-- What `rand.Read` filled in: sixteen bytes, or nothing where the source of randomness failed.
pub record Bytes16 : Type 0 where
  pub b0 : ℕ
  pub b1 : ℕ
  pub b2 : ℕ
  pub b3 : ℕ
  pub b4 : ℕ
  pub b5 : ℕ
  pub b6 : ℕ
  pub b7 : ℕ
  pub b8 : ℕ
  pub b9 : ℕ
  pub b10 : ℕ
  pub b11 : ℕ
  pub b12 : ℕ
  pub b13 : ℕ
  pub b14 : ℕ
  pub b15 : ℕ

abbrev pub Draw : Type 0
Draw = Option Bytes16

-- The two lower-case digits of `%x` for one byte.
abbrev pub hex_digit : ℕ → ℕ
hex_digit n = if ltb n 10 then n + b'0' else n + (b'a' - 10)

abbrev pub hex : List ℕ → Text
hex [] = []
hex (b ∷ bs) = hex_digit (b / 16 % 16) ∷ hex_digit (b % 16) ∷ hex bs

-- The version bits 0100 and the variant bits 10 are set, then the bytes are printed in five groups.
unfoldable pub new_id : Draw → Option Text
new_id none = none
new_id (some v) = some (
    hex (v.b0 ∷ v.b1 ∷ v.b2 ∷ v.b3 ∷ [])
    ++ (b'-' ∷ hex (v.b4 ∷ v.b5 ∷ [])
        ++ (b'-' ∷ hex ((v.b6 % 16 + 0x40) ∷ v.b7 ∷ [])
            ++ (b'-' ∷ hex ((v.b8 % 64 + 0x80) ∷ v.b9 ∷ [])
                ++ (b'-' ∷ hex (v.b10 ∷ v.b11 ∷ v.b12 ∷ v.b13 ∷ v.b14 ∷ v.b15 ∷ []))))))
