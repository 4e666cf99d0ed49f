-- ===== src/Repair/Safety.antt =====
-- What `ValidatePatch` of server/internal/repair/types.go lets through.
use repo_mender.Prelude.{
  ◌≢◌, ◌++◌, In, to_lower, valid_utf8, ◌≤◌, ◌≡◌, true, false, [], Text, text, trim_space, slashes,
  split_slash, All, length,
}
use repo_mender.Repair.Types.{PatchFile}

-- The text starts with the part, or holds it somewhere.
abbrev Starts : Text → Text → Type 0
Starts part s = (rest : Text) × (s ≡ part ++ rest)

abbrev Holds : Text → Text → Type 0
Holds part s = (before : Text) × (rest : Text) × (s ≡ before ++ (part ++ rest))

-- A path inside the work tree, whatever slashes it is written with: of segments that are neither
-- empty nor `..`, not the tree itself, not below `.git`, and on one line.
abbrev IsInside : Text → Type 0
IsInside p =
    (p ≢ [])
    × ¬ Starts (text "/") p
    × ¬ In 13 p
    × ¬ In 10 p
    × (p ≢ text ".")
    × ¬ Starts (text ".git/") p
    × All (λ segment. (segment ≢ text "..") × (segment ≢ [])) (split_slash p)

abbrev IsSafePath : Text → Type 0
IsSafePath value = IsInside (trim_space (slashes value))

-- Not one of the files that guard the repository.
abbrev IsUnguarded : Text → Type 0
IsUnguarded p =
    (p ≢ text "CODEOWNERS")
    × (p ≢ text ".github/CODEOWNERS")
    × ¬ Starts (text ".github/workflows/") p
    × (p ≢ text "compose.yaml")
    × ¬ Starts (text "compose.") p

abbrev pub IsReadable : Text → Type 0
IsReadable t = (valid_utf8 t ≡ true) × ¬ In 0 t

-- Free of what credentials look like, in any case.
abbrev IsFreeOfSecrets : Text → Type 0
IsFreeOfSecrets t =
    ¬ Holds (text "ghp_") (to_lower t)
    × ¬ Holds (text "github_pat_") (to_lower t)
    × ¬ Holds (text "akia") (to_lower t)
    × ¬ Holds (text "-----begin private key-----") (to_lower t)
    × ¬ Holds (text "aws_secret_access_key") (to_lower t)
    × ¬ Holds (text "xoxb-") (to_lower t)
    × ¬ Holds (text "password=") (to_lower t)
    × ¬ Holds (text "token=") (to_lower t)

abbrev pub IsSafeFile : Text → PatchFile → Type 0
IsSafeFile diff file =
    IsSafePath file.path
    × IsUnguarded (slashes file.path)
    × (file.generated ≡ false)
    × (file.binary ≡ false)
    × IsReadable file.content
    × (length file.content ≤ 262144)
    × IsFreeOfSecrets file.content
    × IsFreeOfSecrets diff
