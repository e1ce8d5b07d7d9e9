-- ===== src/Core/Domain.antt =====
-- crates/pip-core/src/domain.rs: identifiers, their syntax, and the case key.
pub mod Syntax
pub mod Identity
use Prim.Native.String
use agent_p1p.Prelude.{
  ℕ, zero, suc, ◌+◌, ◌/◌, ◌%◌, ◌^◌, ◌<◌, String, Bool, true, false, not, ◌&&◌, ◌||◌, Option, none,
  some, List, [], ◌∷◌, ◌++◌, arith, ltb, leb, ◌==◌, if◌then◌else◌, all, is_empty, length, is_some,
  Result, ok, err,
}
use agent_p1p.Prelude.Text.{bytes, is_ascii_digit, is_ascii_alphanumeric}

pub record IdentifierError : Type 0 where
  pub kind : String
  pub value : String

-- The bytes that `valid_slug` accepts: ASCII letters and digits, `.`, `_` and `-`.
abbrev pub is_slug_byte : ℕ → Bool
is_slug_byte b = is_ascii_alphanumeric b || b == b'.' || b == b'_' || b == b'-'

-- On the bytes of the text.
abbrev pub valid_slug : List ℕ → Bool
valid_slug value = not (is_empty value) && all is_slug_byte value

-- `split(c)` on bytes; there is always a first part.
abbrev pub split_from : ℕ → List ℕ → List ℕ → List (List ℕ)
split_from c cur [] = cur ∷ []
split_from c cur (b ∷ rest) =
    let closed = split_from c [] rest in
    let longer = split_from c (cur ++ b ∷ []) rest in if b == c then cur ∷ closed else longer

abbrev pub split : ℕ → List ℕ → List (List ℕ)
split c value = split_from c [] value

-- `next().unwrap_or_default()`, and the rest.
abbrev next_part : List (List ℕ) → List ℕ × List (List ℕ)
next_part [] = ([], [])
next_part (p ∷ ps) = (p, ps)

-- The parts of a slug are refused: not two, or one of them no slug.
bad_slug_parts : List (List ℕ) → Bool
bad_slug_parts parts =
    let (owner, rest) = next_part parts in
    let (repository, more) = next_part rest in
    not (valid_slug owner) || not (valid_slug repository) || not (is_empty more)

-- A validated identifier keeps the text that it was read from.
unfoldable pub parse_repository_slug : String → Result String IdentifierError
unfolding bad_slug_parts
parse_repository_slug value =
    if bad_slug_parts (split b'/' (bytes value))
    then err (record { kind = "repository slug"; value = value })
    else ok value

-- `textual_id!`: `RunId`, `FindingId` and `EventId` differ in the kind that their errors name.
unfoldable pub parse_textual_id : String → String → Result String IdentifierError
parse_textual_id kind value =
    if not (valid_slug (bytes value)) then err (record { kind = kind; value = value }) else ok value

abbrev pub is_lower_hex : ℕ → Bool
is_lower_hex b = is_ascii_digit b || (leb b'a' b && leb b b'f')

-- A Git SHA is its forty bytes.
unfoldable pub parse_git_sha : String → Result (List ℕ) IdentifierError
parse_git_sha value =
    if not (length (bytes value) == 40) || not (all is_lower_hex (bytes value))
    then err (record { kind = "Git SHA"; value = value })
    else ok (bytes value)

-- `NonZeroU32::new`, `NonZeroU64::new`
abbrev pub non_zero : ℕ → Option ℕ
non_zero n = if n == 0 then none else some n

abbrev pub u32_max : ℕ
u32_max = 4294967295

abbrev pub u64_max : ℕ
u64_max = 18446744073709551615

-- `checked_add` on `u64`
abbrev pub checked_add_u64 : ℕ → ℕ → Option ℕ
checked_add_u64 a b = if leb (a + b) u64_max then some (a + b) else none

-- `checked_add` on `u32`
abbrev pub checked_add_u32 : ℕ → ℕ → Option ℕ
checked_add_u32 a b = if leb (a + b) u32_max then some (a + b) else none

-- `StateRevision::checked_next`
unfoldable pub checked_next : ℕ → Option ℕ
checked_next revision = elim (checked_add_u64 revision 1) [ none ↦ none | some n ↦ non_zero n ]

-- The identifiers are non-zero numbers: `RepositoryId` and `IssueNumber` u64, `WorkflowVersion` u32.
pub record CaseId : Type 0 where
  pub repository : ℕ
  pub issue : ℕ
  pub workflow : ℕ

-- `derive(PartialEq)`
abbrev pub same_case : CaseId → CaseId → Bool
same_case a b = a.repository == b.repository && a.issue == b.issue && a.workflow == b.workflow

-- A decimal digit, as `write!` prints it.
digit : ℕ → String
digit d =
    if d == 0
    then "0"
    else if d == 1
    then "1"
    else if d == 2
    then "2"
    else if d == 3
    then "3"
    else if d == 4
    then "4"
    else if d == 5
    then "5"
    else if d == 6
    then "6"
    else if d == 7
    then "7"
    else if d == 8
    then "8"
    else "9"

-- A number in decimal; a number is more than enough rounds for itself.
decimal_from : ℕ → ℕ → String
decimal_from zero n = digit n
decimal_from (suc rounds) n =
    let front = decimal_from rounds (n / 10) in
    if ltb n 10 then digit n else String.◌++◌ front (digit (n % 10))

unfoldable pub decimal : ℕ → String
unfolding decimal_from digit
decimal n = decimal_from n n

-- `Display` of a case identity: the key of the case in the ledger.
unfoldable pub case_key : CaseId → String
case_key c = String.◌++◌ "repo:" (
    String.◌++◌ (decimal c.repository)
      (String.◌++◌ "#" (String.◌++◌ (decimal c.issue) (String.◌++◌ "@" (decimal c.workflow)))))
