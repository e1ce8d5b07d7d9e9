-- ===== src/Store/Commands.antt =====
-- crates/pip-store/src/control.rs: the commands that humans give on a case. The table is a list of
-- rows with the newest first.
use text.Mathlib.Text.{◌==◌ as str_eq}
use agent_p1p.Prelude.{
  ℕ, ◌≡◌, ◌≢◌, refl, sym, subst, arith, String, Bool, true, false, not, ◌&&◌, ◌||◌, Option, none,
  some, List, [], ◌∷◌, ltb, ◌==◌, if◌then◌else◌, any, is_some, ==_iff, >>-eq-ok, length, ok, err,
  ◌>>◌, fail_if,
}
use agent_p1p.Prelude.Text.{not_blank, bytes}
use agent_p1p.Controller.Ledger.Batch.{ApplyResult}
use agent_p1p.Store.{database, CaseRow, invalid_input, read_only, Stored, sql_u64}
use agent_p1p.Store.Statements.{query_case, update, count}

pub record ControlCommandInput : Type 0 where
  pub comment_id : ℕ
  pub repository_id : ℕ
  pub thread_number : ℕ
  pub case_key : Option String
  pub actor_id : ℕ
  pub command : String
  pub guidance : String
  pub received_at : ℕ

pub data ControlCommandStatus : Type 0 where
  pending applied ignored : ControlCommandStatus

-- `ControlCommand`, with the columns that a resolution writes.
pub record ControlCommand : Type 0 where
  pub input : ControlCommandInput
  pub status : ControlCommandStatus
  pub outcome : Option String
  pub resolved_at : Option ℕ

-- The handle of the store, with this table and the one that it refers to.
pub record Commands : Type 0 where
  pub is_read_only : Bool
  pub cases : List CaseRow
  pub rows : List ControlCommand

abbrev pub max_guidance_bytes : ℕ
max_guidance_bytes = 8192

abbrev pub is_pending : ControlCommandStatus → Bool
is_pending pending = true
is_pending _ = false

abbrev pub has_comment : ℕ → ControlCommand → Bool
has_comment id row = row.input.comment_id == id

abbrev pub bad_command : ControlCommandInput → Bool
bad_command input =
    input.comment_id == 0
    || input.repository_id == 0
    || input.thread_number == 0
    || input.actor_id == 0
    || not (any (str_eq input.command) ("RESUME" ∷ "REPLAN" ∷ "ABANDON" ∷ []))
    || ltb max_guidance_bytes (length (bytes input.guidance))

abbrev pub new_command : ControlCommandInput → ControlCommand
new_command input = record { input = input; status = pending; outcome = none; resolved_at = none }

-- `case_key TEXT REFERENCES cases(case_key)`
abbrev pub has_case : List CaseRow → Option String → Bool
has_case cases none = true
has_case cases (some key) = is_some (query_case cases key)

-- `INSERT OR IGNORE` with the key `comment_id`; a case that is not there is refused.
abbrev pub insert_or_ignore : Commands → ControlCommandInput → Stored (Commands × ApplyResult)
insert_or_ignore t input =
    if any (has_comment input.comment_id) t.rows
    then ok (t, ApplyResult.replayed)
    else if has_case t.cases input.case_key
    then ok (record t { rows = new_command input ∷ t.rows }, ApplyResult.applied)
    else err database

-- What is asked of a command before it is inserted.
unfoldable pub check_command : Bool → ControlCommandInput → Stored (Unit {0})
check_command is_read_only input = do
  fail_if is_read_only read_only
  fail_if (bad_command input) (invalid_input "invalid control command")
  sql_u64 input.comment_id
  sql_u64 input.repository_id
  sql_u64 input.thread_number
  sql_u64 input.actor_id
  sql_u64 input.received_at

unfoldable pub record_control_command :
    Commands → ControlCommandInput → Stored (Commands × ApplyResult)
record_control_command t input = do check_command t.is_read_only input; insert_or_ignore t input

abbrev pub is_pending_row : ℕ → ControlCommand → Bool
is_pending_row id row = has_comment id row && is_pending row.status

abbrev pub resolve_row : ControlCommandStatus → String → ℕ → ControlCommand → ControlCommand
resolve_row status outcome now row = record row {
  status = status;
  outcome = some outcome;
  resolved_at = some now;
}

unfoldable pub resolve_control_command :
    Commands → ℕ → ControlCommandStatus → String → ℕ → Stored Commands
resolve_control_command t comment_id status outcome now = do
  fail_if t.is_read_only read_only
  fail_if (is_pending status || not (not_blank outcome))
      (invalid_input "a resolved status and outcome are required")
  sql_u64 now
  sql_u64 comment_id
  fail_if (not (count (is_pending_row comment_id) t.rows == 1))
      (invalid_input "control command is not pending")
  ok (record t {
    rows = update (is_pending_row comment_id) (resolve_row status outcome now) t.rows;
  })

insert_or_ignore_twice :
    (t t' : Commands) (input : ControlCommandInput) (result : ApplyResult)
    → insert_or_ignore t input ≡ ok (t', result)
    → (t'.is_read_only ≡ t.is_read_only)
      × (insert_or_ignore t' input ≡ ok (t', ApplyResult.replayed))
insert_or_ignore_twice t t' input result h =
    ground (arith, ==_iff input.comment_id input.comment_id)

-- A command that was recorded is recorded again as a replay that changes nothing.
recorded_once :
    (t t' : Commands) (input : ControlCommandInput) (result : ApplyResult)
    → record_control_command t input ≡ ok (t', result)
    → record_control_command t' input ≡ ok (t', ApplyResult.replayed)
unfolding record_control_command
recorded_once t t' input result h =
    let (checked, inserted) = >>-eq-ok (check_command t.is_read_only input) _ h in
    let (mode, again) = insert_or_ignore_twice t t' input result inserted in
    let checked' = subst (λ m. check_command m input ≡ ok tt) (sym mode) checked in
    rw checked' again

resolved_rows :
    (id : ℕ) (status : ControlCommandStatus) (outcome : String) (now : ℕ)
    (rows : List ControlCommand)
    → is_pending status ≡ false
    → count (is_pending_row id) (update (is_pending_row id) (resolve_row status outcome now) rows)
      ≡ 0
resolved_rows id status outcome now [] h = refl
resolved_rows id status outcome now (row ∷ rows) h =
    ground (arith, resolved_rows id status outcome now rows h)

-- A command that was resolved is not resolved again.
resolved_once :
    (t t' : Commands) (id : ℕ) (status status' : ControlCommandStatus) (outcome outcome' : String)
    (now now' : ℕ)
    → resolve_control_command t id status outcome now ≡ ok t'
    → (t'' : Commands) → resolve_control_command t' id status' outcome' now' ≢ ok t''
unfolding resolve_control_command
resolved_once t t' id status status' outcome outcome' now now' h t'' again =
    ground (arith, resolved_rows id status outcome now t.rows)
