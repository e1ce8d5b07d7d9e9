-- ===== src/Store/Heartbeats.antt =====
-- crates/pip-store/src/control.rs: the heartbeats of the controllers. The table is a list of rows,
-- one for each repository.
use agent_p1p.Prelude.{
  ℕ, ◌*◌, ◌-◌, ◌≡◌, sym, ◌∙◌, arith, Bool, false, Option, none, some, List, [], ◌∷◌, leb, ◌==◌,
  if◌then◌else◌, ok, ◌>>◌, fail_if, >>-eq-ok, ==_iff, ok_injective, ap,
}
use agent_p1p.Store.{database, read_only, Stored, sql_u64}

pub record Heartbeat : Type 0 where
  pub repository_id : ℕ
  pub last_cycle_at : ℕ
  pub running_since : ℕ

pub record Heartbeats : Type 0 where
  pub is_read_only : Bool
  pub rows : List Heartbeat

abbrev pub controller_gap_seconds : ℕ
controller_gap_seconds = 10 * 60

-- `WHERE repository_id = ?1`
abbrev pub heartbeat_of : ℕ → List Heartbeat → Option Heartbeat
heartbeat_of id [] = none
heartbeat_of id (row ∷ rows) = if row.repository_id == id then some row else heartbeat_of id rows

-- `INSERT … ON CONFLICT(repository_id) DO UPDATE`
abbrev pub upsert : Heartbeat → List Heartbeat → List Heartbeat
upsert new [] = new ∷ []
upsert new (row ∷ rows) =
    let rest = upsert new rows in
    if row.repository_id == new.repository_id then new ∷ rows else row ∷ rest

-- Subtraction on ℕ stops at 0, as `saturating_sub` does.
abbrev pub since_of : Option Heartbeat → ℕ → ℕ
since_of none now = now
since_of (some row) now =
    if leb (now - row.last_cycle_at) controller_gap_seconds then row.running_since else now

unfoldable pub record_controller_cycle : Heartbeats → ℕ → ℕ → Stored (Heartbeats × ℕ)
record_controller_cycle t repository_id now = do
  fail_if t.is_read_only read_only
  sql_u64 repository_id
  sql_u64 now
  sql_u64 (since_of (heartbeat_of repository_id t.rows) now)
  fail_if (repository_id == 0) database
  ok (
    record t {
      rows =
          upsert
            (record {
              repository_id = repository_id;
              last_cycle_at = now;
              running_since = since_of (heartbeat_of repository_id t.rows) now;
            })
            t.rows;
    },
    since_of (heartbeat_of repository_id t.rows) now,
  )

abbrev pub running_since_of : Option Heartbeat → Option ℕ
running_since_of none = none
running_since_of (some row) = some row.running_since

unfoldable pub controller_running_since : Heartbeats → ℕ → Stored (Option ℕ)
controller_running_since t repository_id = do
  sql_u64 repository_id
  ok (running_since_of (heartbeat_of repository_id t.rows))

heartbeat_of-upsert :
    (new : Heartbeat) (rows : List Heartbeat)
    → heartbeat_of new.repository_id (upsert new rows) ≡ some new
heartbeat_of-upsert new [] = ground (arith, ==_iff new.repository_id new.repository_id)
heartbeat_of-upsert new (row ∷ rows) =
    ground (arith, ==_iff new.repository_id new.repository_id, heartbeat_of-upsert new rows)

heartbeat_of-upsert_other :
    (new : Heartbeat) (id : ℕ) (rows : List Heartbeat)
    → (new.repository_id == id) ≡ false
    → heartbeat_of id (upsert new rows) ≡ heartbeat_of id rows
heartbeat_of-upsert_other new id [] other = ground arith
heartbeat_of-upsert_other new id (row ∷ rows) other = ground (
  arith,
  heartbeat_of-upsert_other new id rows other,
  ==_iff row.repository_id id,
  ==_iff row.repository_id new.repository_id,
  ==_iff new.repository_id id,
)

-- What a cycle returns is what is read afterwards.
cycle_is_read :
    (t t' : Heartbeats) (id now since : ℕ)
    → record_controller_cycle t id now ≡ ok (t', since)
    → controller_running_since t' id ≡ ok (some since)
unfolding record_controller_cycle controller_running_since
cycle_is_read t t' id now since h =
    let (_, h1) = >>-eq-ok (fail_if t.is_read_only read_only) _ h in
    let (fits, h2) = >>-eq-ok (sql_u64 id) _ h1 in
    let (_, h3) = >>-eq-ok (sql_u64 now) _ h2 in
    let (_, h4) = >>-eq-ok (sql_u64 (since_of (heartbeat_of id t.rows) now)) _ h3 in
    let (_, h5) = >>-eq-ok (fail_if (id == 0) database) _ h4 in
    let same = ok_injective h5 in
    let found =
      heartbeat_of-upsert
        (record {
          repository_id = id;
          last_cycle_at = now;
          running_since = since_of (heartbeat_of id t.rows) now;
        })
        t.rows in
    let read = ap (λ p. heartbeat_of id p.0.rows) (sym same) ∙ found in
    rw (fits, read) (ap (λ p. ok (some p.1)) same)
