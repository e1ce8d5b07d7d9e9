-- ===== src/Store/Attempts/Delays.antt =====
-- crates/pip-store/src/lib.rs: the delay of an effect whose provider was out.
use agent_p1p.Prelude.{
  ℕ, zero, suc, ◌+◌, ◌^◌, ◌≤◌, ◌≡◌, refl, sym, subst, arith, String, true, some, List, ◌==◌, ok,
}
use agent_p1p.Store.{OutboxRow}
use agent_p1p.Store.Statements.{update, count}
use agent_p1p.Store.Outbox.{is_held, with_lease}
use agent_p1p.Store.Outbox.Rows.{IsUnique, update-IsUnique}
use agent_p1p.Store.Outbox.Once.{update-once}
use agent_p1p.Store.Moves.Leases.{IsTaken}
use agent_p1p.Store.Attempts.Cooldown.{min, outage_delay, next_retry, hold_effect}

-- 2 ^ n, of a number up to 6.
power_bounds : (n : ℕ) → n ≤ 6 → (1 ≤ 2 ^ n) × (2 ^ n ≤ 64)
power_bounds zero h = (omega arith, omega arith)
power_bounds (suc zero) h = (omega arith, omega arith)
power_bounds (suc (suc zero)) h = (omega arith, omega arith)
power_bounds (suc (suc (suc zero))) h = (omega arith, omega arith)
power_bounds (suc (suc (suc (suc zero)))) h = (omega arith, omega arith)
power_bounds (suc (suc (suc (suc (suc zero))))) h = (omega arith, omega arith)
power_bounds (suc (suc (suc (suc (suc (suc zero)))))) h = (omega arith, omega arith)
power_bounds (suc (suc (suc (suc (suc (suc (suc n))))))) h = absurd (omega arith)

-- The delay grows from a minute to an hour.
pub outage_delay_bounds :
    (outages : ℕ) → (60 ≤ outage_delay outages) × (outage_delay outages ≤ 3600)
outage_delay_bounds outages =
    let (low, high) = power_bounds (min outages 6) (ground arith) in (ground arith, ground arith)

pub next_retry_lem :
    (now outages r : ℕ) → next_retry now outages ≡ ok r → r ≡ now + outage_delay outages
unfolding next_retry
next_retry_lem now outages r h = ground arith

pub hold_effect_lem :
    (rows rows' : List OutboxRow) (id owner : String) (retry_at : ℕ) (name : String)
    → hold_effect rows id owner retry_at name ≡ ok rows'
    → ((count (is_held id owner) rows == 1) ≡ true)
      × (rows' ≡ update (is_held id owner) (with_lease (some (owner, retry_at))) rows)
unfolding hold_effect
hold_effect_lem rows rows' id owner retry_at name h = ground arith

-- The effect that is held cannot be claimed up to the time it is held to.
pub hold_effect-IsTaken :
    (Value : Type 0) (rows rows' : List OutboxRow) (id owner : String) (retry_at : ℕ)
    (name : String)
    → IsUnique rows
    → hold_effect rows id owner retry_at name ≡ ok rows'
    → IsTaken Value id retry_at rows'
hold_effect-IsTaken Value rows rows' id owner retry_at name unique h =
    let (one, after) = hold_effect_lem rows rows' id owner retry_at name h in
    subst (IsTaken Value id retry_at) (sym after) (
      update-once id _ (is_held id owner) (with_lease (some (owner, retry_at))) rows (λ r. refl)
        (λ r this. ground arith) (λ r this. ground arith) unique one)

pub hold_effect-IsUnique :
    (rows rows' : List OutboxRow) (id owner : String) (retry_at : ℕ) (name : String)
    → hold_effect rows id owner retry_at name ≡ ok rows'
    → IsUnique rows
    → IsUnique rows'
hold_effect-IsUnique rows rows' id owner retry_at name h unique =
    let (_, after) = hold_effect_lem rows rows' id owner retry_at name h in
    subst IsUnique (sym after) (
      update-IsUnique (is_held id owner) (with_lease (some (owner, retry_at))) rows (λ r. refl)
        unique)
