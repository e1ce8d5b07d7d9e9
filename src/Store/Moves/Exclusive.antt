-- ===== src/Store/Moves/Exclusive.antt =====
-- crates/pip-store/src/lib.rs: the leases and deliveries of an effect, over the life of a ledger.
use agent_p1p.Prelude.{
  some_injective, ℕ, ◌+◌, ◌≤◌, ◌≡◌, ◌≢◌, refl, sym, subst, ap, arith, String, Option, some, List,
  ok, inl, inr,
}
use agent_p1p.Controller.Ledger.{EffectPayload}
use agent_p1p.Store.{OutboxRow, Handle, Stored}
use agent_p1p.Store.Statements.{update}
use agent_p1p.Store.Checks.{Codec, Guards}
use agent_p1p.Store.Outbox.{
  ClaimedEffect, is_leasable, is_held_at, with_lease, deliver, claim_effect_inner,
  acknowledge_effect,
}
use agent_p1p.Store.Outbox.Facts.{
  claim_effect_inner-IsClaim, acknowledge_effect_lem, acknowledge_effect-count,
}
use agent_p1p.Store.Outbox.Rows.{IsUnique}
use agent_p1p.Store.Outbox.Once.{update-once, Each-mono}
use agent_p1p.Store.Moves.{Move, Reach, here, next, empty_handle}
use agent_p1p.Store.Moves.Rows.{Move-outbox}
use agent_p1p.Store.Moves.Leases.{
  IsTaken, IsTaken-IsClosed, IsOver, IsOver-IsClosed, is_claimable_mono, claim_effect_inner-held,
  Undisturbed, taken_spared, over_spared, Move-IsUnique,
}

module _ {Value : Type 0} (codec : Codec Value) (guards : Guards Value)
    (read : OutboxRow → Stored EffectPayload) where
  -- Moves that neither release an effect nor claim anything after a time.
  pub data During (id : String) (at : ℕ) (h : Handle Value) : Handle Value → Type 0 where
    starts : During id at h h
    goes_on :
        {g h' : Handle Value}
        → During id at h g
        → (move : Move codec guards read g h') → Undisturbed codec guards read id at move
        → During id at h h'

  pub During-IsTaken :
      (id : String) (at : ℕ) {h h' : Handle Value}
      → During id at h h'
      → IsTaken Value id at h.tables.outbox
      → IsTaken Value id at h'.tables.outbox
  During-IsTaken id at starts taken = taken
  During-IsTaken id at (goes_on during move quiet) taken =
      Move-outbox (IsTaken Value id at) (IsTaken-IsClosed Value id at) codec guards read move
        (taken_spared codec guards read id at move quiet) (During-IsTaken id at during taken)

  Reach-IsOver :
      {h h' : Handle Value} (id : String)
      → Reach codec guards read h h'
      → IsOver Value id h.tables.outbox
      → IsOver Value id h'.tables.outbox
  Reach-IsOver id here over = over
  Reach-IsOver id (next reach move) over =
      Move-outbox (IsOver Value id) (IsOver-IsClosed Value id) codec guards read move
        (over_spared codec guards read id move) (Reach-IsOver id reach over)

  Reach-IsUnique :
      {h h' : Handle Value}
      → Reach codec guards read h h'
      → IsUnique h.tables.outbox
      → IsUnique h'.tables.outbox
  Reach-IsUnique here unique = unique
  Reach-IsUnique (next reach move) unique =
      Move-IsUnique codec guards read move (Reach-IsUnique reach unique)

  reached-IsUnique :
      (h : Handle Value) → Reach codec guards read empty_handle h → IsUnique h.tables.outbox
  reached-IsUnique h reach = Reach-IsUnique reach (λ id. omega arith)

  claim_effect_inner-IsTaken :
      (h h' : Handle Value) (owner : String) (now seconds : ℕ) (types : Option (List String))
      (repository : Option ℕ) (key : Option String) (claim : ClaimedEffect)
      → IsUnique h.tables.outbox
      → claim_effect_inner read h owner now seconds types repository key ≡ ok (h', some claim)
      → IsTaken Value claim.effect_id (now + seconds) h'.tables.outbox
  claim_effect_inner-IsTaken h h' owner now seconds types repository key claim unique e =
      elim (claim_effect_inner-IsClaim read h owner now seconds types repository key h' (some claim)
        e) [
          | inl (_, is_none) ↦ cc
          | inr (row, _, leased) ↦
              let id_is = ap (λ c. c.effect_id) (some_injective leased.claim_is) in
              subst (λ g. IsTaken Value claim.effect_id (now + seconds) g.tables.outbox)
                (sym leased.handle_after)
                (subst
                  (λ id. IsTaken Value id (now + seconds) (
                    update (is_leasable row.effect_id now)
                      (with_lease (some (owner, now + seconds))) h.tables.outbox))
                  (sym id_is)
                  (update-once row.effect_id _ (is_leasable row.effect_id now)
                    (with_lease (some (owner, now + seconds))) h.tables.outbox (λ r. refl)
                    (λ r this. ground arith) (λ r this. ground arith) unique leased.is_one))
        ]

  acknowledge_effect-IsOver :
      (h h' : Handle Value) (id owner : String) (now : ℕ)
      → IsUnique h.tables.outbox
      → acknowledge_effect h id owner now ≡ ok h'
      → IsOver Value id h'.tables.outbox
  acknowledge_effect-IsOver h h' id owner now unique e =
      subst (λ g. IsOver Value id g.tables.outbox)
        (sym (acknowledge_effect_lem h h' id owner now e))
        (update-once id _ (is_held_at id owner now) (deliver now) h.tables.outbox (λ r. refl)
          (λ r this. ground arith) (λ r this. refl) unique
          (acknowledge_effect-count h h' id owner now e))

  -- In a ledger that began empty, an effect that was claimed is not claimed again, by anyone, up to
  -- the end of its lease, whatever moves of Store/Moves.antt were made in between but a release of
  -- the effect or a claim at a time after that end.
  pub lease_is_exclusive :
      (h h1 h2 h3 : Handle Value) (owner owner' : String) (now now' seconds seconds' : ℕ)
      (types types' : Option (List String)) (repository repository' : Option ℕ)
      (key key' : Option String) (claim claim' : ClaimedEffect)
      → Reach codec guards read empty_handle h
      → claim_effect_inner read h owner now seconds types repository key ≡ ok (h1, some claim)
      → During claim.effect_id (now + seconds) h1 h2
      → now' ≤ now + seconds
      → claim_effect_inner read h2 owner' now' seconds' types' repository' key'
        ≡ ok (h3, some claim')
      → claim'.effect_id ≢ claim.effect_id
  lease_is_exclusive h h1 h2 h3 owner owner' now now' seconds seconds' types types' repository
        repository' key key' claim claim' reach first during earlier =
      let (known, each) = During-IsTaken claim.effect_id (now + seconds) during (
        claim_effect_inner-IsTaken h h1 owner now seconds types repository key claim
          (reached-IsUnique h reach) first) in
      claim_effect_inner-held read h2 h3 owner' claim.effect_id now' seconds' types' repository'
        key' claim'
        (
          known,
          Each-mono claim.effect_id _ _ h2.tables.outbox
              (λ row. is_claimable_mono now' (now + seconds) row earlier) each,
        )

  -- In a ledger that began empty, an effect that was acknowledged is never claimed again, whatever
  -- moves of Store/Moves.antt were made in between.
  pub delivery_is_final :
      (h h1 h2 h3 : Handle Value) (id owner owner' : String) (now now' seconds : ℕ)
      (types : Option (List String)) (repository : Option ℕ) (key : Option String)
      (claim : ClaimedEffect)
      → Reach codec guards read empty_handle h
      → acknowledge_effect h id owner now ≡ ok h1
      → Reach codec guards read h1 h2
      → claim_effect_inner read h2 owner' now' seconds types repository key ≡ ok (h3, some claim)
      → claim.effect_id ≢ id
  delivery_is_final h h1 h2 h3 id owner owner' now now' seconds types repository key claim reach
        first later =
      let (known, each) =
        Reach-IsOver id later
          (acknowledge_effect-IsOver h h1 id owner now (reached-IsUnique h reach) first) in
      claim_effect_inner-held read h2 h3 owner' id now' seconds types repository key claim
        (known, Each-mono id _ _ h2.tables.outbox (λ row over. rw over refl) each)
