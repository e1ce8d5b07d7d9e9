-- ===== src/Core/StateMachine/Wire/RoundTrip.antt =====
-- Printing and parsing the wire names undo one another.
use text.Mathlib.TextEquality.{eq_iff}
use agent_p1p.Prelude.{
  String, ◌≡◌, refl, sym, ◌∙◌, ok_injective, ◌↔◌, some, List, [], ◌∷◌, All, arith, ok, ok_or-eq-ok,
}
use agent_p1p.Core.StateMachine.{CaseState, planning, Event, plan_recorded}
use agent_p1p.Core.StateMachine.Wire.{
  find_wire, state_wires, event_wires, state_name, event_name, parse_state, parse_event,
}

-- A name that the table finds is the printed name of the variant.
find_wire_sound {ℓ} :
    {A : Type ℓ} (name : A → String) (s : String) (table : List (String × A)) (a : A)
    → All (λ row. name row.1 ≡ row.0) table
    → find_wire s table ≡ some a
    → name a ≡ s
unfolding find_wire
find_wire_sound name s [] a rows h = cc
find_wire_sound name s ((w, v) ∷ table) a (row, rows) h =
    ground (arith, eq_iff s w, find_wire_sound name s table a rows)

state_rows : All (λ row. state_name row.1 ≡ row.0) state_wires
unfolding state_name
state_rows = ground arith

event_rows : All (λ row. event_name row.1 ≡ row.0) event_wires
unfolding event_name
event_rows = ground arith

parse_state-state_name : (s : CaseState) → parse_state (state_name s) ≡ ok s
unfolding parse_state state_name
parse_state-state_name planning = refl
parse_state-state_name _ = refl

parse_event-event_name : (e : Event) → parse_event (event_name e) ≡ ok e
unfolding parse_event event_name
parse_event-event_name plan_recorded = refl
parse_event-event_name _ = refl

-- A text is read as a case state exactly if it is the printed name of that state.
pub parse_state_iff :
    (text : String) (s : CaseState) → (parse_state text ≡ ok s) ↔ (text ≡ state_name s)
unfolding parse_state
parse_state_iff text s = (
  λ h. sym (find_wire_sound state_name text state_wires s state_rows (ok_or-eq-ok _ _ h)),
  λ e. rw e (parse_state-state_name s),
)

-- A text is read as an event exactly if it is the printed name of that event.
pub parse_event_iff :
    (text : String) (e : Event) → (parse_event text ≡ ok e) ↔ (text ≡ event_name e)
unfolding parse_event
parse_event_iff text e = (
  λ h. sym (find_wire_sound event_name text event_wires e event_rows (ok_or-eq-ok _ _ h)),
  λ p. rw p (parse_event-event_name e),
)

-- Different states have different names.
pub state_name-injective : (s s' : CaseState) → state_name s ≡ state_name s' → s ≡ s'
state_name-injective s s' h =
    ok_injective
      (sym ((parse_state_iff (state_name s) s).1 refl) ∙ (parse_state_iff (state_name s) s').1 h)
