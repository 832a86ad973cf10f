-- ===== src/Firewall/Activation/Flow.antt =====
-- A run of an operation of the activation service: the world, the result so far, the events that
-- the journal has taken, and the first audit failure. A `return` of the source stops the run.
use sasd_gatehold.Prelude.{Bool, true, false, List, [], ◌∷◌, ◌++◌, is_empty, if◌then◌else◌}
use sasd_gatehold.Text.{Bytes}
use sasd_gatehold.Host.{Os, World, M}
use sasd_gatehold.Logging.Event.{Event}
use sasd_gatehold.Logging.Journal
use sasd_gatehold.Logging.Journal.{JournalResult, journal_ok}

pub record Run (R : Type 0) : Type 0 where
  pub world : World
  pub result : R
  pub journaled : List Event
  pub audit_event_id : Bytes
  pub audit_message : Bytes

pub data Flow (A : Type 0) : Type 0 where
  next : A → Flow A
  stop : Flow A

-- An action of an operation whose result is of type `R`.
abbrev pub Act : Type 0 → Type 0 → Type 0
Act R A = Run R → Flow A × Run R

abbrev pub then_run : {R A B : Type 0} → Flow A → (A → Act R B) → Act R B
then_run (next a) f s = f a s
then_run stop f s = (stop, s)

infixl 5 ◌>>=◌ ◌>>◌
unfoldable pub ◌>>=◌ : {R A B : Type 0} → Act R A → (A → Act R B) → Act R B
◌>>=◌ m f s = let (r, s') = m s in then_run r f s'

abbrev pub ◌>>◌ : {R B : Type 0} → Act R (Unit {0}) → Act R B → Act R B
m >> k = m >>= λ _. k

module _ {R : Type 0} where
  unfoldable pub pure : {A : Type 0} → A → Act R A
  pure a s = (next a, s)

  -- A call that the run makes.
  unfoldable pub lift : {A : Type 0} → M A → Act R A
  lift m s = let (a, w) = m s.world in (next a, record s { world = w })

  unfoldable pub asks : {A : Type 0} → (Run R → A) → Act R A
  asks f s = (next (f s), s)

  -- An assignment to fields of the result.
  unfoldable pub assign : (R → R) → Act R (Unit {0})
  assign f s = let r = s.result in (next tt, record s { result = f r })

  -- Set the result, and return it.
  unfoldable pub return_with : {A : Type 0} → (R → R) → Act R A
  return_with f s = let r = s.result in (stop, record s { result = f r })

  -- The first failure is kept.
  unfoldable pub note_journal : Bool → Event → JournalResult → Run R → Flow Bool × Run R
  note_journal true e r s =
      (next true, let js = s.journaled in record s { journaled = js ++ e ∷ [] })
  note_journal false e r s =
      let id = s.audit_event_id in
      let message = s.audit_message in
      (
        next false,
        record s {
          audit_event_id = if is_empty id then r.event_id else id;
          audit_message = if is_empty id then r.message else message;
        },
      )

  -- The lambda `append` of `activate` and `recover_pending`.
  unfoldable pub append : Os → Event → Act R Bool
  append os e s =
      let (r, w) = Journal.append os e s.world in
      note_journal (journal_ok r) e r (record s { world = w })
