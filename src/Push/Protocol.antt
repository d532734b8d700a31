-- ===== src/Push/Protocol.antt =====
-- The life of a transaction as a state machine over what the database sees, apart from the code.
use migra_go.Prelude.{Bool, true, false, Option, none, some, List, [], ◌∷◌, ◌++◌, ◌≡◌, refl}
use migra_go.Push.Session.{Event, begin, exec, commit, commit_failed, rollback, close}

pub data Phase : Type 0 where
  idle : Phase
  open_phase : Phase
  committed : Phase
  rolled_back : Phase
  closed : (with_commit : Bool) → Phase

-- What one event makes of a phase; `none` where the database would not expect it.
abbrev pub advance : Phase → Event → Option Phase
advance idle begin = some open_phase
advance idle close = some (closed false)
advance open_phase (exec idx sql) = some open_phase
advance open_phase commit_failed = some open_phase
advance open_phase commit = some committed
advance open_phase rollback = some rolled_back
advance committed close = some (closed true)
advance rolled_back close = some (closed false)
advance _ _ = none

abbrev pub advance? : Option Phase → Event → Option Phase
advance? none e = none
advance? (some p) e = advance p e

-- The phase after a sequence of events.
unfoldable pub follow : Option Phase → List Event → Option Phase
follow p [] = p
follow p (e ∷ es) = follow (advance? p e) es

pub follow-append_one :
    (p : Option Phase) (es : List Event) (e : Event)
    → follow p (es ++ e ∷ []) ≡ advance? (follow p es) e
unfolding follow
follow-append_one p [] e = refl
follow-append_one p (x ∷ es) e = follow-append_one (advance? p x) es e
