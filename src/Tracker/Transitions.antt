-- ===== src/Tracker/Transitions.antt =====
-- The stage machine of backend/src/modules/tracker/tracker.service.ts.
use rolebrief.Common.{Bool, ◌||◌, List, [], ◌∷◌, any, ◌≡◌, true, ◌↔◌, ◌≢◌, refl, arith}
use rolebrief.Tracker.Types.{
  Stage, saved, applied, interviewing, offer, rejected, withdrawn, stage_eq,
}

-- `ALLOWED_STAGE_TRANSITIONS`
unfoldable pub allowed_stage_transitions : Stage → List Stage
allowed_stage_transitions saved = applied ∷ withdrawn ∷ []
allowed_stage_transitions applied = saved ∷ interviewing ∷ rejected ∷ withdrawn ∷ []
allowed_stage_transitions interviewing = applied ∷ offer ∷ rejected ∷ withdrawn ∷ []
allowed_stage_transitions offer = interviewing ∷ rejected ∷ withdrawn ∷ []
allowed_stage_transitions rejected = applied ∷ interviewing ∷ []
allowed_stage_transitions withdrawn = saved ∷ applied ∷ []

unfoldable pub validate_transition : Stage → Stage → Bool
unfolding allowed_stage_transitions
validate_transition from to = stage_eq from to || any (stage_eq to) (allowed_stage_transitions from)

pub stage_eq_iff : (a b : Stage) → (stage_eq a b ≡ true) ↔ (a ≡ b)
stage_eq_iff a b = ground arith

pub validate_transition_refl : (a : Stage) → validate_transition a a ≡ true
unfolding validate_transition
validate_transition_refl a = ground arith

-- A chain of moves that `validateTransition` accepts.
pub data Reaches (from : Stage) : Stage → Type 0 where
  stay : Reaches from from
  move : {mid to : Stage} → Reaches from mid → validate_transition mid to ≡ true → Reaches from to

to_applied : (from : Stage) → Reaches from applied
unfolding validate_transition
to_applied saved = move stay refl
to_applied applied = stay
to_applied interviewing = move stay refl
to_applied offer = move {mid = interviewing} (move stay refl) refl
to_applied rejected = move stay refl
to_applied withdrawn = move stay refl

from_applied : {from : Stage} (to : Stage) → Reaches from applied → Reaches from to
unfolding validate_transition
from_applied saved r = move r refl
from_applied applied r = r
from_applied interviewing r = move r refl
from_applied offer r = move (move {to = interviewing} r refl) refl
from_applied rejected r = move r refl
from_applied withdrawn r = move r refl

-- No stage is a trap: every stage is reached from every stage by accepted moves.
pub stages_connected : (from to : Stage) → Reaches from to
stages_connected from to = from_applied to (to_applied from)

-- An offer is entered only from an interview, and a rejected application is never offered, saved
-- or withdrawn without being reopened first.
pub validate_transition_guards :
    (from to : Stage)
    → validate_transition from to ≡ true
    → from ≢ to
    → (to ≡ offer → from ≡ interviewing) × (from ≡ rejected → to ≢ saved × to ≢ withdrawn)
unfolding validate_transition
validate_transition_guards from to h d = ground arith
