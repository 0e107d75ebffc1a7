-- ===== src/Graph/Convergence.antt =====
-- src/agent-runtime/graph/convergence.ts: whether another round of corrections can help, and the
-- history that the verify node of nodes.ts keeps, bounded by state.ts. The history is that since the
-- latest resume; the signature of a failure is given.
use specrails_core.Prelude.{
  ℕ, suc, String, Bool, true, false, not, ◌&&◌, ◌||◌, Option, none, some, List, [], ◌∷◌, ◌++◌, any,
  last_n, leb, str_eq, if◌then◌else◌,
}

pub record VerifyOutcome : Type 0 where
  pub at : String
  pub candidate_hash : String
  pub plan_hash : String
  pub passed : Bool
  pub signature : Option String
  pub summary : Option String

-- Why the loop is stopped.
pub data Divergence : Type 0 where
  returned : Option String → Divergence
  survived : ℕ → Option String → Divergence
  brought_back : Option String → Divergence

-- `!current.signature` is true of an empty text, too.
abbrev pub is_signed : Option String → Bool
is_signed none = false
is_signed (some signature) = not (str_eq signature "")

abbrev pub same_signature : Option String → Option String → Bool
same_signature none none = true
same_signature (some s) (some t) = str_eq s t
same_signature _ _ = false

abbrev pub is_state_of : VerifyOutcome → VerifyOutcome → Bool
is_state_of current entry =
    not entry.passed
    && str_eq entry.candidate_hash current.candidate_hash
    && str_eq entry.plan_hash current.plan_hash

abbrev pub is_failure_of : VerifyOutcome → VerifyOutcome → Bool
is_failure_of current entry = not entry.passed && same_signature entry.signature current.signature

-- `[...history].reverse()`
abbrev pub reversed : List VerifyOutcome → List VerifyOutcome
reversed [] = []
reversed (entry ∷ history) = reversed history ++ (entry ∷ [])

-- How often the failure was seen in a row, from the latest visit back.
abbrev pub repeats : VerifyOutcome → List VerifyOutcome → ℕ
repeats current [] = 0
repeats current (entry ∷ older) =
    let rest = repeats current older in
    if entry.passed || not (same_signature entry.signature current.signature) then 0 else suc rest

-- `history.at(-1)?.passed`
abbrev pub last_passed : List VerifyOutcome → Bool
last_passed [] = false
last_passed (entry ∷ older) = entry.passed

unfoldable pub divergence : List VerifyOutcome → VerifyOutcome → Option Divergence
divergence history current =
    if current.passed || not (is_signed current.signature)
    then none
    else if any (is_state_of current) history
    then some (Divergence.returned current.summary)
    else if leb 2 (repeats current (reversed history))
    then some (Divergence.survived (repeats current (reversed history)) current.summary)
    else if last_passed (reversed history) && any (is_failure_of current) history
    then some (Divergence.brought_back current.summary)
    else none

abbrev pub verify_history_limit : ℕ
verify_history_limit = 50

-- The reducer of `verifyHistory`.
abbrev pub recorded : List VerifyOutcome → VerifyOutcome → List VerifyOutcome
recorded history outcome = last_n verify_history_limit (history ++ (outcome ∷ []))

abbrev pub unless_diverging : Option Divergence → List VerifyOutcome → Option (List VerifyOutcome)
unless_diverging none history = some history
unless_diverging (some reason) history = none

-- A visit whose checks ran: a pass is recorded, a failure only where another round can help. `none`
-- is a run that is blocked.
unfoldable pub verify_visit : List VerifyOutcome → VerifyOutcome → Option (List VerifyOutcome)
verify_visit history outcome =
    if outcome.passed
    then some (recorded history outcome)
    else unless_diverging (divergence history outcome) (recorded history outcome)

abbrev pub and_then :
    Option (List VerifyOutcome)
    → (List VerifyOutcome → Option (List VerifyOutcome))
    → Option (List VerifyOutcome)
and_then none next = none
and_then (some history) next = next history

-- Visits, one after the other.
unfoldable pub verify_visits : List VerifyOutcome → List VerifyOutcome → Option (List VerifyOutcome)
verify_visits history [] = some history
verify_visits history (outcome ∷ outcomes) =
    and_then (verify_visit history outcome) (λ next. verify_visits next outcomes)
