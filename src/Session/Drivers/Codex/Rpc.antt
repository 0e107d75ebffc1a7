-- ===== src/Session/Drivers/Codex/Rpc.antt =====
-- src/agent-runtime/session/drivers/codex/rpc.ts: requests that wait for an answer. What is written
-- and the handlers' results are not modelled; whether a write succeeds is an argument. The timer
-- of a request is cleared when it is answered, so `time_out` does nothing then.
use specrails_core.Prelude.{
  ℕ, ◌+◌, String, Bool, true, false, not, Option, none, some, List, [], ◌∷◌, ◌++◌, ◌==◌, keep,
  is_some, if◌then◌else◌,
}
use specrails_core.Prelude.Json.{Json, JsonFields, at_key, str, num}

pub data Answer : Type 0 where
  resolved rejected : Answer

abbrev pub Answers : Type 0
Answers = List (ℕ × Answer)

-- A waiting request, with its method.
abbrev pub Pending : Type 0
Pending = List (ℕ × String)

pub record JsonRpcPeer : Type 0 where
  pub next_id : ℕ
  pub pending : Pending
  pub closed_error : Option String

abbrev pub new_peer : JsonRpcPeer
new_peer = record { next_id = 1; pending = []; closed_error = none }

unfoldable pub lookup : ℕ → Pending → Option String
lookup id [] = none
lookup id ((j, method) ∷ rest) = if j == id then some method else lookup id rest

abbrev pub without : ℕ → Pending → Pending
without id pending = keep (λ entry. not (entry.0 == id)) pending

-- After the peer is closed a request fails before it gets an id.
unfoldable pub request : JsonRpcPeer → String → Bool → JsonRpcPeer × Answers
request p method written =
    if is_some p.closed_error
    then (p, [])
    else if written
    then (
      record p { next_id = p.next_id + 1; pending = p.pending ++ ((p.next_id, method) ∷ []) },
      [],
    )
    else (record p { next_id = p.next_id + 1 }, (p.next_id, Answer.rejected) ∷ [])

-- The answer to a request that still waits.
unfoldable pub settle : JsonRpcPeer → ℕ → Answer → JsonRpcPeer × Answers
settle p id answer =
    if is_some (lookup id p.pending)
    then (record p { pending = without id p.pending }, (id, answer) ∷ [])
    else (p, [])

unfoldable pub time_out : JsonRpcPeer → ℕ → JsonRpcPeer × Answers
unfolding settle
time_out p id = settle p id Answer.rejected

-- `frame.error && typeof frame.error === 'object'`
abbrev pub is_error : Option Json → Bool
is_error (some (Json.object fields)) = true
is_error (some (Json.array items)) = true
is_error _ = false

abbrev pub answer_of : JsonFields → Answer
answer_of frame = if is_error (at_key "error" frame) then Answer.rejected else Answer.resolved

-- One line of the server: a frame with a method is a request or a notification of its own.
unfoldable pub receive : JsonRpcPeer → JsonFields → JsonRpcPeer × Answers
unfolding settle
receive p frame =
    if is_some (str (at_key "method" frame))
    then (p, [])
    else elim (num (at_key "id" frame)) [ none ↦ (p, []) | some id ↦ settle p id (answer_of frame) ]

abbrev pub reject_all : Pending → Answers
reject_all [] = []
reject_all ((id, method) ∷ rest) = (id, Answer.rejected) ∷ reject_all rest

unfoldable pub close : JsonRpcPeer → String → JsonRpcPeer × Answers
close p reason = (record p { pending = []; closed_error = some reason }, reject_all p.pending)
