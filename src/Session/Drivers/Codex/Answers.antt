-- ===== src/Session/Drivers/Codex/Answers.antt =====
-- Every request is answered once.
use mathlib.Core.List.{append-nil, append_assoc}
use specrails_core.Prelude.{
  ℕ, ◌+◌, ◌≤◌, ◌≡◌, refl, String, Bool, true, ◌&&◌, List, [], ◌∷◌, ◌++◌, ◌==◌, is_some, leb, ltb,
  if◌then◌else◌, arith, Bool-cases, inl, inr, Option-cases, subst, sym,
}
use specrails_core.Prelude.Json.{JsonFields, at_key, str, num}
use specrails_core.Session.Drivers.Codex.Rpc.{
  Answer, Answers, Pending, JsonRpcPeer, new_peer, lookup, without, request, settle, time_out,
  receive, answer_of, reject_all, close,
}

pub data RpcStep : Type 0 where
  request_step : String → Bool → RpcStep
  time_out_step : ℕ → RpcStep
  receive_step : JsonFields → RpcStep
  close_step : String → RpcStep

pub take_step : JsonRpcPeer → RpcStep → JsonRpcPeer × Answers
take_step p (RpcStep.request_step method written) = request p method written
take_step p (RpcStep.time_out_step id) = time_out p id
take_step p (RpcStep.receive_step frame) = receive p frame
take_step p (RpcStep.close_step reason) = close p reason

-- The peer after the steps, and all the answers given on the way.
pub take_steps : JsonRpcPeer → List RpcStep → JsonRpcPeer × Answers
unfolding take_step
take_steps p [] = (p, [])
take_steps p (step ∷ steps) =
    let first = take_step p step in
    let rest = take_steps first.0 steps in (rest.0, first.1 ++ rest.1)

-- How often an id occurs.
pub times {ℓ} : {A : Type ℓ} → ℕ → List (ℕ × A) → ℕ
times id [] = 0
times id ((j, a) ∷ rest) = (if j == id then 1 else 0) + times id rest

-- The requests that were given an id: from 1 up to the next one.
abbrev pub issued : ℕ → JsonRpcPeer → ℕ
issued id p = if leb 1 id && ltb id p.next_id then 1 else 0

times-append :
    {A : Type 0} (id : ℕ) (xs ys : List (ℕ × A)) → times id (xs ++ ys) ≡ times id xs + times id ys
unfolding times
times-append id [] ys = omega arith
times-append id ((j, a) ∷ xs) ys = omega (arith, times-append id xs ys)

times-without :
    (id j : ℕ) (pending : Pending)
    → times j (without id pending) ≡ (if id == j then 0 else times j pending)
unfolding times
times-without id j [] = ground arith
times-without id j ((k, m) ∷ pending) = ground (arith, times-without id j pending)

lookup-times :
    (id : ℕ) (pending : Pending) → is_some (lookup id pending) ≡ true → 1 ≤ times id pending
unfolding lookup times
lookup-times id [] h = absurd (ground arith)
lookup-times id ((j, m) ∷ pending) h = elim (Bool-cases (j == id)) [
  | inl found ↦ rw found (omega arith)
  | inr other ↦ let rest = lookup-times id pending (ground arith) in omega arith
]

times-reject_all : (id : ℕ) (pending : Pending) → times id (reject_all pending) ≡ times id pending
unfolding times
times-reject_all id [] = refl
times-reject_all id ((j, m) ∷ pending) = omega (arith, times-reject_all id pending)

-- Each id is answered or waits, once in all; the first id is 1.
pub record IsSettled (p : JsonRpcPeer) (answers : Answers) : Type 0 where
  pub first : 1 ≤ p.next_id
  pub once : (id : ℕ) → times id answers + times id p.pending ≡ issued id p

request-IsSettled :
    (p : JsonRpcPeer) (answers : Answers) (method : String) (written : Bool)
    → IsSettled p answers
    → IsSettled (request p method written).0 (answers ++ (request p method written).1)
unfolding request times
request-IsSettled p answers method written s = record {
  first = ground (arith, s.first);
  once = λ id. ground (
    arith,
    s.once id,
    s.first,
    times-append id answers [],
    times-append id answers ((p.next_id, Answer.rejected) ∷ []),
    times-append id p.pending ((p.next_id, method) ∷ []),
  );
}

settle-IsSettled :
    (p : JsonRpcPeer) (answers : Answers) (id : ℕ) (answer : Answer)
    → IsSettled p answers
    → IsSettled (settle p id answer).0 (answers ++ (settle p id answer).1)
unfolding settle times
settle-IsSettled p answers id answer s = record {
  first = ground (arith, s.first);
  once = λ j. ground (
    arith,
    s.once j,
    s.once id,
    times-append j answers [],
    times-append j answers ((id, answer) ∷ []),
    times-without id j p.pending,
    lookup-times id p.pending,
  );
}

quiet-IsSettled :
    (p : JsonRpcPeer) (answers : Answers) → IsSettled p answers → IsSettled p (answers ++ [])
quiet-IsSettled p answers s = subst (IsSettled p) (sym (append-nil answers)) s

start-IsSettled : IsSettled new_peer []
unfolding times
start-IsSettled = record { first = omega arith; once = λ id. ground arith }

receive-IsSettled :
    (p : JsonRpcPeer) (answers : Answers) (frame : JsonFields)
    → IsSettled p answers
    → IsSettled (receive p frame).0 (answers ++ (receive p frame).1)
unfolding receive
receive-IsSettled p answers frame s = elim (Bool-cases (is_some (str (at_key "method" frame)))) [
  | inl named ↦ rw named (quiet-IsSettled p answers s)
  | inr plain ↦ rw plain (elim (Option-cases (num (at_key "id" frame))) [
    | inl missing ↦ rw missing (quiet-IsSettled p answers s)
    | inr (id, there) ↦ rw there (settle-IsSettled p answers id (answer_of frame) s)
  ])
]

close-IsSettled :
    (p : JsonRpcPeer) (answers : Answers) (reason : String)
    → IsSettled p answers
    → IsSettled (close p reason).0 (answers ++ (close p reason).1)
unfolding close times
close-IsSettled p answers reason s = record {
  first = s.first;
  once = λ id. ground (
    arith,
    s.once id,
    times-append id answers (reject_all p.pending),
    times-reject_all id p.pending,
  );
}

step-IsSettled :
    (p : JsonRpcPeer) (answers : Answers) (step : RpcStep)
    → IsSettled p answers
    → IsSettled (take_step p step).0 (answers ++ (take_step p step).1)
unfolding take_step time_out
step-IsSettled p answers (RpcStep.request_step method written) s =
    request-IsSettled p answers method written s
step-IsSettled p answers (RpcStep.time_out_step id) s =
    settle-IsSettled p answers id Answer.rejected s
step-IsSettled p answers (RpcStep.receive_step frame) s = receive-IsSettled p answers frame s
step-IsSettled p answers (RpcStep.close_step reason) s = close-IsSettled p answers reason s

steps-IsSettled :
    (p : JsonRpcPeer) (answers : Answers) (steps : List RpcStep)
    → IsSettled p answers
    → IsSettled (take_steps p steps).0 (answers ++ (take_steps p steps).1)
unfolding take_steps
steps-IsSettled p answers [] s = quiet-IsSettled p answers s
steps-IsSettled p answers (step ∷ steps) s =
    let first = take_step p step in
    let rest = take_steps first.0 steps in
    subst (IsSettled rest.0) (append_assoc answers first.1 rest.1)
      (steps-IsSettled first.0 (answers ++ first.1) steps (step-IsSettled p answers step s))

-- However requests, time-outs, lines of the server and closings come, each request that was given
-- an id is answered once in all or still waits, and nothing else is answered; when the peer is
-- closed last, every request has its answer.
pub answered_once :
    (steps : List RpcStep) (id : ℕ) (reason : String)
    → let run = take_steps new_peer steps in
      (times id run.1 + times id run.0.pending ≡ issued id run.0)
      × (times id (run.1 ++ (close run.0 reason).1) ≡ issued id run.0)
unfolding close times
answered_once steps id reason =
    let s = steps-IsSettled new_peer [] steps start-IsSettled in
    let run = take_steps new_peer steps in
    (
      s.once id,
      ground (
        arith,
        s.once id,
        times-append id run.1 (reject_all run.0.pending),
        times-reject_all id run.0.pending,
      ),
    )
