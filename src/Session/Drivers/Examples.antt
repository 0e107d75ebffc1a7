-- ===== src/Session/Drivers/Examples.antt =====
-- Runs of the Claude translator and of the Codex peer.
use specrails_core.Prelude.{◌+◌, ◌++◌, true, ◌≡◌, some, false, List, [], ◌∷◌}
use specrails_core.Prelude.Json.{Json, JsonFields}
use specrails_core.Session.Drivers.Codex.Rpc.{new_peer, close}
use specrails_core.Session.Drivers.Codex.Answers.{RpcStep, take_steps, times, issued, answered_once}
use specrails_core.Session.Drivers.Claude.State.{new_translator}
use specrails_core.Session.Drivers.Claude.Translate.{translate_all}
use specrails_core.Session.Drivers.Claude.Turns.{turns_after, turns_alternate}

abbrev init_frame : JsonFields
init_frame =
    JsonFields.field "type" (Json.text "system")
      (JsonFields.field "subtype" (Json.text "init") JsonFields.done)

abbrev result_frame : JsonFields
result_frame =
    JsonFields.field "type" (Json.text "result")
      (JsonFields.field "subtype" (Json.text "success") JsonFields.done)

abbrev frames : List JsonFields
frames = init_frame ∷ init_frame ∷ result_frame ∷ result_frame ∷ []

turns_alternate_example :
    turns_after (some false) (translate_all new_translator frames).1
    ≡ some (translate_all new_translator frames).0.turn_open
turns_alternate_example = turns_alternate new_translator frames

-- One request is answered, one times out, one waits.
abbrev steps : List RpcStep
steps =
    RpcStep.request_step "thread/start" true
    ∷ RpcStep.request_step "turn/start" true
    ∷ RpcStep.request_step "turn/interrupt" true
    ∷ RpcStep.receive_step (JsonFields.field "id" (Json.number 2) JsonFields.done)
    ∷ RpcStep.time_out_step 1
    ∷ []

answered_once_example :
    let run = take_steps new_peer steps in
    (times 3 run.1 + times 3 run.0.pending ≡ issued 3 run.0)
    × (times 3 (run.1 ++ (close run.0 "exited").1) ≡ issued 3 run.0)
answered_once_example = answered_once steps 3 "exited"
