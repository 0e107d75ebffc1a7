-- ===== src/Session/Drivers/Claude/Turns.antt =====
-- The turns that the driver reports open and close in turn.
use specrails_core.Prelude.{
  String, Bool, true, false, Option, none, some, List, [], ◌∷◌, ◌++◌, ◌≡◌, refl, ap, arith,
  if◌then◌else◌, Bool-cases, inl, inr, sym, ◌∙◌,
}
use specrails_core.Prelude.Json.{Json, JsonFields, is_truthy, at_key, member, str}
use specrails_core.Session.Drivers.Events.{DriverEvent, turn_started, turn_completed}
use specrails_core.Session.Drivers.Claude.State.{ClaudeTranslator, Translated, unknown, nonempty}
use specrails_core.Session.Drivers.Claude.Tasks.{
  change_phase, take_ref, open_turn, init, start_task, task_started, task_progress, task_updated,
  task_notification, notified, tasks_changed, system, known_task, notified_phase, notified_usage,
  notified_result,
}
use specrails_core.Session.Drivers.Claude.Messages.{
  receipt, lifecycle, assistant_block, assistant_blocks, assistant, user_block, user_blocks, user,
  noted, receipt_events, owner_of, content_of, tool_used, thinking_events, text_event,
}
use specrails_core.Session.Drivers.Claude.Translate.{end_turn, translate, translate_all}

-- Whether a turn is open after an event; none when a turn opens twice or ends without being open.
abbrev pub turn_after : DriverEvent → Bool → Option Bool
turn_after (turn_started trigger ids) true = none
turn_after (turn_started trigger ids) false = some true
turn_after (turn_completed turn) true = some false
turn_after (turn_completed turn) false = none
turn_after _ on = some on

abbrev pub turns_after : Option Bool → List DriverEvent → Option Bool
turns_after none es = none
turns_after (some on) [] = some on
turns_after (some on) (e ∷ es) = turns_after (turn_after e on) es

turns_after-append :
    (o : Option Bool) (xs ys : List DriverEvent)
    → turns_after o (xs ++ ys) ≡ turns_after (turns_after o xs) ys
turns_after-append none xs ys = refl
turns_after-append (some on) [] ys = refl
turns_after-append (some on) (x ∷ xs) ys = turns_after-append (turn_after x on) xs ys

-- The events lead from one state of the turn to the other.
record Follows (t : ClaudeTranslator) (r : Translated) : Type 0 where
  follows : turns_after (some t.turn_open) r.1 ≡ some r.0.turn_open

says_nothing : (t : ClaudeTranslator) → Follows t (t, [])
says_nothing t = record { follows = refl }

-- The events of a branch follow, whichever is taken.
Follows-if :
    (t : ClaudeTranslator) (test : Bool) (r s : Translated)
    → Follows t r
    → Follows t s
    → Follows t (if test then r else s)
Follows-if t true r s p q = p
Follows-if t false r s p q = q

Follows-option :
    {A : Type 0} (t : ClaudeTranslator) (o : Option A) (r : Translated) (s : A → Translated)
    → Follows t r
    → ((a : A) → Follows t (s a))
    → Follows t (elim o [ none ↦ r | some a ↦ s a ])
Follows-option t none r s p q = p
Follows-option t (some a) r s p q = q a

-- One translation after another.
then_Follows :
    (t : ClaudeTranslator) (r s : Translated)
    → Follows t r
    → Follows r.0 s
    → Follows t (s.0, r.1 ++ s.1)
then_Follows t r s p q = record {
  follows =
      turns_after-append (some t.turn_open) r.1 s.1
      ∙ ap (λ o. turns_after o s.1) p.follows
      ∙ q.follows;
}

-- Events that do not speak of turns, before others.
quiet_Follows :
    (t : ClaudeTranslator) (es : List DriverEvent) (r : Translated)
    → turns_after (some t.turn_open) es ≡ some t.turn_open
    → Follows t r
    → Follows t (r.0, es ++ r.1)
quiet_Follows t es r quiet p = then_Follows t (t, es) r (record { follows = quiet }) p

unknown-Follows : (t : ClaudeTranslator) (code : String) → Follows t (unknown t code)
unfolding unknown
unknown-Follows t code = record { follows = ground arith }

change_phase-Follows :
    (t : ClaudeTranslator) (id status : String) → Follows t (change_phase t id status)
unfolding change_phase
change_phase-Follows t id status = record { follows = ground arith }

take_ref-Follows : (t : ClaudeTranslator) (ref : Option String) → Follows t (take_ref t ref)
unfolding take_ref
take_ref-Follows t ref = record { follows = ground arith }

open_turn-Follows : (t : ClaudeTranslator) → Follows t (open_turn t)
unfolding open_turn
open_turn-Follows t = record { follows = ground arith }

init-Follows : (t : ClaudeTranslator) (frame : JsonFields) → Follows t (init t frame)
unfolding init
init-Follows t frame =
    let named = take_ref t (str (at_key "session_id" frame)) in
    then_Follows t named (open_turn named.0) (take_ref-Follows t (str (at_key "session_id" frame)))
      (open_turn-Follows named.0)

task_started-Follows :
    (t : ClaudeTranslator) (frame : JsonFields) → Follows t (task_started t frame)
unfolding task_started start_task
task_started-Follows t frame = record { follows = ground arith }

task_progress-Follows :
    (t : ClaudeTranslator) (frame : JsonFields) → Follows t (task_progress t frame)
unfolding task_progress
task_progress-Follows t frame = record { follows = ground arith }

task_updated-Follows :
    (t : ClaudeTranslator) (frame : JsonFields) → Follows t (task_updated t frame)
unfolding task_updated
task_updated-Follows t frame =
    Follows-option t (nonempty (str (at_key "task_id" frame))) _ _ (says_nothing t) (λ id.
      Follows-option t (nonempty (str (member "status" (at_key "patch" frame)))) _ _
        (says_nothing t) (change_phase-Follows t id))

notified_phase-Follows :
    (t : ClaudeTranslator) (id : String) (status : Option String)
    → Follows t (notified_phase t id status)
notified_phase-Follows t id none = says_nothing t
notified_phase-Follows t id (some status) = change_phase-Follows t id status

notified_result_quiet :
    (on : Bool) (id : String) (status summary : Option String)
    → turns_after (some on) (notified_result id status summary) ≡ some on
notified_result_quiet on id none summary = refl
notified_result_quiet on id (some status) none = refl
notified_result_quiet on id (some status) (some summary) = ground arith

notified_usage_quiet :
    (on : Bool) (id : String) (usage : Option Json)
    → turns_after (some on) (notified_usage id usage) ≡ some on
notified_usage_quiet on id usage = elim (Bool-cases (is_truthy usage)) [
  | inl there ↦ rw there refl
  | inr absent ↦ rw absent refl
]

notified-Follows :
    (t : ClaudeTranslator) (frame : JsonFields) (id : String) → Follows t (notified t frame id)
unfolding notified
notified-Follows t frame id =
    let status = nonempty (str (at_key "status" frame)) in
    let summary = nonempty (str (at_key "summary" frame)) in
    quiet_Follows t (notified_usage id (at_key "usage" frame)) _
      (notified_usage_quiet t.turn_open id (at_key "usage" frame))
      (quiet_Follows t (notified_result id status summary) _
        (notified_result_quiet t.turn_open id status summary) (notified_phase-Follows t id status))

task_notification-Follows :
    (t : ClaudeTranslator) (frame : JsonFields) → Follows t (task_notification t frame)
unfolding task_notification
task_notification-Follows t frame =
    Follows-option t (known_task t (nonempty (str (at_key "task_id" frame)))) _ _ (says_nothing t)
      (notified-Follows t frame)

tasks_changed-Follows :
    (t : ClaudeTranslator) (frame : JsonFields) → Follows t (tasks_changed t frame)
unfolding tasks_changed
tasks_changed-Follows t frame = record { follows = ground arith }

system-Follows : (t : ClaudeTranslator) (frame : JsonFields) → Follows t (system t frame)
unfolding system
system-Follows t frame = Follows-if t _ _ _ (init-Follows t frame) (
    Follows-if t _ _ _ (task_started-Follows t frame) (
      Follows-if t _ _ _ (task_progress-Follows t frame) (
        Follows-if t _ _ _ (task_updated-Follows t frame) (
          Follows-if t _ _ _ (task_notification-Follows t frame) (
            Follows-if t _ _ _ (tasks_changed-Follows t frame)
              (Follows-if t _ _ _ (says_nothing t) (unknown-Follows t _)))))))

receipt_quiet :
    (on : Bool) (started : List String) (id state : String)
    → turns_after (some on) (receipt_events started id state) ≡ some on
receipt_quiet on started id state = ground arith

noted_open : (t : ClaudeTranslator) (id state : String) → (noted t id state).turn_open ≡ t.turn_open
noted_open t id state = ground arith

receipt-Follows :
    (t : ClaudeTranslator) (id : String) (state : Option String) → Follows t (receipt t id state)
unfolding receipt
receipt-Follows t id none = says_nothing t
receipt-Follows t id (some state) = record {
  follows =
      receipt_quiet t.turn_open (noted t id state).started id state
      ∙ ap some (sym (noted_open t id state));
}

lifecycle-Follows : (t : ClaudeTranslator) (frame : JsonFields) → Follows t (lifecycle t frame)
unfolding lifecycle receipt
lifecycle-Follows t frame =
    Follows-option t (nonempty (str (at_key "command_uuid" frame))) _ _ (says_nothing t) (λ id.
      Follows-if t _ _ _ (receipt-Follows t id (str (at_key "state" frame))) (says_nothing t))

text_quiet :
    (t : ClaudeTranslator) (owner : Option String) (delta : String)
    → Follows t (t, text_event owner delta ∷ [])
text_quiet t none delta = record { follows = refl }
text_quiet t (some id) delta = record { follows = refl }

thinking_quiet :
    (t : ClaudeTranslator) (owner : Option String) (delta : String)
    → Follows t (t, thinking_events owner delta)
thinking_quiet t none delta = record { follows = refl }
thinking_quiet t (some id) delta = record { follows = refl }

tool_used-Follows :
    (t : ClaudeTranslator) (owner : Option String) (block : Json) (id : String)
    → Follows t (tool_used t owner block id)
tool_used-Follows t none block id = record { follows = refl }
tool_used-Follows t (some owner) block id = record { follows = refl }

assistant_block-Follows :
    (t : ClaudeTranslator) (owner : Option String) (block : Json)
    → Follows t (assistant_block t owner block)
unfolding assistant_block
assistant_block-Follows t owner block =
    Follows-if t _ _ _
      (Follows-option t (nonempty (str (member "text" (some block)))) _ _ (says_nothing t)
        (text_quiet t owner))
      (Follows-if t _ _ _
        (Follows-option t (nonempty (str (member "thinking" (some block)))) _ _ (says_nothing t)
          (thinking_quiet t owner))
        (Follows-if t _ _ _
          (Follows-option t (nonempty (str (member "id" (some block)))) _ _ (says_nothing t)
            (tool_used-Follows t owner block))
          (says_nothing t)))

assistant_blocks-Follows :
    (t : ClaudeTranslator) (owner : Option String) (blocks : List Json)
    → Follows t (assistant_blocks t owner blocks)
unfolding assistant_blocks
assistant_blocks-Follows t owner [] = says_nothing t
assistant_blocks-Follows t owner (block ∷ blocks) =
    let first = assistant_block t owner block in
    then_Follows t first (assistant_blocks first.0 owner blocks)
      (assistant_block-Follows t owner block) (assistant_blocks-Follows first.0 owner blocks)

assistant-Follows : (t : ClaudeTranslator) (frame : JsonFields) → Follows t (assistant t frame)
unfolding assistant
assistant-Follows t frame = Follows-option t (owner_of t frame) _ _ (unknown-Follows t _) (λ owner.
    Follows-option t (content_of frame) _ _ (says_nothing t) (assistant_blocks-Follows t owner))

user_block_quiet :
    (on : Bool) (t : ClaudeTranslator) (owner : Option (Option String)) (block : Json)
    → turns_after (some on) (user_block t owner block) ≡ some on
unfolding user_block
user_block_quiet on t owner block = ground arith

user_blocks_quiet :
    (on : Bool) (t : ClaudeTranslator) (owner : Option (Option String)) (blocks : List Json)
    → turns_after (some on) (user_blocks t owner blocks) ≡ some on
unfolding user_blocks
user_blocks_quiet on t owner [] = refl
user_blocks_quiet on t owner (block ∷ blocks) =
    rw
      (
        turns_after-append (some on) (user_block t owner block) (user_blocks t owner blocks),
        user_block_quiet on t owner block,
      )
      (user_blocks_quiet on t owner blocks)

user-Follows : (t : ClaudeTranslator) (frame : JsonFields) → Follows t (user t frame)
unfolding user
user-Follows t frame = Follows-if t _ _ _ (says_nothing t) (
    Follows-option t (content_of frame) _ _ (says_nothing t)
      (λ blocks. record { follows = user_blocks_quiet t.turn_open t (owner_of t frame) blocks }))

end_turn-Follows : (t : ClaudeTranslator) (frame : JsonFields) → Follows t (end_turn t frame)
unfolding end_turn
end_turn-Follows t frame = record {
  follows = ground (arith, (unknown-Follows t "result:without-turn").follows);
}

translate-Follows : (t : ClaudeTranslator) (frame : JsonFields) → Follows t (translate t frame)
unfolding translate
translate-Follows t frame =
    Follows-option t (str (at_key "type" frame)) _ _ (unknown-Follows t _) (λ type.
      Follows-if t _ _ _ (system-Follows t frame) (
        Follows-if t _ _ _ (lifecycle-Follows t frame) (
          Follows-if t _ _ _ (assistant-Follows t frame) (
            Follows-if t _ _ _ (user-Follows t frame) (
              Follows-if t _ _ _ (end_turn-Follows t frame)
                (Follows-if t _ _ _ (says_nothing t) (unknown-Follows t _)))))))

-- Whatever frames the provider writes, the driver reports that a turn started only when none is
-- open and that a turn ended only when one is, and the translator knows which of the two holds.
pub turns_alternate :
    (t : ClaudeTranslator) (frames : List JsonFields)
    → turns_after (some t.turn_open) (translate_all t frames).1
      ≡ some (translate_all t frames).0.turn_open
unfolding translate_all
turns_alternate t [] = refl
turns_alternate t (frame ∷ frames) =
    let first = translate t frame in
    turns_after-append (some t.turn_open) first.1 (translate_all first.0 frames).1
    ∙ ap (λ o. turns_after o (translate_all first.0 frames).1) (translate-Follows t frame).follows
    ∙ turns_alternate first.0 frames
