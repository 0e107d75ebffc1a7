-- ===== src/Session/OutputBuffer/Accounts.antt =====
-- What the budgets count.
use Prim.Native.Char.{code}
use text.Mathlib.TextLemmas.{cons-append}
use specrails_core.Prelude.{
  ℕ, ◌+◌, ◌≤◌, ◌≡◌, ◌≢◌, refl, sym, ◌∙◌, ap, subst, inl, inr, String, Option, none, some, List, [],
  ◌∷◌, ltb, leb, if◌then◌else◌, arith, str_eq, eq_iff, eq_refl, Bool-cases,
}
use specrails_core.Prelude.Dict.{get, put, get-put, get-remove}
use specrails_core.Prelude.Texts.{text_length}
use specrails_core.Session.Events.{OutputScope}
use specrails_core.Session.OutputBuffer.{
  OutputLimits, TextDelta, Budget, OutputBuffer, empty_buffer, text_of, scope_of, budget_key,
  turn_key, subagent_key, cap_of, add, drain, current_budget, report, dropped_budget, merged,
  pending_key,
}

-- The buffer after deltas, with the flushed ones left aside.
unfoldable pub add_all : OutputLimits → OutputBuffer → List TextDelta → OutputBuffer
add_all limits buffer [] = buffer
add_all limits buffer (body ∷ bodies) = add_all limits (add limits buffer body).0 bodies

abbrev pub size_of : TextDelta → ℕ
size_of body = text_length (text_of body)

-- All that was offered under a key.
pub offered : String → List TextDelta → ℕ
offered key [] = 0
offered key (body ∷ bodies) =
    let rest = offered key bodies in
    if str_eq (budget_key body) key then size_of body + rest else rest

abbrev counted : Option Budget → ℕ
counted none = 0
counted (some b) = b.stored + b.dropped_bytes

-- What a key's budget has stored and refused.
abbrev pub charged : OutputBuffer → String → ℕ
charged buffer key = counted (get key buffer.budgets)

-- The budget after a delta of a size.
abbrev charge : OutputLimits → OutputScope → Budget → ℕ → Budget
charge limits scope budget size =
    if ltb (cap_of limits scope) (budget.stored + size)
    then dropped_budget budget size
    else record budget { stored = budget.stored + size }

abbrev budget_for : OutputBuffer → TextDelta → Budget
budget_for buffer body = current_budget (get (budget_key body) buffer.budgets) (scope_of body)

budgets-add :
    (limits : OutputLimits) (buffer : OutputBuffer) (body : TextDelta)
    → (add limits buffer body).0.budgets
      ≡ put
          (budget_key body)
          (charge limits (scope_of body) (budget_for buffer body) (size_of body))
          buffer.budgets
unfolding add
budgets-add limits buffer body =
    elim (Bool-cases
      (ltb (cap_of limits (scope_of body)) ((budget_for buffer body).stored + size_of body))) [
        | inl over ↦ rw over
        | inr fits ↦
            rw fits
              (elim (Bool-cases (
                leb limits.flush_chars
                  (text_length (text_of (merged (get (pending_key body) buffer.pending) body))))) [
                    | inl full ↦ rw full
                    | inr short ↦ rw short
                  ])
      ]

counted-charge :
    (limits : OutputLimits) (scope : OutputScope) (old : Option Budget) (size : ℕ)
    → counted (some (charge limits scope (current_budget old scope) size)) ≡ counted old + size
counted-charge limits scope old size = ground arith

charged-add :
    (limits : OutputLimits) (buffer : OutputBuffer) (body : TextDelta) (key : String)
    → charged (add limits buffer body).0 key
      ≡ charged buffer key + (if str_eq (budget_key body) key then size_of body else 0)
charged-add limits buffer body key =
    ap (λ d. counted (get key d)) (budgets-add limits buffer body)
    ∙ ap counted (get-put (budget_key body) key _ buffer.budgets)
    ∙ elim (Bool-cases (str_eq (budget_key body) key)) [
      | inl m ↦
          (let same_key : budget_key body ≡ key = (eq_iff (budget_key body) key).0 m in
            rw m (
              counted-charge limits (scope_of body) (get (budget_key body) buffer.budgets)
                (size_of body)
              ∙ ap (λ k. charged buffer k + size_of body) same_key))
      | inr m ↦ rw m (omega arith)
    ]

charged-add_all :
    (limits : OutputLimits) (buffer : OutputBuffer) (bodies : List TextDelta) (key : String)
    → charged (add_all limits buffer bodies) key ≡ charged buffer key + offered key bodies
unfolding add_all offered
charged-add_all limits buffer [] key = omega arith
charged-add_all limits buffer (body ∷ bodies) key = ground (
  arith,
  charged-add limits buffer body key,
  charged-add_all limits (add limits buffer body).0 bodies key,
)

abbrev scope_key : OutputScope → String
scope_key (OutputScope.turn id) = turn_key id
scope_key (OutputScope.subagent id) = subagent_key id

key_of_scope : (body : TextDelta) → scope_key (scope_of body) ≡ budget_key body
key_of_scope (TextDelta.turn id channel text) = refl
key_of_scope (TextDelta.subagent id text) = refl

first_code : String → ℕ
first_code String.[] = 0
first_code (String.◌∷◌ c s) = code c

turn_first : (a : String) → first_code (turn_key a) ≡ b't'
unfolding first_code
turn_first a = ap first_code (cons-append "t" "urn:" a)

subagent_first : (a : String) → first_code (subagent_key a) ≡ b's'
unfolding first_code
subagent_first a = ap first_code (cons-append "s" "ubagent:" a)

turn_key-ne-subagent_key : (a b : String) → turn_key a ≢ subagent_key b
turn_key-ne-subagent_key a b e =
    absurd (omega (arith, turn_first a, subagent_first b, ap first_code e))

same_cap :
    (limits : OutputLimits) (a b : OutputScope)
    → scope_key a ≡ scope_key b
    → cap_of limits a ≡ cap_of limits b
same_cap limits (OutputScope.turn a) (OutputScope.turn b) e = refl
same_cap limits (OutputScope.turn a) (OutputScope.subagent b) e =
    absurd (turn_key-ne-subagent_key a b e)
same_cap limits (OutputScope.subagent a) (OutputScope.turn b) e =
    absurd (turn_key-ne-subagent_key b a (sym e))
same_cap limits (OutputScope.subagent a) (OutputScope.subagent b) e = refl

-- A budget stands under the key of its scope, is within the cap, and has refused text exactly if it
-- has refused an event.
abbrev IsSound : OutputLimits → String → Option Budget → Type 0
IsSound limits key none = Unit
IsSound limits key (some b) =
    (scope_key b.scope ≡ key)
    × (b.stored ≤ cap_of limits b.scope)
    × (b.dropped_events ≡ 0 → b.dropped_bytes ≡ 0)

charge-IsSound :
    (limits : OutputLimits) (body : TextDelta) (old : Option Budget)
    → IsSound limits (budget_key body) old
    → IsSound limits
        (budget_key body)
        (some (charge limits (scope_of body) (current_budget old (scope_of body)) (size_of body)))
charge-IsSound limits body none h =
    elim (Bool-cases (ltb (cap_of limits (scope_of body)) (0 + size_of body))) [
      | inl over ↦ rw over (key_of_scope body, omega arith, λ z. absurd (omega arith))
      | inr fits ↦ rw fits (key_of_scope body, ground arith, λ z. refl)
    ]
charge-IsSound limits body (some b) h =
    let cap = same_cap limits b.scope (scope_of body) (h.0 ∙ sym (key_of_scope body)) in
    elim (Bool-cases (ltb (cap_of limits (scope_of body)) (b.stored + size_of body))) [
      | inl over ↦ rw over (h.0, h.1, λ z. absurd (omega arith))
      | inr fits ↦ rw fits (h.0, ground arith, h.2)
    ]

add-IsSound :
    (limits : OutputLimits) (buffer : OutputBuffer) (body : TextDelta)
    → ((key : String) → IsSound limits key (get key buffer.budgets))
    → (key : String) → IsSound limits key (get key (add limits buffer body).0.budgets)
add-IsSound limits buffer body h key = rw (budgets-add limits buffer body) (
    rw (get-put (budget_key body) key _ buffer.budgets)
      (elim (Bool-cases (str_eq (budget_key body) key)) [
        | inl m ↦ rw m (
            subst
              (λ k.
                IsSound limits k
                  (some (charge limits (scope_of body) (budget_for buffer body) (size_of body))))
              ((eq_iff (budget_key body) key).0 m)
              (charge-IsSound limits body (get (budget_key body) buffer.budgets)
                (h (budget_key body))))
        | inr m ↦ rw m (h key)
      ]))

add_all-IsSound :
    (limits : OutputLimits) (buffer : OutputBuffer) (bodies : List TextDelta)
    → ((key : String) → IsSound limits key (get key buffer.budgets))
    → (key : String) → IsSound limits key (get key (add_all limits buffer bodies).budgets)
unfolding add_all
add_all-IsSound limits buffer [] h = h
add_all-IsSound limits buffer (body ∷ bodies) h =
    add_all-IsSound limits (add limits buffer body).0 bodies (add-IsSound limits buffer body h)

charged-empty : (key : String) (n : ℕ) → charged empty_buffer key + n ≡ n
unfolding get
charged-empty key n = omega arith

quiet_total :
    (limits : OutputLimits) (key : String) (b : Budget) (n : ℕ)
    → IsSound limits key (some b)
    → b.stored + b.dropped_bytes ≡ n
    → report (some b) ≡ []
    → b.stored ≡ n
quiet_total limits key b n h total quiet = ground (arith, h.2)

-- After any deltas from an empty buffer, what a turn or a sub-agent has stored is within its cap,
-- what it stored and what it refused make up all that was offered to it, and draining forgets its
-- budget and reports nothing only if everything was stored.
pub output_accounted :
    (limits : OutputLimits) (bodies : List TextDelta) (key : String) (b : Budget)
    → get key (add_all limits empty_buffer bodies).budgets ≡ some b
    → let buffer = add_all limits empty_buffer bodies in
      (b.stored ≤ cap_of limits b.scope)
      × (b.stored + b.dropped_bytes ≡ offered key bodies)
      × ((drain buffer key).1 ≡ [] → b.stored ≡ offered key bodies)
      × (get key (drain buffer key).0.budgets ≡ none)
unfolding drain
output_accounted limits bodies key b found =
    let buffer = add_all limits empty_buffer bodies in
    let sound : IsSound limits key (some b) =
      subst (IsSound limits key) found
        (add_all-IsSound limits empty_buffer bodies (λ k. unfold get in tt) key) in
    let total : b.stored + b.dropped_bytes ≡ offered key bodies =
      ap counted (sym found)
      ∙ charged-add_all limits empty_buffer bodies key
      ∙ charged-empty key (offered key bodies) in
    (
      sound.1,
      total,
      λ quiet.
          quiet_total limits key b (offered key bodies) sound total
            (subst (λ o. report o ≡ []) found quiet),
      get-remove key key buffer.budgets ∙ rw (eq_refl key),
    )
