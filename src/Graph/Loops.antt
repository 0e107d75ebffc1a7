-- ===== src/Graph/Loops.antt =====
-- src/agent-runtime/graph/convergence.ts: loops of corrections that the guard stops.
use specrails_core.Prelude.{
  ℕ, suc, ◌+◌, ◌-◌, ◌≤◌, ◌≡◌, refl, ap, ◌∙◌, Bool, true, false, none, some, List, [], ◌∷◌, ◌++◌,
  any, length, length-append, drop-append, last_n, drop, leb, arith, Bool-cases, Option-cases, ◌⊎◌,
  inl, inr,
}
use specrails_core.Graph.Convergence.{
  VerifyOutcome, Divergence, is_signed, is_state_of, is_failure_of, reversed, repeats, divergence,
  recorded, verify_history_limit, verify_visit, verify_visits,
}

-- A window keeps the end of a list that fits into it.
window-append {ℓ} :
    {A : Type ℓ} (n : ℕ) (xs ys : List A)
    → length ys ≤ n
    → (zs : List A) × (last_n n (xs ++ ys) ≡ zs ++ ys)
window-append n xs ys h = (
  drop (length (xs ++ ys) - n) xs,
  drop-append (length (xs ++ ys) - n) xs ys (omega (arith, length-append xs ys)),
)

append-snoc {ℓ} :
    {A : Type ℓ} (xs ys : List A) (z : A) → (xs ++ ys) ++ (z ∷ []) ≡ xs ++ (ys ++ (z ∷ []))
append-snoc [] ys z = refl
append-snoc (x ∷ xs) ys z = ap (λ l. x ∷ l) (append-snoc xs ys z)

any-middle :
    (test : VerifyOutcome → Bool) (xs : List VerifyOutcome) (y : VerifyOutcome)
    (ys : List VerifyOutcome)
    → test y ≡ true
    → any test (xs ++ (y ∷ ys)) ≡ true
any-middle test [] y ys h = rw h refl
any-middle test (x ∷ xs) y ys h = ground (arith, any-middle test xs y ys h)

-- A failure that the guard stops ends the run.
blocked :
    (history : List VerifyOutcome) (outcome : VerifyOutcome) (reason : Divergence)
    → outcome.passed ≡ false
    → divergence history outcome ≡ some reason
    → verify_visit history outcome ≡ none
unfolding verify_visit
blocked history outcome reason failed diverges = rw (diverges, failed) refl

-- A visit blocks the run, or is recorded.
visit-cases :
    (history : List VerifyOutcome) (outcome : VerifyOutcome)
    → (verify_visit history outcome ≡ none)
      ⊎ (verify_visit history outcome ≡ some (recorded history outcome))
unfolding verify_visit
visit-cases history outcome = elim (Bool-cases outcome.passed) [
  | inl passed ↦ inr (rw passed refl)
  | inr failed ↦ elim (Option-cases (divergence history outcome)) [
    | inl converges ↦ inr (rw (converges, failed) refl)
    | inr (reason, diverges) ↦ inl (rw (diverges, failed) refl)
  ]
]

-- A failure with a signature.
pub record IsFailure (outcome : VerifyOutcome) : Type 0 where
  pub failed : outcome.passed ≡ false
  pub signed : is_signed outcome.signature ≡ true

returned_diverges :
    (older : List VerifyOutcome) (first : VerifyOutcome) (newer : List VerifyOutcome)
    (current : VerifyOutcome)
    → IsFailure current
    → is_state_of current first ≡ true
    → divergence (older ++ (first ∷ newer)) current ≡ some (Divergence.returned current.summary)
unfolding divergence
returned_diverges older first newer current f h =
    rw (any-middle (is_state_of current) older first newer h, f.failed, f.signed) refl

returning_from :
    (history older : List VerifyOutcome) (first : VerifyOutcome)
    (newer between : List VerifyOutcome) (current : VerifyOutcome)
    → history ≡ older ++ (first ∷ newer)
    → IsFailure current
    → is_state_of current first ≡ true
    → suc (length newer + length between) ≤ verify_history_limit
    → verify_visits history (between ++ (current ∷ [])) ≡ none
unfolding verify_visits
returning_from history older first newer [] current known f h fits =
    rw
      (
        known,
        blocked (older ++ (first ∷ newer)) current _ f.failed
            (returned_diverges older first newer current f h),
      )
      refl
returning_from history older first newer (next ∷ between) current known f h fits =
    elim (visit-cases history next) [
      | inl stops ↦ rw stops refl
      | inr goes ↦
          let (kept, window) =
            window-append verify_history_limit older ((first ∷ newer) ++ (next ∷ []))
              (omega (arith, length-append newer (next ∷ []))) in
          let now : recorded history next ≡ kept ++ (first ∷ (newer ++ (next ∷ []))) =
            ap (λ l. last_n verify_history_limit (l ++ (next ∷ []))) known
            ∙ ap (λ l. last_n verify_history_limit l) (append-snoc older (first ∷ newer) next)
            ∙ window in
          rw goes (
            returning_from (recorded history next) kept first (newer ++ (next ∷ [])) between current
              now f h (omega (arith, length-append newer (next ∷ []))))
    ]

-- Visits that end with a failure with a signature, of a candidate and a plan that failed at most 50
-- visits before, are blocked, whatever the history and the visits between them.
pub returning_stops :
    (history : List VerifyOutcome) (first : VerifyOutcome) (between : List VerifyOutcome)
    (current : VerifyOutcome)
    → IsFailure current
    → is_state_of current first ≡ true
    → suc (length between) ≤ verify_history_limit
    → verify_visits history (first ∷ (between ++ (current ∷ []))) ≡ none
unfolding verify_visits
returning_stops history first between current f h fits = elim (visit-cases history first) [
  | inl stops ↦ rw stops refl
  | inr goes ↦
      let (kept, window) = window-append verify_history_limit history (first ∷ []) (omega arith) in
      rw goes (
        returning_from (recorded history first) kept first [] between current window f h
          (omega (arith, fits)))
]

reversed_two :
    (older : List VerifyOutcome) (x y : VerifyOutcome)
    → reversed (older ++ (x ∷ y ∷ [])) ≡ y ∷ x ∷ reversed older
reversed_two [] x y = refl
reversed_two (o ∷ older) x y = ap (λ l. l ++ (o ∷ [])) (reversed_two older x y)

twice_repeats :
    (current x y : VerifyOutcome) (older : List VerifyOutcome)
    → is_failure_of current x ≡ true
    → is_failure_of current y ≡ true
    → leb 2 (repeats current (y ∷ x ∷ older)) ≡ true
twice_repeats current x y older hx hy = ground arith

survived_diverges :
    (older : List VerifyOutcome) (x y current : VerifyOutcome)
    → IsFailure current
    → is_failure_of current x ≡ true
    → is_failure_of current y ≡ true
    → (reason : Divergence) × (divergence (older ++ (x ∷ y ∷ [])) current ≡ some reason)
unfolding divergence
survived_diverges older x y current f hx hy =
    elim (Bool-cases (any (is_state_of current) (older ++ (x ∷ y ∷ [])))) [
      | inl back ↦ (Divergence.returned current.summary, rw (back, f.failed, f.signed) refl)
      | inr fresh ↦
          let thrice : leb 2 (repeats current (reversed (older ++ (x ∷ y ∷ [])))) ≡ true =
            ap (λ l. leb 2 (repeats current l)) (reversed_two older x y)
            ∙ twice_repeats current x y (reversed older) hx hy in
          (
            Divergence.survived (repeats current (reversed (older ++ (x ∷ y ∷ []))))
                current.summary,
            rw (fresh, thrice, f.failed, f.signed) refl,
          )
    ]

-- A failure with a signature, right after two failures with the same signature, blocks the run,
-- whatever the history and the candidates.
pub third_repeat_stops :
    (history : List VerifyOutcome) (x y current : VerifyOutcome)
    → IsFailure current
    → is_failure_of current x ≡ true
    → is_failure_of current y ≡ true
    → verify_visits history (x ∷ y ∷ current ∷ []) ≡ none
unfolding verify_visits
third_repeat_stops history x y current f hx hy = elim (visit-cases history x) [
  | inl stops ↦ rw stops refl
  | inr first ↦ elim (visit-cases (recorded history x) y) [
    | inl stops ↦ rw (first, stops) refl
    | inr second ↦
        let (kept, window) = window-append verify_history_limit history (x ∷ []) (omega arith) in
        let (older, window') = window-append verify_history_limit kept (x ∷ y ∷ []) (omega arith) in
        let now : recorded (recorded history x) y ≡ older ++ (x ∷ y ∷ []) =
          ap (λ l. last_n verify_history_limit (l ++ (y ∷ []))) window
          ∙ ap (λ l. last_n verify_history_limit l) (append-snoc kept (x ∷ []) y)
          ∙ window' in
        let (reason, diverges) = survived_diverges older x y current f hx hy in
        rw (first, second, now, blocked (older ++ (x ∷ y ∷ [])) current reason f.failed diverges)
          refl
  ]
]
