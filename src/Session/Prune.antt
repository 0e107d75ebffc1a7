-- ===== src/Session/Prune.antt =====
-- Forgetting old inputs: snapshot.ts, `pruneInputs`.
use specrails_core.Prelude.{
  ℕ, zero, suc, ◌-◌, ◌≤◌, String, Bool, true, false, not, ◌||◌, ◌≡◌, refl, sym, ap, ◌∙◌, subst, inl,
  inr, some, List, [], ◌∷◌, length, take, keep, All, leb, str_eq, Bool-cases, leb→le, leb_false→lt,
  length-keep-le, arith, eq_iff, eq_refl,
}
use mathlib.Core.Bool.{false≢true}
use specrails_core.Prelude.Dict.{
  Dict, includes, get, keys, get-keep, Distinct, Distinct-keep, NamedBy, NamedBy-keep,
}
use specrails_core.Session.Types.{phase_eq, turn_eq, input_eq, subagent_eq}
use specrails_core.Session.Snapshot.{
  InputRecord, snapshot_terminal_inputs, prune_inputs, is_terminal_input, terminal_inputs,
  input_ids_of,
}

-- Each input stands once, under its own id.
pub record IsIndexed (d : Dict InputRecord) : Type 0 where
  pub named : NamedBy (λ (r : InputRecord). r.input_id) d
  pub distinct : Distinct (keys d)

abbrev ids : Dict InputRecord → List String
ids d = input_ids_of (terminal_inputs d)

abbrev drop_ids : Dict InputRecord → List String
drop_ids d =
    input_ids_of (take (length (terminal_inputs d) - snapshot_terminal_inputs) (terminal_inputs d))

or_right : (b c : Bool) → c ≡ true → b || c ≡ true
or_right b c h = ground arith

-- The record of a terminal input's id is terminal.
includes-ids-keys :
    (d : Dict InputRecord) (k : String)
    → NamedBy (λ (r : InputRecord). r.input_id) d
    → includes (keys d) k ≡ false
    → includes (ids d) k ≡ false
includes-ids-keys [] k n h = refl
includes-ids-keys ((j, w) ∷ d) k n h = ground (arith, includes-ids-keys d k n.1, n.0)

terminal_of_included :
    (d : Dict InputRecord) (k : String) (v : InputRecord)
    → NamedBy (λ (r : InputRecord). r.input_id) d
    → Distinct (keys d)
    → includes (ids d) k ≡ true
    → get k d ≡ some v
    → is_terminal_input v.state ≡ true
unfolding get
terminal_of_included [] k v n u h g = cc
terminal_of_included ((j, w) ∷ d) k v n u h g = elim (Bool-cases (str_eq j k)) [
  | inl e ↦
      (let once : includes (keys d) k ≡ false =
          subst (λ i. includes (keys d) i ≡ false) ((eq_iff j k).0 e) u.0 in
        ground (arith, includes-ids-keys d k n.1 once))
  | inr e ↦ ground (arith, terminal_of_included d k v n.1 u.1, n.0)
]

includes-take :
    (m : ℕ) (xs : List InputRecord) (k : String)
    → includes (input_ids_of (take m xs)) k ≡ true
    → includes (input_ids_of xs) k ≡ true
includes-take zero xs k h = cc
includes-take (suc m) [] k h = h
includes-take (suc m) (x ∷ xs) k h = ground (arith, includes-take m xs k)

-- A live input is never forgotten.
pub prune-live :
    (d : Dict InputRecord) (k : String) (v : InputRecord)
    → IsIndexed d
    → get k d ≡ some v
    → is_terminal_input v.state ≡ false
    → get k (prune_inputs d) ≡ some v
unfolding prune_inputs
prune-live d k v ix g live = elim (Bool-cases (includes (drop_ids d) k)) [
  | inl dropped ↦ absurd (
      false≢true (
        sym live
        ∙ terminal_of_included d k v ix.named ix.distinct
            (includes-take (length (terminal_inputs d) - snapshot_terminal_inputs)
              (terminal_inputs d) k dropped)
            g))
  | inr kept ↦
      ground (arith, get-keep (λ (e : String × InputRecord). not (includes (drop_ids d) e.0)) k v d)
]

-- Filtering the entries by key filters the terminal inputs by id.
terminal_inputs-keep :
    (dropped : List String) (d : Dict InputRecord)
    → NamedBy (λ (r : InputRecord). r.input_id) d
    → terminal_inputs (keep (λ e. not (includes dropped e.0)) d)
      ≡ keep (λ r. not (includes dropped r.input_id)) (terminal_inputs d)
terminal_inputs-keep dropped [] n = refl
terminal_inputs-keep dropped ((j, w) ∷ d) n =
    ground (arith, terminal_inputs-keep dropped d n.1, n.0)

-- What a filter refuses at the front is not counted.
length-keep-sub :
    (q : InputRecord → Bool) (m : ℕ) (xs : List InputRecord)
    → All (λ r. q r ≡ false) (take m xs)
    → length (keep q xs) ≤ length xs - m
length-keep-sub q zero xs h = omega (arith, length-keep-le q xs)
length-keep-sub q (suc m) [] h = omega arith
length-keep-sub q (suc m) (x ∷ xs) h = rw h.0 (omega (arith, length-keep-sub q m xs h.1))

All-included :
    (dropped : List String) (xs : List InputRecord)
    → ((j : String) → includes (input_ids_of xs) j ≡ true → includes dropped j ≡ true)
    → All (λ r. not (includes dropped r.input_id) ≡ false) xs
All-included dropped [] h = tt
All-included dropped (x ∷ xs) h = (
  ap not (h x.input_id (rw (eq_refl x.input_id))),
  All-included dropped xs (λ j m. h j (or_right (str_eq x.input_id j) _ m)),
)

-- At most 500 terminal inputs are kept.
pub prune_bound :
    (d : Dict InputRecord)
    → NamedBy (λ (r : InputRecord). r.input_id) d
    → length (terminal_inputs (prune_inputs d)) ≤ snapshot_terminal_inputs
unfolding prune_inputs
prune_bound d n =
    let terminal = terminal_inputs d in
    let extra : ℕ = length terminal - snapshot_terminal_inputs in
    elim (Bool-cases (leb (length terminal) snapshot_terminal_inputs)) [
      | inl few ↦ rw few (leb→le (length terminal) snapshot_terminal_inputs few)
      | inr many ↦
          rw (many, terminal_inputs-keep (drop_ids d) d n)
            (omega (
              arith,
              leb_false→lt (length terminal) snapshot_terminal_inputs many,
              length-keep-sub (λ r. not (includes (drop_ids d) r.input_id)) extra terminal
                  (All-included (drop_ids d) (take extra terminal) (λ j h. h)),
            ))
    ]

pub prune-IsIndexed : (d : Dict InputRecord) → IsIndexed d → IsIndexed (prune_inputs d)
unfolding prune_inputs
prune-IsIndexed d ix =
    elim (Bool-cases (leb (length (terminal_inputs d)) snapshot_terminal_inputs)) [
      | inl few ↦ rw few ix
      | inr many ↦ rw many (record {
        named =
            NamedBy-keep _ (λ (e : String × InputRecord). not (includes (drop_ids d) e.0)) d
              ix.named;
        distinct =
            Distinct-keep (λ (e : String × InputRecord). not (includes (drop_ids d) e.0)) d
              ix.distinct;
      })
    ]
