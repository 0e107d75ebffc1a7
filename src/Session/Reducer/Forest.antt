-- ===== src/Session/Reducer/Forest.antt =====
-- The tree of sub-agents over a whole journal.
use specrails_core.Prelude.{
  String, true, ◌≡◌, refl, sym, ap, ◌∙◌, subst, inl, inr, some, List, is_some, str_eq, ok,
  Bool-cases, arith, eq_iff,
}
use specrails_core.Prelude.Dict.{
  Dict, get, put, get-put-cases, get-put_self, get-put_ne, is_some-put,
}
use specrails_core.Session.Types.{SubagentPhase, phase_eq, turn_eq, input_eq, subagent_eq}
use specrails_core.Session.StateMachines.{subagent_transitions, can_transition}
use specrails_core.Session.Events.{SessionEventBody, SessionEventEnvelope}
use specrails_core.Session.Snapshot.{SubagentNode, SessionSnapshot}
use specrails_core.Session.Reducer.{apply_body, fold_events, has_parent}
use specrails_core.Session.Reducer.Fold.{fold_events-rel}
use specrails_core.Session.Reducer.Subagents.{Writes, created, changed, can_stay, body-Writes}

-- Every node stands under its own id, and its parent is known.
pub record IsForest (d : Dict SubagentNode) : Type 0 where
  pub keyed : (id : String) (node : SubagentNode) → get id d ≡ some node → node.subagent_id ≡ id
  pub rooted :
      (id : String) (node : SubagentNode)
      → get id d ≡ some node
      → (parent : String) → node.parent_id ≡ some parent
      → is_some (get parent d) ≡ true

-- A write under the node's own id keeps the nodes that are there.
put-IsForest :
    (d : Dict SubagentNode) (node : SubagentNode)
    → IsForest d
    → ((parent : String) → node.parent_id ≡ some parent → is_some (get parent d) ≡ true)
    → IsForest (put node.subagent_id node d)
put-IsForest d node f rooted = record {
  keyed = λ id n h. elim (get-put-cases node.subagent_id id node d n h) [
    | inl (same_id, same_node) ↦ rw same_node same_id
    | inr (_, old) ↦ f.keyed id n old
  ];
  rooted = λ id n h parent p.
      is_some-put node.subagent_id parent node d
        (elim (get-put-cases node.subagent_id id node d n h) [
          | inl (_, same_node) ↦
              rooted parent (ap (λ (m : SubagentNode). m.parent_id) (sym same_node) ∙ p)
          | inr (_, old) ↦ f.rooted id n old parent p
        ]);
}

-- Every node stays, under its parent, and its phase is the same or one that the table allows.
abbrev pub Progress : Dict SubagentNode → Dict SubagentNode → Type 0
Progress d d' =
    (id : String) (node : SubagentNode)
    → get id d ≡ some node
    → (node' : SubagentNode) × (get id d' ≡ some node')
      × (node'.parent_id ≡ node.parent_id)
      × (can_transition subagent_transitions node.phase node'.phase ≡ true)

-- The table of the sub-agents is transitive: what several steps reach, one reaches.
can_transition_trans :
    (a b c : SubagentPhase)
    → can_transition subagent_transitions a b ≡ true
    → can_transition subagent_transitions b c ≡ true
    → can_transition subagent_transitions a c ≡ true
unfolding can_transition subagent_transitions
can_transition_trans SubagentPhase.running b c h k = ground arith
can_transition_trans SubagentPhase.idle b c h k = ground arith
can_transition_trans SubagentPhase.failed b c h k = ground arith
can_transition_trans SubagentPhase.stopped b c h k = ground arith
can_transition_trans SubagentPhase.killed b c h k = ground arith
can_transition_trans SubagentPhase.interrupted b c h k = ground arith

put-Progress :
    (d : Dict SubagentNode) (k : String) (new : SubagentNode)
    → ((old : SubagentNode)
        → get k d ≡ some old
        → (new.parent_id ≡ old.parent_id)
          × (can_transition subagent_transitions old.phase new.phase ≡ true))
    → Progress d (put k new d)
put-Progress d k new step id node h = elim (Bool-cases (str_eq k id)) [
  | inl e ↦
      (let same_id : k ≡ id = (eq_iff k id).0 e in
        let (parent, phase) = step node (rw same_id h) in
        (new, rw (← same_id) (get-put_self k new d), parent, phase))
  | inr e ↦
      (node, get-put_ne k id new d (λ q. cc (e, (eq_iff k id).1 q)) ∙ h, refl, can_stay node.phase)
]

-- What an accepted event does to the tree.
abbrev pub Grows : SessionSnapshot → SessionSnapshot → Type 0
Grows s t = IsForest s.subagents → IsForest t.subagents × Progress s.subagents t.subagents

parent_known :
    (s : SessionSnapshot) (node : SubagentNode)
    → has_parent s node.parent_id ≡ true
    → (parent : String) → node.parent_id ≡ some parent
    → is_some (get parent s.subagents) ≡ true
unfolding has_parent
parent_known s node h parent p = subst (λ o. has_parent s o ≡ true) p h

changed_node :
    (id : String) (old node o : SubagentNode) (d : Dict SubagentNode)
    → get id d ≡ some old
    → node.subagent_id ≡ id
    → get node.subagent_id d ≡ some o
    → node.parent_id ≡ old.parent_id
    → can_transition subagent_transitions old.phase node.phase ≡ true
    → (node.parent_id ≡ o.parent_id)
      × (can_transition subagent_transitions o.phase node.phase ≡ true)
changed_node id old node o d found key there parent phase =
    let same_old : old ≡ o = cc in
    (
      parent ∙ ap (λ (n : SubagentNode). n.parent_id) same_old,
      subst (λ (n : SubagentNode). can_transition subagent_transitions n.phase node.phase ≡ true)
          same_old phase,
    )

Writes-Grows : (s t : SessionSnapshot) → Writes s t.subagents → Grows s t
Writes-Grows s t (created node new _ parent same_d) f = rw same_d (
  put-IsForest s.subagents node f (parent_known s node parent),
  put-Progress s.subagents node.subagent_id node (λ old there. absurd (cc (new, there))),
)
Writes-Grows s t (changed id old node found same_id same_parent phase same_d) f =
    let key : node.subagent_id ≡ id = same_id ∙ f.keyed id old found in
    rw same_d (
      put-IsForest s.subagents node f
          (λ parent p. f.rooted id old found parent (sym same_parent ∙ p)),
      put-Progress s.subagents node.subagent_id node
          (λ o there. changed_node id old node o s.subagents found key there same_parent phase),
    )

pub body-Grows :
    (s : SessionSnapshot) (at : String) (e : SessionEventBody) (t : SessionSnapshot)
    → apply_body s at e ≡ ok t
    → Grows s t
body-Grows s at e t h f = elim (body-Writes s at e t h) [
  | inl same_d ↦ rw same_d (f, λ id node there. (node, there, refl, can_stay node.phase))
  | inr w ↦ Writes-Grows s t w f
]

Grows-trans : (s t u : SessionSnapshot) → Grows s t → Grows t u → Grows s u
Grows-trans s t u st tu f =
    let (g, progress) = st f in
    let (k, progress') = tu g in
    (
      k,
      λ id node there.
          let (n, there_t, parent, phase) = progress id node there in
          let (m, there_u, parent', phase') = progress' id n there_t in
          (
            m,
            there_u,
            parent' ∙ parent,
            can_transition_trans node.phase n.phase m.phase phase phase',
          ),
    )

-- Along a journal no sub-agent is forgotten or moved to another parent, and its phase has only
-- gone where one step of the table leads: one that failed, was killed or was interrupted stays
-- so, one that was stopped can only be killed, and none that ended runs again. The tree stays
-- closed under parents.
pub subagents-Progress :
    (s : SessionSnapshot) (xs : List SessionEventEnvelope) (t : SessionSnapshot)
    → IsForest s.subagents
    → fold_events s xs ≡ ok t
    → IsForest t.subagents × Progress s.subagents t.subagents
subagents-Progress s xs t f h =
    fold_events-rel Grows (λ u g. (g, λ id node there. (node, there, refl, can_stay node.phase)))
      Grows-trans body-Grows
      (λ u n g. (g, λ id node there. (node, there, refl, can_stay node.phase))) s xs t h f
