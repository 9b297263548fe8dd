-- ===== src/GraphCompile/Verdict.antt =====
-- Which graphs `validate_and_compile_graph` passes.
use plantlens.Prelude.{
  String, Bool, true, false, List, [], ◌∷◌, ◌++◌, ◌&&◌, ◌≡◌, ◌↔◌, refl, sym, ◌∙◌, arith, all, map,
  All, All_of, All-map,
}
use plantlens.Prelude.Integers.{is_negative}
use plantlens.Prelude.Dict.{contains}
use plantlens.Prelude.Strings.{distinct, NoRepeat}
use plantlens.Dag.Graph.{Condition, RootCauseRule}
use plantlens.Situation.{SituationSpec}
use plantlens.GraphCompile.{
  Edge, CausalGraph, PlantIds, detect_cycle, approved_of, node_errors, edge_errors, cycle_error,
  known_tag, situation_errors, rule_errors, no_errors, validate_and_compile_graph,
}
use plantlens.GraphCompile.Arcs.{Acyclic}
use plantlens.GraphCompile.Cycle.{detect_cycle-Decides}
use plantlens.GraphCompile.Errors.{
  no_errors-append, and_split, and_true, all-All, All-all, node_lem, all-distinct, edge_lem,
  situation_lem, rule_lem, new_ids-NoRepeat, NoRepeat-new_ids, passes-Acyclic, Acyclic-passes,
  edge_ok, new_ids, specs_ok,
}

-- The edge joins assets and has no negative lag.
pub record EdgeSound (assets : List String) (e : Edge) : Type 0 where
  pub from_known : contains e.from_node assets ≡ true
  pub to_known : contains e.to_node assets ≡ true
  pub lag_min : is_negative e.lag_min ≡ false
  pub lag_max : is_negative e.lag_max ≡ false

abbrev pub TagsKnown : {R : Type 0} → List String → List (Condition R) → Type 0
TagsKnown tags cs = All (λ c. known_tag tags c ≡ true) cs

pub record IsSound {R : Type 0} (ids : PlantIds) (g : CausalGraph R) : Type 0 where
  pub nodes : All (λ n. contains n ids.asset_ids ≡ true) g.nodes
  pub edge_ids : NoRepeat (map (λ (e : Edge). e.id) g.edges)
  pub edges : All (EdgeSound ids.asset_ids) g.edges
  pub acyclic : Acyclic (approved_of g.edges)
  pub alarms :
      All
        (λ (s : SituationSpec R). All (λ a. contains a ids.alarm_ids ≡ true) s.required_alarms)
        g.situation_types
  pub tags :
      All (λ (s : SituationSpec R). TagsKnown ids.tag_ids s.extra_conditions) g.situation_types
  pub rules : All (λ (r : RootCauseRule R). TagsKnown ids.tag_ids r.conditions) g.root_cause_rules

module _ {R : Type 0} (ids : PlantIds) (g : CausalGraph R) where
  abbrev rules_ok : RootCauseRule R → Bool
  rules_ok r = all (known_tag ids.tag_ids) r.conditions

  ok_lem : (validate_and_compile_graph ids g).ok ≡ (
      all (λ n. contains n ids.asset_ids) g.nodes
      && ((new_ids [] g.edges && all (edge_ok ids.asset_ids) g.edges)
          && (no_errors (cycle_error (detect_cycle (approved_of g.edges)))
              && (all (specs_ok ids) g.situation_types && all rules_ok g.root_cause_rules))))
  unfolding validate_and_compile_graph
  ok_lem =
      let a = node_errors ids.asset_ids (distinct g.nodes) in
      let b = edge_errors ids.asset_ids [] g.edges in
      let c = cycle_error (detect_cycle (approved_of g.edges)) in
      let d = situation_errors ids g.situation_types in
      let e = rule_errors ids g.root_cause_rules in
      no_errors-append a (b ++ (c ++ (d ++ e)))
      ∙ (λ i. no_errors a && no_errors-append b (c ++ (d ++ e)) i)
      ∙ (λ i. no_errors a && (no_errors b && no_errors-append c (d ++ e) i))
      ∙ (λ i. no_errors a && (no_errors b && (no_errors c && no_errors-append d e i)))
      ∙ (λ i.
          (node_lem ids.asset_ids (distinct g.nodes)
              ∙ all-distinct (λ n. contains n ids.asset_ids) g.nodes)
            i
          && (edge_lem ids.asset_ids [] g.edges i
              && (no_errors c
                  && (situation_lem ids g.situation_types i && rule_lem ids g.root_cause_rules i))))

  -- A graph passes the compilation without an error exactly when it is sound: its nodes are assets of the
  -- plant, no two edges have one id, the edges join assets and have no negative lag, no path along
  -- approved edges leads from a node back to it, and the situation types and the rules name known
  -- alarms and tags.
  pub validate_and_compile_graph-IsSound :
      ((validate_and_compile_graph ids g).ok ≡ true) ↔ IsSound ids g
  validate_and_compile_graph-IsSound = (passed, sound)
    where
      edge_sound : (e : Edge) → edge_ok ids.asset_ids e ≡ true → EdgeSound ids.asset_ids e
      edge_sound e h = record {
        from_known = ground (arith, h);
        to_known = ground (arith, h);
        lag_min = ground (arith, h);
        lag_max = ground (arith, h);
      }

      edge_passes : (e : Edge) → EdgeSound ids.asset_ids e → edge_ok ids.asset_ids e ≡ true
      edge_passes e h = ground (arith, h.from_known, h.to_known, h.lag_min, h.lag_max)

      both :
          (ss : List (SituationSpec R))
          → All
              (λ (s : SituationSpec R).
                All (λ a. contains a ids.alarm_ids ≡ true) s.required_alarms)
              ss
          → All (λ (s : SituationSpec R). TagsKnown ids.tag_ids s.extra_conditions) ss
          → All (λ s. specs_ok ids s ≡ true) ss
      both [] a t = tt
      both (s ∷ ss) a t = (
        and_true (All-all _ s.required_alarms a.0) (All-all _ s.extra_conditions t.0),
        both ss a.1 t.1,
      )

      passed : (validate_and_compile_graph ids g).ok ≡ true → IsSound ids g
      passed h =
          let (nodes, r) = and_split _ _ (sym ok_lem ∙ h) in
          let (edges, r') = and_split _ _ r in
          let (new, joined) = and_split _ _ edges in
          let (walk, specs) = and_split _ _ r' in
          let (types, rules) = and_split _ _ specs in
          let each_type = all-All (specs_ok ids) g.situation_types types in
          record {
            nodes = all-All _ g.nodes nodes;
            edge_ids = (new_ids-NoRepeat [] g.edges new).0;
            edges =
                All-map _ (EdgeSound ids.asset_ids) edge_sound g.edges (all-All _ g.edges joined);
            acyclic =
                passes-Acyclic (approved_of g.edges) _ (detect_cycle-Decides (approved_of g.edges))
                  walk;
            alarms =
                All-map _ _ (λ s q. all-All _ s.required_alarms (and_split _ _ q).0)
                  g.situation_types each_type;
            tags =
                All-map _ _ (λ s q. all-All _ s.extra_conditions (and_split _ _ q).1)
                  g.situation_types each_type;
            rules =
                All-map _ _ (λ r q. all-All _ r.conditions q) g.root_cause_rules
                  (all-All rules_ok g.root_cause_rules rules);
          }

      sound : IsSound ids g → (validate_and_compile_graph ids g).ok ≡ true
      sound h =
          ok_lem
          ∙ and_true (All-all _ g.nodes h.nodes) (
              and_true
                (and_true (NoRepeat-new_ids [] g.edges h.edge_ids (All_of _ (λ e. refl) g.edges)) (
                  All-all _ g.edges
                    (All-map (EdgeSound ids.asset_ids) _ (λ e q. edge_passes e q) g.edges h.edges)))
                (and_true
                  (Acyclic-passes (approved_of g.edges) _
                    (detect_cycle-Decides (approved_of g.edges)) h.acyclic)
                  (and_true
                    (All-all (specs_ok ids) g.situation_types
                      (both g.situation_types h.alarms h.tags))
                    (All-all rules_ok g.root_cause_rules
                      (All-map _ _ (λ r q. All-all _ r.conditions q) g.root_cause_rules h.rules)))))
