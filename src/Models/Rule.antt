-- ===== src/Models/Rule.antt =====
-- `RuleId` of src/reconcileflow/models.py. The constructors stand in the order of the enumeration,
-- which is the order in which the engine applies the rules.
use reconcileflow.Base.{List, [], ◌∷◌}

pub data RuleId : Type 0 where
  m0_reference m1_exact m2_tolerant m3_aggregate : RuleId

-- `for rule in RuleId`
abbrev pub rule_order : List RuleId
rule_order = RuleId.m0_reference ∷ RuleId.m1_exact ∷ RuleId.m2_tolerant ∷ RuleId.m3_aggregate ∷ []
