-- ===== src/Rules/Registry.antt =====
-- pipeline/refinement/rules/__init__.py: the registry of the engine.
use agentic_rtl_engine.Prelude.{List, [], ◌∷◌}
use agentic_rtl_engine.Kernel.Backend.{Kernel}
use agentic_rtl_engine.Spec.{Spec}
use agentic_rtl_engine.Engine.{Rule}
use agentic_rtl_engine.Rules.{Params}
use agentic_rtl_engine.Rules.Initialization
use agentic_rtl_engine.Rules.Iteration
use agentic_rtl_engine.Rules.SequentialComposition
use agentic_rtl_engine.Rules.Assignment
use agentic_rtl_engine.Rules.Alternation
use agentic_rtl_engine.Rules.IntroduceVariable
use agentic_rtl_engine.Rules.LoopIntroduction
use agentic_rtl_engine.Rules.ScheduleHandshakeFsm

-- `TIER1_RULES`
unfoldable pub tier1_rules : Kernel → List (Rule Spec Params)
tier1_rules kernel =
    record {
      name = "Initialization";
      is_applicable = Initialization.is_applicable;
      apply = Initialization.apply;
    }
    ∷ record {
      name = "Iteration";
      is_applicable = Iteration.is_applicable;
      apply = Iteration.apply;
    }
    ∷ record {
      name = "SequentialComposition";
      is_applicable = SequentialComposition.is_applicable;
      apply = SequentialComposition.apply;
    }
    ∷ record {
      name = "Assignment";
      is_applicable = Assignment.is_applicable;
      apply = Assignment.apply;
    }
    ∷ record {
      name = "Alternation";
      is_applicable = Alternation.is_applicable;
      apply = Alternation.apply;
    }
    ∷ record {
      name = "IntroduceVariable";
      is_applicable = IntroduceVariable.is_applicable;
      apply = IntroduceVariable.apply;
    }
    ∷ record {
      name = "LoopIntroduction";
      is_applicable = LoopIntroduction.is_applicable;
      apply = LoopIntroduction.apply kernel;
    }
    ∷ record {
      name = "ScheduleHandshakeFSM";
      is_applicable = ScheduleHandshakeFsm.is_applicable;
      apply = ScheduleHandshakeFsm.apply;
    }
    ∷ []
