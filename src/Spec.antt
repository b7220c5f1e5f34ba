-- ===== src/Spec.antt =====
-- The engine spec, pipeline/refinement/rules/base.py: the dict that the refinement rules read and
-- write. A list that is missing is empty here; `is_rtl_style` of an action, which no code reads, is
-- left out.
use agentic_rtl_engine.Prelude.{ℕ, zero, suc, String, Bool, false, Option, none, some, List, []}
use agentic_rtl_engine.Prelude.Dict.{Dict}
use agentic_rtl_engine.Kernel.Domain.{Mode}
use agentic_rtl_engine.Kernel.Check.{Flags}

-- A depth makes a memory; 0 stands for a missing depth, an empty type for a missing one.
pub record Variable : Type 0 where
  pub name : String
  pub type : String
  pub width : Option ℕ
  pub depth : ℕ
  pub abstract : Option Bool
  pub reset_value : Option String
  pub clocked : Bool
  pub combinational : Bool

-- An update, with the index of the element where it writes a memory, else an empty text.
pub record ActionUpdate : Type 0 where
  pub variable : String
  pub index : String
  pub expression : String

-- A branch of an alternation or a step of a sequence; a missing guard is empty.
pub record Guarded : Type 0 where
  pub label : String
  pub guard : String
  pub updates : List ActionUpdate

-- What LoopIntroduction records of the obligations, and of the loop for the scheduler.
pub record Audit : Type 0 where
  pub invariant : String
  pub variant : String
  pub guard : String
  pub mode : Mode
  pub cases_checked : ℕ
  pub obligations : Flags

pub record LoopMarker : Type 0 where
  pub init : Dict String
  pub body : Dict String
  pub variant : String
  pub guard : String

pub record Action : Type 0 where
  pub name : String
  pub guard : Option String
  pub updates : List ActionUpdate
  pub branches : List Guarded
  pub sequential_steps : List Guarded
  pub clocked : Bool
  pub combinational : Bool
  pub spec_statement : Bool
  pub postcondition : Option String
  pub refinement : Option Audit
  pub loop : Option LoopMarker

pub record Spec : Type 0 where
  pub variables : List Variable
  pub actions : List Action
  pub init : String
  pub invariants : List String
  pub abstraction_mapping : Dict String
  pub reset_action : Option String
  pub properties : List String

-- An action that has only a name and updates.
abbrev pub plain_action : String → Option String → List ActionUpdate → Action
plain_action name guard updates = record {
  name = name;
  guard = guard;
  updates = updates;
  branches = [];
  sequential_steps = [];
  clocked = false;
  combinational = false;
  spec_statement = false;
  postcondition = none;
  refinement = none;
  loop = none;
}

-- `int(v.get("width") or 1)`
unfoldable pub width_or_one : Option ℕ → ℕ
width_or_one none = 1
width_or_one (some zero) = 1
width_or_one (some (suc w)) = suc w
