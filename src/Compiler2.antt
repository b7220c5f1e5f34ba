-- ===== src/Compiler2.antt =====
-- pipeline/compilers/compiler2.py: from the RTL text of a spec to Verilog. This file has what is
-- known of the signals, and their classes.
pub mod Text
pub mod Translate
pub mod Parse
pub mod Variables
pub mod Banlist
pub mod Emit
pub mod Drivers
pub mod Ports
pub mod Fuel
pub mod Trim
pub mod Ternary
pub mod RightSide
pub mod Declared
use Prim.Native.Char.{code}
use agentic_rtl_engine.Prelude.{
  ℕ, String, Bool, not, ◌&&◌, ◌||◌, Option, none, some, List, ltb, ◌==◌, if◌then◌else◌, str_eq,
}
use agentic_rtl_engine.Prelude.Dict.{Dict, get, contains}
use agentic_rtl_engine.Expr.Lexer.{span}
use agentic_rtl_engine.Bridge.{strip, starts_with}

-- The fields of `RTLTLACompiler`; a set of names is a list.
pub record CompilerState : Type 0 where
  pub reset_port : String
  pub variables : List String
  pub widths : Dict ℕ
  pub depths : Dict ℕ
  pub comb_vars : List String
  pub seq_vars : List String

pub data Class : Type 0 where
  fixed_input input output_wire output_reg internal_reg dropped : Class

-- `v in self._FIXED_INPUTS`
unfoldable pub is_fixed_input : String → String → Bool
is_fixed_input reset_port v = str_eq v "clk" || str_eq v reset_port

unfoldable pub is_verify : String → Bool
unfolding starts_with
is_verify v = starts_with "hw_" v

unfoldable pub is_internal_reg : String → Bool
unfolding starts_with
is_internal_reg v = starts_with "r_" v

unfoldable pub depth_of : Option ℕ → ℕ
depth_of none = 0
depth_of (some d) = d

unfoldable pub is_memory : Dict ℕ → String → Bool
unfolding depth_of get
is_memory depths v = ltb 1 (depth_of (get v depths))

-- `_lhs_base`: the text before a first bracket.
unfoldable pub base_name : String → String
unfolding span strip
base_name lhs = strip (span (λ c. not (c == b'[')) lhs).0

-- `_emit`
unfoldable pub is_emitted : String → String → Bool
unfolding is_fixed_input is_verify
is_emitted reset_port v = not (is_fixed_input reset_port v) && not (is_verify v)

unfoldable pub classify : CompilerState → String → Class
unfolding is_fixed_input is_verify is_memory is_internal_reg contains
classify g v =
    if is_fixed_input g.reset_port v
    then fixed_input
    else if is_verify v
    then dropped
    else if is_memory g.depths v
    then internal_reg
    else if is_internal_reg v
    then internal_reg
    else if contains v g.seq_vars
    then output_reg
    else if contains v g.comb_vars
    then output_wire
    else input
