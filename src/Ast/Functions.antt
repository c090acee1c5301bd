-- ===== src/Ast/Functions.antt =====
-- What the symbol table reads of functions and structs: compiler/ast/src/functions and
-- compiler/ast/src/struct.
use aleotiktacto.Prelude.{Bool, Option, List}
use aleotiktacto.Ast.{Span, NodeInfo, Identifier, Ty}

-- functions/mode.rs
pub data Mode : Type 0 where
  none_ constant private public : Mode

-- functions/variant.rs
pub data Variant : Type 0 where
  inline standard transition : Variant

-- functions/input.rs
pub record FunctionInput : Type 0 where
  pub identifier : Identifier
  pub mode : Mode
  pub type_ : Ty
  pub info : NodeInfo

-- functions/external.rs
pub record External : Type 0 where
  pub identifier : Identifier
  pub program_name : Identifier
  pub record_ : Identifier
  pub info : NodeInfo

pub data Input : Type 0 where
  internal : FunctionInput → Input
  external : External → Input

-- The parts of `Finalize` and `Function` that a function symbol holds, and the function's span.
pub record FinalizeHeader : Type 0 where
  pub input : List Input
  pub output_type : Ty

pub record FunctionHeader : Type 0 where
  pub variant : Variant
  pub input : List Input
  pub output_type : Ty
  pub finalize : Option FinalizeHeader
  pub span : Span

-- struct/member.rs
pub record Member : Type 0 where
  pub mode : Mode
  pub identifier : Identifier
  pub type_ : Ty
  pub info : NodeInfo

-- struct/mod.rs
pub record Struct : Type 0 where
  pub identifier : Identifier
  pub members : List Member
  pub is_record : Bool
  pub info : NodeInfo
