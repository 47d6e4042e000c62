-- ===== src/Storage/Records.antt =====
-- parsers/src/common.rs: what a parser returns for a file.
use cortex_engine.Common.{ℕ, String, Option, List, ◌+++◌}

pub record NodeRecord : Type 0 where
  pub id : String
  pub node_type : String
  pub name : String
  pub fqn : String
  pub file_path : String
  pub start_line : ℕ
  pub end_line : ℕ
  pub signature : Option String
  pub return_type : Option String
  pub docstring : Option String
  pub is_exported : Option ℕ
  pub is_async : Option ℕ
  pub is_test : Option ℕ
  pub raw_body : String
  pub skeleton_standard : Option String
  pub skeleton_minimal : Option String
  pub language : String

-- `confidence` is an `f64` that is only copied: its 64 bits.
pub record EdgeRecord : Type 0 where
  pub source_id : String
  pub target_id : String
  pub edge_type : String
  pub target_name : Option String
  pub target_kind_hint : Option String
  pub target_fqn_hint : Option String
  pub call_site_line : Option ℕ
  pub confidence : ℕ

-- 1.0
abbrev pub default_confidence : ℕ
default_confidence = 0x3ff0_0000_0000_0000

pub record ParseResult : Type 0 where
  pub nodes : List NodeRecord
  pub edges : List EdgeRecord

abbrev pub unresolved_fqn_prefix : String
unresolved_fqn_prefix = "__unresolved_fqn__::"

abbrev pub unresolved_name_prefix : String
unresolved_name_prefix = "__unresolved__::"

unfoldable pub unresolved_fqn : String → String
unresolved_fqn fqn = unresolved_fqn_prefix +++ fqn

unfoldable pub unresolved_name : String → String
unresolved_name name = unresolved_name_prefix +++ name
