-- ===== src/Analysis.antt =====
-- irida-core/core/analysis: functions, basic blocks and cross-references by recursive descent.
pub mod Builder
pub mod Analyzer
pub mod Keeps
mod Tests
use irida.Common.{List, Text, codes, ℕ, ◌++◌}
use irida.Base.{Bytes}
use irida.Proto.Packets.Numbers.{hexnum}

pub record BasicBlock : Type 0 where
  pub addr : ℕ
  pub size : ℕ
  pub jump : ℕ
  pub fail : ℕ
  pub instr_addrs : List ℕ

pub record Function : Type 0 where
  pub addr : ℕ
  pub size : ℕ
  pub name : Text
  pub blocks : List BasicBlock
  pub callees : List ℕ

pub data XrefKind : Type 0 where
  call jump data_ref : XrefKind

pub record Xref : Type 0 where
  pub from : ℕ
  pub to : ℕ
  pub kind : XrefKind

pub record AnalysisResult : Type 0 where
  pub functions : List Function
  pub xrefs : List Xref

-- `ByteReader`: the bytes that were filled, out of as many as were asked for. What the reader
-- changes behind the call is its state.
abbrev pub ByteReader : Type 0 → Type 0
ByteReader S = ℕ → ℕ → S → Bytes × S

abbrev pub read_window : ℕ
read_window = 256

-- `"fcn.%llx"`
unfoldable pub default_name : ℕ → Text
default_name addr = codes "fcn." ++ hexnum addr
