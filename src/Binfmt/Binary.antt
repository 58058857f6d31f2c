-- ===== src/Binfmt/Binary.antt =====
-- irida-core/core/binfmt/include/irida/binfmt/binary.hpp: what is kept of a parsed executable.
use irida.Common.{Bool, List, Text, ℕ}
use irida.Base.{Result}

pub record Section : Type 0 where
  pub name : Text
  pub vaddr : ℕ
  pub vsize : ℕ
  pub offset : ℕ
  pub size : ℕ
  pub perms : ℕ

pub record Import : Type 0 where
  pub name : Text
  pub library : Text
  pub iat_addr : ℕ

pub record Export : Type 0 where
  pub name : Text
  pub addr : ℕ
  pub ordinal : ℕ

pub record Symbol : Type 0 where
  pub name : Text
  pub addr : ℕ
  pub kind : Text

pub record BinaryInfo : Type 0 where
  pub path : Text
  pub format : Text
  pub entry_point : ℕ
  pub image_base : ℕ
  pub is_64bit : Bool
  pub sections : List Section
  pub imports : List Import
  pub exports : List Export
  pub symbols : List Symbol

-- `BinaryParser::parse_file`, which reads a file.
pub record BinaryParser : Type 0 where
  pub parse_file : Text → Result BinaryInfo
