-- ===== src/Message.antt =====
-- include/fbpp/core/message_metadata.hpp and src/core/firebird/fb_message_metadata.cpp: the fields
-- of a message. What the engine's metadata answers is a list of fields.
pub mod Wire
pub mod Layout
pub mod Metadata
mod Tests
use fbpp.Prelude.{ℕ, Bool, List, []}
use fbpp.Prelude.Int.{ℤ}
use fbpp.Prelude.Ascii.{Bytes}

-- The types of ibase.h that the sources name.
pub data SqlType : Type 0 where
  short long int64 int128 : SqlType
  float double d_float dec16 dec34 : SqlType
  boolean text varying blob array : SqlType
  type_date type_time timestamp timestamp_tz time_tz : SqlType
  other : ℕ → SqlType

-- A type code: the even code that has a name, and the lowest bit, which marks a nullable column.
pub record SqlCode : Type 0 where
  pub base : SqlType
  pub flag : Bool

-- The lengths and offsets are unsigned, the scale is an int.
pub record FieldInfo : Type 0 where
  pub name : Bytes
  pub relation : Bytes
  pub owner : Bytes
  pub alias : Bytes
  pub type : SqlCode
  pub nullable : Bool
  pub sub_type : ℕ
  pub length : ℕ
  pub scale : ℤ
  pub char_set : ℕ
  pub offset : ℕ
  pub null_offset : ℕ

abbrev pub display_name_of : Bytes → Bytes → Bytes
display_name_of [] name = name
display_name_of alias name = alias

unfoldable pub display_name : FieldInfo → Bytes
display_name f = display_name_of f.alias f.name
