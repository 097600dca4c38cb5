-- ===== src/ParamBinder.antt =====
-- include/fbpp/core/param_binder.hpp: values bound by name into the input message of a statement.
pub mod Bound
pub mod Cleared
pub mod Samples
use fbpp.Prelude.{
  ℕ, ◌+◌, Bool, true, false, List, [], ◌∷◌, map, Option, none, some, length, set, replicate,
  get_elem?, ◌==◌,
}
use fbpp.Prelude.Int.{ℤ}
use fbpp.Prelude.Ascii.{Bytes, tolower}
use fbpp.Prelude.Dict.{Dict, find}
use fbpp.Prelude.Result.{Result, ok, err}
use fbpp.Message.{FieldInfo}
use fbpp.Message.Wire.{put_bytes}
use fbpp.Message.Metadata.{trim_start, trim_end}
use fbpp.Codec.{Outside, set_null}
use fbpp.Packing.{Value, context_of, pack_value}
use fbpp.Codec

-- `field_out_of_range` is the metadata's own exception, `codec` one of the codec.
pub data Fault : Type 0 where
  field_out_of_range : Fault
  codec : Codec.Fault → Fault

-- The statement has its mapping of names and its input metadata, which may be absent; `mapping_` of
-- the statement and the fields do not change while it is bound.
pub record Binder : Type 0 where
  pub mapping : Dict (List ℕ)
  pub meta : Option (List FieldInfo)
  pub buffer : Bytes
  pub bound : List Bool
  pub has_transaction : Bool

-- `initNullsToNull`, field by field.
unfoldable pub init_nulls : List FieldInfo → Bytes → Bytes
init_nulls [] m = m
init_nulls (f ∷ fs) m = init_nulls fs (set_null (some f.null_offset) m)

-- The constructor, with a message of `size` bytes.
abbrev pub begin_at : Dict (List ℕ) → Option (List FieldInfo) → ℕ → Bool → Binder
begin_at mapping none size tx = record {
  mapping = mapping;
  meta = none;
  buffer = [];
  bound = [];
  has_transaction = tx;
}
begin_at mapping (some fs) size tx = record {
  mapping = mapping;
  meta = some fs;
  buffer = init_nulls fs (replicate size 0);
  bound = replicate (length fs) false;
  has_transaction = tx;
}

unfoldable pub normalize_name : Bytes → Bytes
normalize_name name = map tolower (trim_end (trim_start name))

-- The buffer and the flags of the bound parameters.
abbrev pub Buffers : Type 0
Buffers = Bytes × List Bool

abbrev pub mark_packed : List Bool → ℕ → Result Codec.Fault Bytes → Result Fault Buffers
mark_packed bound pos (ok m) = ok (m, set bound pos true)
mark_packed bound pos (err e) = err (codec e)

-- `writeAt`, for the field with the number `pos`.
unfoldable pub write_at :
    Outside → Bool → Value → ℕ → Buffers → Option FieldInfo → Result Fault Buffers
unfolding pack_value
write_at E tx v pos b none = err field_out_of_range
write_at E tx v pos b (some f) = mark_packed b.1 pos (pack_value E (context_of f tx) v b.0)

-- The loop of `set`; an exception leaves what was written before it.
abbrev pub and_then :
    Buffers
    → Result Fault Buffers
    → (Buffers → Buffers × Result Fault Bool)
    → Buffers × Result Fault Bool
and_then b (ok b') rest = rest b'
and_then b (err e) rest = (b, err e)

unfoldable pub write_all :
    Outside → Bool → List FieldInfo → Value → List ℕ → Buffers → Buffers × Result Fault Bool
write_all E tx fs v [] b = (b, ok true)
write_all E tx fs v (pos ∷ ps) b =
    and_then b (write_at E tx v pos b (get_elem? fs pos)) (λ b'. write_all E tx fs v ps b')

abbrev pub keep : Binder → Buffers × Result Fault Bool → Binder × Result Fault Bool
keep b ((m, bound), r) = (record b { buffer = m; bound = bound }, r)

abbrev pub set_positions :
    Outside → Binder → List FieldInfo → Value → Option (List ℕ) → Binder × Result Fault Bool
set_positions E b fs v none = (b, ok false)
set_positions E b fs v (some ps) =
    keep b (write_all E b.has_transaction fs v ps (b.buffer, b.bound))

abbrev pub set_fields :
    Outside → Binder → Option (List FieldInfo) → Bytes → Value → Binder × Result Fault Bool
set_fields E b none name v = (b, ok false)
set_fields E b (some fs) name v = set_positions E b fs v (find (normalize_name name) b.mapping)

unfoldable pub set_param : Outside → Binder → Bytes → Value → Binder × Result Fault Bool
set_param E b name v = set_fields E b b.meta name v

-- `setNull` and `set(name, std::nullopt)`: the same for NULL, which the binder writes itself.
abbrev pub null_at : ℕ → Buffers → Option FieldInfo → Result Fault Buffers
null_at pos b none = err field_out_of_range
null_at pos b (some f) = ok (set_null (some f.null_offset) b.0, set b.1 pos true)

unfoldable pub null_all : List FieldInfo → List ℕ → Buffers → Buffers × Result Fault Bool
null_all fs [] b = (b, ok true)
null_all fs (pos ∷ ps) b = and_then b (null_at pos b (get_elem? fs pos)) (λ b'. null_all fs ps b')

abbrev pub null_positions : Binder → List FieldInfo → Option (List ℕ) → Binder × Result Fault Bool
null_positions b fs none = (b, ok false)
null_positions b fs (some ps) = keep b (null_all fs ps (b.buffer, b.bound))

abbrev pub null_fields : Binder → Option (List FieldInfo) → Bytes → Binder × Result Fault Bool
null_fields b none name = (b, ok false)
null_fields b (some fs) name = null_positions b fs (find (normalize_name name) b.mapping)

unfoldable pub set_null_param : Binder → Bytes → Binder × Result Fault Bool
set_null_param b name = null_fields b b.meta name

abbrev pub cleared : Binder → Option (List FieldInfo) → Binder
cleared b none = b
cleared b (some fs) = record b {
  buffer = init_nulls fs (replicate (length b.buffer) 0);
  bound = replicate (length b.bound) false;
}

unfoldable pub clear : Binder → Binder
unfolding init_nulls
clear b = cleared b b.meta

-- `empty`, by which the transaction chooses to execute without parameters.
abbrev pub no_fields : Option (List FieldInfo) → Bool
no_fields none = true
no_fields (some fs) = length fs == 0

unfoldable pub is_empty : Binder → Bool
is_empty b = no_fields b.meta
