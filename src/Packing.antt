-- ===== src/Packing.antt =====
-- include/fbpp/core/tuple_packer.hpp and include/fbpp/core/tuple_unpacker.hpp: the elements of a
-- tuple in a message, each by the codec.
pub mod Fields
pub mod Held
pub mod RoundTrip
pub mod Samples
mod Tests
use fbpp.Prelude.{
  ℕ, Bool, true, false, List, [], ◌∷◌, ◌++◌, Option, none, some, length, replicate, drop, ◌==◌,
  if◌then◌else◌,
}
use fbpp.Prelude.Int.{ℤ}
use fbpp.Prelude.Ascii.{Bytes}
use fbpp.Prelude.Result.{Result, ok, err, ◌>>=◌}
use fbpp.Message.{FieldInfo}
use fbpp.Codec.{Outside, Context, set_null, is_null}
use fbpp.Codec
use fbpp.Codec.Text.{write_text, read_text}
use fbpp.Codec.Integer.{IntType, write_integer, read_integer}

-- The values that are modelled: integers, strings, and std::optional of either.
pub data Value : Type 0 where
  integer : ℤ → Value
  string : Bytes → Value
  disengaged : Value

abbrev pub context_of : FieldInfo → Bool → Context
context_of f tx = record {
  field = some f;
  has_transaction = tx;
  null_indicator = some f.null_offset;
  data_at = f.offset;
}

-- `packValueWithCodec`.
unfoldable pub pack_value : Outside → Context → Value → Bytes → Result Codec.Fault Bytes
pack_value E ctx (integer v) m = write_integer E ctx v m
pack_value E ctx (string s) m = write_text E ctx s m
pack_value E ctx disengaged m = ok (set_null ctx.null_indicator m)

-- The types of the elements that are modelled.
pub data Kind : Type 0 where
  integral : IntType → Kind
  text : Kind
  optional : Kind → Kind

abbrev pub as_integer : Result Codec.Fault ℤ → Result Codec.Fault Value
as_integer r = r >>= λ z. ok (integer z)

abbrev pub as_string : Result Codec.Fault Bytes → Result Codec.Fault Value
as_string r = r >>= λ s. ok (string s)

-- `unpackValueWithCodec`, into a value of the type that was made by default.
unfoldable pub unpack_value : Outside → Context → Kind → Bytes → Result Codec.Fault Value
unpack_value E ctx (integral T) m = as_integer (read_integer T ctx m)
unpack_value E ctx text m = as_string (read_text E ctx [] m)
unpack_value E ctx (optional k) m =
    let inner = unpack_value E ctx k m in
    if is_null ctx.null_indicator m then ok disengaged else inner

pub data Fault : Type 0 where
  invalid_parameters arity_mismatch : Fault
  codec : Codec.Fault → Fault

abbrev pub from_codec {ℓ} : {A : Type ℓ} → Result Codec.Fault A → Result Fault A
from_codec (ok a) = ok a
from_codec (err e) = err (codec e)

-- `TuplePackHelper`: element by element, each into its field. An exception leaves the message
-- unfinished, and its callers drop it.
unfoldable pub pack_fields :
    Outside → Bool → List FieldInfo → List Value → Bytes → Result Codec.Fault Bytes
unfolding pack_value
pack_fields E tx (f ∷ fs) (v ∷ vs) m =
    pack_value E (context_of f tx) v m >>= λ m'. pack_fields E tx fs vs m'
pack_fields E tx _ _ m = ok m

-- `memset(buffer, 0, n)`.
unfoldable pub zero_front : ℕ → Bytes → Bytes
zero_front n buffer = replicate n 0 ++ drop n buffer

-- `pack`, into a buffer, with the metadata and its message length; either pointer may be null.
unfoldable pub pack :
    Outside → Bool → Option (List FieldInfo × ℕ) → List Value → Option Bytes → Result Fault Bytes
unfolding pack_fields zero_front
pack E tx (some (fs, n)) vs (some buffer) =
    if length vs == length fs
    then from_codec (pack_fields E tx fs vs (zero_front n buffer))
    else err arity_mismatch
pack E tx _ vs _ = err invalid_parameters

-- `TupleUnpackHelper`.
unfoldable pub unpack_fields :
    Outside → Bool → List FieldInfo → List Kind → Bytes → Result Codec.Fault (List Value)
unfolding unpack_value
unpack_fields E tx (f ∷ fs) (k ∷ ks) m =
    unpack_value E (context_of f tx) k m >>= λ v. unpack_fields E tx fs ks m >>= λ vs. ok (v ∷ vs)
unpack_fields E tx _ _ m = ok []

unfoldable pub unpack :
    Outside → Bool → Option (List FieldInfo) → List Kind → Option Bytes → Result Fault (List Value)
unfolding unpack_fields
unpack E tx (some fs) ks (some buffer) =
    if length fs == length ks
    then from_codec (unpack_fields E tx fs ks buffer)
    else err arity_mismatch
unpack E tx _ ks _ = err invalid_parameters
