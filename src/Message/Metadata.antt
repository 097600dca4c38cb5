-- ===== src/Message/Metadata.antt =====
-- src/core/firebird/fb_message_metadata.cpp: the fields that the engine describes, loaded when they
-- are first needed, and found by their number or by their name.
pub mod Loaded
pub mod Lookup
use fbpp.Prelude.{
  ℕ, ◌+◌, take, Bool, true, false, not, ◌&&◌, ◌||◌, List, [], ◌∷◌, map, Option, none, some, suc,
  zero, if◌then◌else◌, get_elem?,
}
use fbpp.Prelude.Ascii.{Bytes, isspace, toupper, str_eq}
use fbpp.Prelude.Result.{Result, ok, err}
use fbpp.NamedParam.Positional.{nonempty}
use fbpp.Message.{FieldInfo, display_name}

pub data Fault : Type 0 where
  not_initialized index_out_of_range engine : Fault

-- How the engine meets a loading: it describes all fields, or throws where it is asked for their
-- number, or for a field behind so many.
pub data Loading : Type 0 where
  describes throws_at_count : Loading
  throws_at : ℕ → Loading

-- `metadata_` is null or the engine's description; `asked` counts the loadings that reach the engine.
pub record Metadata : Type 0 where
  pub metadata : Option (List FieldInfo)
  pub fields : List FieldInfo
  pub name_upper : List Bytes
  pub alias_upper : List Bytes
  pub fields_loaded : Bool
  pub asked : ℕ

abbrev pub fresh : List FieldInfo → Metadata
fresh fs = record {
  metadata = some fs;
  fields = [];
  name_upper = [];
  alias_upper = [];
  fields_loaded = false;
  asked = 0;
}

unfoldable pub trim_start : Bytes → Bytes
trim_start [] = []
trim_start (c ∷ cs) = let rest = trim_start cs in if isspace c then rest else c ∷ cs

abbrev pub keep_unless_space : ℕ → Bytes → Bytes
keep_unless_space c (d ∷ ds) = c ∷ d ∷ ds
keep_unless_space c [] = if isspace c then [] else c ∷ []

unfoldable pub trim_end : Bytes → Bytes
trim_end [] = []
trim_end (c ∷ cs) = keep_unless_space c (trim_end cs)

unfoldable pub ascii_upper : Bytes → Bytes
ascii_upper s = map toupper s

unfoldable pub ascii_upper_trim : Bytes → Bytes
unfolding trim_start trim_end
ascii_upper_trim s = map toupper (trim_end (trim_start s))

-- The three lists.
abbrev pub filled : Metadata → List FieldInfo → Metadata
filled m fs = record m {
  fields = fs;
  name_upper = map (λ (f : FieldInfo). ascii_upper f.name) fs;
  alias_upper = map (λ (f : FieldInfo). ascii_upper f.alias) fs;
}

abbrev pub loaded : Metadata → List FieldInfo → Metadata
loaded m fs = record (filled m fs) { fields_loaded = true }

abbrev pub ask : Metadata → Metadata
ask m = record m { asked = m.asked + 1 }

-- The lists are cleared behind the count; what is pushed before an exception stays.
abbrev pub ask_fields : Metadata → List FieldInfo → Loading → Metadata × Bool
ask_fields m fs describes = (loaded m fs, true)
ask_fields m fs throws_at_count = (m, false)
ask_fields m fs (throws_at k) = (filled m (take k fs), false)

-- Whether it returns is the second part.
abbrev pub load_from : Metadata → Option (List FieldInfo) → Loading → Bool → Metadata × Bool
load_from m none a done = (m, true)
load_from m (some fs) a true = (m, true)
load_from m (some fs) a false = ask_fields (ask m) fs a

unfoldable pub load_fields : Metadata → Loading → Metadata × Bool
load_fields m a = load_from m m.metadata a m.fields_loaded

abbrev pub read_loaded {ℓ} :
    {A : Type ℓ} → Metadata × Bool → (Metadata → Result Fault A) → Metadata × Result Fault A
read_loaded (l, true) read = (l, read l)
read_loaded (l, false) read = (l, err engine)

-- The guard of every operation, and the loading behind it.
abbrev pub with_fields {ℓ} :
    {A : Type ℓ}
    → Metadata
    → Option (List FieldInfo)
    → Loading
    → (Metadata → Result Fault A)
    → Metadata × Result Fault A
with_fields m none a read = (m, err not_initialized)
with_fields m (some fs) a read = read_loaded (load_fields m a) read

abbrev pub or_out_of_range {ℓ} : {A : Type ℓ} → Option A → Result Fault A
or_out_of_range none = err index_out_of_range
or_out_of_range (some f) = ok f

unfoldable pub get_field_at : Metadata → Loading → ℕ → Metadata × Result Fault FieldInfo
get_field_at m a index =
    with_fields m m.metadata a (λ l. or_out_of_range (get_elem? l.fields index))

unfoldable pub get_fields : Metadata → Loading → Metadata × Result Fault (List FieldInfo)
get_fields m a = with_fields m m.metadata a (λ l. ok l.fields)

abbrev pub name_of : Option FieldInfo → Result Fault Bytes
name_of none = err index_out_of_range
name_of (some f) = ok (display_name f)

unfoldable pub get_display_name : Metadata → Loading → ℕ → Metadata × Result Fault Bytes
get_display_name m a index = with_fields m m.metadata a (λ l. name_of (get_elem? l.fields index))

unfoldable pub is_exact : Bytes → FieldInfo → Bool
is_exact name f = str_eq f.name name || str_eq f.alias name

-- Pass 1: the first exact match, as a number and as a field.
abbrev pub next_index : Option ℕ → Option ℕ
next_index none = none
next_index (some i) = some (suc i)

unfoldable pub exact_index : Bytes → List FieldInfo → Option ℕ
exact_index name [] = none
exact_index name (f ∷ fs) = if is_exact name f then some 0 else next_index (exact_index name fs)

unfoldable pub exact_field : Bytes → List FieldInfo → Option FieldInfo
exact_field name [] = none
exact_field name (f ∷ fs) = if is_exact name f then some f else exact_field name fs

-- Pass 2: the lists of upper-case names are as long as that of the fields.
unfoldable pub upper_index : Bytes → List Bytes → List Bytes → Option ℕ
upper_index lookup (n ∷ ns) (a ∷ aliases) =
    if str_eq n lookup || str_eq a lookup
    then some 0
    else next_index (upper_index lookup ns aliases)
upper_index lookup _ _ = none

unfoldable pub upper_field : Bytes → List FieldInfo → List Bytes → List Bytes → Option FieldInfo
upper_field lookup (f ∷ fs) (n ∷ ns) (a ∷ aliases) =
    if str_eq n lookup || str_eq a lookup then some f else upper_field lookup fs ns aliases
upper_field lookup _ _ _ = none

abbrev pub or_second {ℓ} : {A : Type ℓ} → Option A → Bool → Option A → Option A
or_second (some a) usable second = some a
or_second none usable second = if usable then second else none

unfoldable pub get_index : Metadata → Loading → Bytes → Metadata × Result Fault (Option ℕ)
get_index m a name = with_fields m m.metadata a (λ l. ok (
    or_second (exact_index name l.fields) (nonempty (ascii_upper_trim name))
      (upper_index (ascii_upper_trim name) l.name_upper l.alias_upper)))

unfoldable pub get_field : Metadata → Loading → Bytes → Metadata × Result Fault (Option FieldInfo)
get_field m a name = with_fields m m.metadata a (λ l. ok (
    or_second (exact_field name l.fields) (nonempty (ascii_upper_trim name))
      (upper_field (ascii_upper_trim name) l.fields l.name_upper l.alias_upper)))
