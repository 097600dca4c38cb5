-- ===== src/Connection/Database.antt =====
-- Attaching, detaching, creating and dropping, of src/core/firebird/fb_connection.cpp, and the test
-- of include/fbpp/core/status_utils.hpp for a database that is not there.
use fbpp.Prelude.{
  ℕ, Bool, true, false, ◌&&◌, ◌||◌, List, [], ◌∷◌, ◌++◌, Option, none, some, ◌==◌, ltb,
  if◌then◌else◌,
}
use fbpp.Prelude.Ascii.{Bytes, codes, tolower}
use fbpp.Prelude.Result.{Result, ok, err}

-- ConnectionParams, but for the options.
pub record ConnectionParams : Type 0 where
  pub database : Bytes
  pub user : Bytes
  pub password : Bytes
  pub charset : Bytes
  pub role : Bytes
  pub sql_dialect : ℕ

-- The items of a parameter block.
pub data DpbItem : Type 0 where
  user_name password lc_ctype set_db_charset sql_role_name : Bytes → DpbItem
  sql_dialect page_size : ℕ → DpbItem

abbrev pub unless_empty : (Bytes → DpbItem) → Bytes → List DpbItem
unless_empty item [] = []
unless_empty item (c ∷ cs) = item (c ∷ cs) ∷ []

abbrev pub dialect_item : ℕ → List DpbItem
dialect_item n = if ltb 0 n then DpbItem.sql_dialect n ∷ [] else []

unfoldable pub connect_dpb : ConnectionParams → List DpbItem
connect_dpb p =
    unless_empty user_name p.user
    ++ (unless_empty DpbItem.password p.password
        ++ (unless_empty lc_ctype p.charset
            ++ (unless_empty sql_role_name p.role ++ dialect_item p.sql_dialect)))

unfoldable pub create_dpb : ConnectionParams → List DpbItem
create_dpb p =
    unless_empty user_name p.user
    ++ (unless_empty DpbItem.password p.password
        ++ (unless_empty set_db_charset p.charset
            ++ (unless_empty lc_ctype p.charset
                ++ (unless_empty sql_role_name p.role
                    ++ (dialect_item p.sql_dialect ++ (page_size 8192 ∷ []))))))

unfoldable pub login_dpb : ConnectionParams → List DpbItem
login_dpb p = unless_empty user_name p.user ++ unless_empty DpbItem.password p.password

-- What is asked of the provider and of an attachment, the newest in front.
pub data Ask : Type 0 where
  attached created : Bytes → List DpbItem → Option ℕ → Ask
  detached drops : ℕ → Bool → Ask
  released : ℕ → Ask

pub data Fault : Type 0 where
  not_attached engine : Fault

-- An exception, or a pointer that may be null.
abbrev pub Pointer : Type 0
Pointer = Option (Option ℕ)

abbrev pub pointer_of : Pointer → Option ℕ
pointer_of none = none
pointer_of (some p) = p

abbrev pub connected_as : Pointer → Result Fault ℕ
connected_as none = err engine
connected_as (some none) = err not_attached
connected_as (some (some a)) = ok a

-- `connect`: the attachment of the object.
unfoldable pub connect : ConnectionParams → Pointer → List Ask × Result Fault ℕ
unfolding connect_dpb
connect p answer =
    (attached p.database (connect_dpb p) (pointer_of answer) ∷ [], connected_as answer)

-- `detach` and `release`; an exception of the first skips the second.
abbrev pub detach : ℕ → Bool → List Ask
detach a false = detached a false ∷ []
detach a true = released a ∷ detached a true ∷ []

-- `disconnect`: what is asked; the object has no attachment then.
unfoldable pub disconnect : Option ℕ → Bool → List Ask
disconnect none b = []
disconnect (some a) b = detach a b

abbrev pub detach_made : Bool → Option ℕ → List Ask
detach_made b none = []
detach_made b (some a) = detach a b

abbrev pub created_as : Bool → Pointer → Result Fault Bool
created_as b none = err engine
created_as b (some none) = ok true
created_as b (some (some a)) = if b then ok true else err engine

-- `createDatabase`, which detaches at once.
unfoldable pub create_database : ConnectionParams → Pointer → Bool → List Ask × Result Fault Bool
unfolding create_dpb
create_database p answer b = (
  detach_made b (pointer_of answer) ++ (created p.database (create_dpb p) (pointer_of answer) ∷ []),
  created_as b answer,
)

abbrev pub exists_as : Bool → Pointer → Bool
exists_as b none = false
exists_as b (some none) = false
exists_as b (some (some a)) = b

-- `databaseExists`: any exception says no.
unfoldable pub database_exists : ConnectionParams → Pointer → Bool → List Ask × Bool
unfolding login_dpb
database_exists p answer b = (
  detach_made b (pointer_of answer) ++ (attached p.database (login_dpb p) (pointer_of answer) ∷ []),
  exists_as b answer,
)

-- A word of a status vector: a number, or a pointer to a text.
pub data Word : Type 0 where
  number : ℕ → Word
  pointer : Bytes → Word

pub record Seen : Type 0 where
  pub io_error : Bool
  pub open_error : Bool
  pub unix_errno : Option ℕ
  pub no_such_file : Bool

abbrev pub starts_with_ic : Bytes → Bytes → Bool
starts_with_ic [] hay = true
starts_with_ic (n ∷ ns) [] = false
starts_with_ic (n ∷ ns) (c ∷ cs) = (tolower n == tolower c) && starts_with_ic ns cs

unfoldable pub contains_ic : Bytes → Bytes → Bool
contains_ic needle [] = starts_with_ic needle []
contains_ic needle (c ∷ cs) = starts_with_ic needle (c ∷ cs) || contains_ic needle cs

-- One tag with its value: isc_arg_gds is 1, isc_arg_interpreted 5, isc_arg_unix 7; isc_io_error is
-- 335544344.
abbrev pub see : Seen → ℕ → Word → Seen
see s tag (number g) =
    if tag == 1
    then record s {
      io_error = s.io_error || (g == 335544344);
      open_error = s.open_error || (g == 335544734);
    }
    else if tag == 7
    then record s { unix_errno = some g }
    else s
see s tag (pointer text) =
    if tag == 5
    then record s {
      no_such_file = s.no_such_file || contains_ic (codes "No such file or directory") text;
    }
    else s

-- The loop, to isc_arg_end, which is 0.
unfoldable pub scan_status : Seen → List Word → Seen
unfolding contains_ic
scan_status s (number tag ∷ w ∷ rest) =
    let more = scan_status (see s tag w) rest in if tag == 0 then s else more
scan_status s _ = s

-- ENOENT is 2, ENOTDIR 20.
abbrev pub errno_missing : Bool → Option ℕ → Bool
errno_missing open_error none = open_error
errno_missing open_error (some n) = (n == 2) || (n == 20)

-- `isDbMissingOnAttach`, off Windows.
unfoldable pub is_db_missing_on_attach : List Word → Bool
unfolding scan_status
is_db_missing_on_attach v =
    let s =
      scan_status
        record { io_error = false; open_error = false; unix_errno = none; no_such_file = false }
        v in
    s.io_error && (errno_missing s.open_error s.unix_errno || s.no_such_file)

-- The answer to the attachment of `dropDatabase`: the status vector of an error, or a pointer.
pub data DropAnswer : Type 0 where
  refused : List Word → DropAnswer
  attaches : Option ℕ → DropAnswer

abbrev pub drop_made : Bool → Option ℕ → List Ask
drop_made b none = []
drop_made true (some a) = released a ∷ drops a true ∷ []
drop_made false (some a) = drops a false ∷ []

abbrev pub dropped_as : Bool → Option ℕ → Result Fault Bool
dropped_as b none = ok true
dropped_as b (some a) = if b then ok true else err engine

-- `dropDatabase`: a database that is not there is no error.
unfoldable pub drop_database : ConnectionParams → DropAnswer → Bool → List Ask × Result Fault Bool
unfolding login_dpb is_db_missing_on_attach
drop_database p (refused v) b = (
  attached p.database (login_dpb p) none ∷ [],
  (if is_db_missing_on_attach v then ok true else err engine),
)
drop_database p (attaches o) b =
    (drop_made b o ++ (attached p.database (login_dpb p) o ∷ []), dropped_as b o)
