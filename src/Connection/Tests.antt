-- ===== src/Connection/Tests.antt =====
-- The theorems on a connection, used on runs of the engine, and vectors of a missing database.
use fbpp.Prelude.{◌≡◌, refl, true, false, [], ◌∷◌, some}
use fbpp.Prelude.Ascii.{codes, tolower}
use fbpp.Connection.{Quick, Preparing, execute_quick, prepare_uncached}
use fbpp.Connection.Leaks.{
  IsSettled, IsPrepared, execute_quick-IsSettled, prepare_uncached-IsPrepared,
}
use fbpp.Connection.Attachments.{IsReturned, session, database_calls-IsReturned}
use fbpp.Connection.Ddl.{Altering, IsAltered, execute_ddl, execute_ddl-IsAltered}
use fbpp.StatementCache.State.{StatementCache}
use fbpp.Connection.Database.{
  number, pointer, scan_status, contains_ic, ConnectionParams, attaches, database_exists,
  create_database, drop_database, is_db_missing_on_attach,
}

-- The statement runs, but its `free` throws, and so does the rollback.
abbrev unfreed : Quick
unfreed = record {
  start = some (some 1);
  prepare = some (some 2);
  executed = true;
  freed = false;
  rolled_back = false;
  made = true;
}

execute_quick-IsSettled_example : IsSettled (execute_quick (some 7) (codes "DELETE FROM t") unfreed)
execute_quick-IsSettled_example = execute_quick-IsSettled (some 7) (codes "DELETE FROM t") unfreed

-- The statement is prepared, but the commit throws.
abbrev uncommitted : Preparing
uncommitted = record {
  start = some (some 1);
  prepare = some (some 2);
  committed = false;
  rolled_back = true;
}

prepare_uncached-IsPrepared_example :
    IsPrepared false (prepare_uncached (some 7) (codes "SELECT 1 FROM t") uncommitted)
prepare_uncached-IsPrepared_example =
    prepare_uncached-IsPrepared (some 7) (codes "SELECT 1 FROM t") uncommitted

-- All calls succeed, on a connection with one statement in its cache.
abbrev altered : Altering
altered = record { start = some (some 1); executed = true; committed = true; rolled_back = true }

abbrev kept : StatementCache
kept = record {
  config = record { max_size = 4; enabled = true; ttl_minutes = 10 };
  cache =
      (
        codes "SELECT 1 FROM t",
        record {
          idle = [];
          sql = codes "SELECT 1 FROM t";
          flags = 0;
          last_used = 5;
          use_count = 1;
          input_params = [];
          output_params = [];
        },
      )
      ∷ [];
  lru_list = codes "SELECT 1 FROM t" ∷ [];
  lru_map = codes "SELECT 1 FROM t" ∷ [];
  stats = record { cache_size = 1; hit_count = 0; miss_count = 1; eviction_count = 0 };
  closed = false;
}

execute_ddl-IsAltered_example :
    IsAltered (some kept) (execute_ddl (some 7) (some kept) (codes "DROP TABLE t") altered)
execute_ddl-IsAltered_example =
    execute_ddl-IsAltered (some 7) (some kept) (codes "DROP TABLE t") altered

abbrev server : ConnectionParams
server = record {
  database = codes "host:/db";
  user = codes "U";
  password = codes "p";
  charset = codes "UTF8";
  role = [];
  sql_dialect = 3;
}

database_calls-IsReturned_example :
    IsReturned true (database_exists server (some (some 3)) true).0
    × IsReturned true (create_database server (some (some 3)) true).0
    × IsReturned true (drop_database server (attaches (some 3)) true).0
    × IsReturned true (session server (some (some 3)) true)
database_calls-IsReturned_example =
    database_calls-IsReturned server (some (some 3)) (attaches (some 3)) true

-- An I/O error with ENOENT, one with the engine's text, and one of another kind.
enoent :
    is_db_missing_on_attach (number 1 ∷ number 335544344 ∷ number 7 ∷ number 2 ∷ number 0 ∷ [])
    ≡ true
unfolding is_db_missing_on_attach scan_status
enoent = refl

told :
    is_db_missing_on_attach (
      number 1
      ∷ number 335544344
      ∷ number 5
      ∷ pointer (codes "no such file or Directory")
      ∷ number 0
      ∷ [])
    ≡ true
unfolding is_db_missing_on_attach scan_status contains_ic tolower
told = refl

forbidden :
    is_db_missing_on_attach (
      number 1
      ∷ number 335544344
      ∷ number 1
      ∷ number 335544734
      ∷ number 7
      ∷ number 13
      ∷ number 0
      ∷ [])
    ≡ false
unfolding is_db_missing_on_attach scan_status
forbidden = refl
