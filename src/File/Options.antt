-- ===== src/File/Options.antt =====
-- `OpenOptions` of src/file.rs.
use littlefs2_pure.Prelude.{Bool, false, ◌||◌}

pub record OpenOptions : Type 0 where
  pub read : Bool
  pub write : Bool
  pub append : Bool
  pub truncate : Bool
  pub create : Bool

-- `OpenOptions::new`
unfoldable pub new_options : OpenOptions
new_options = record {
  read = false;
  write = false;
  append = false;
  truncate = false;
  create = false;
}

-- The setters, each of one flag.
unfoldable pub set_read : Bool → OpenOptions → OpenOptions
set_read on o = record o { read = on }

unfoldable pub set_write : Bool → OpenOptions → OpenOptions
set_write on o = record o { write = on }

unfoldable pub set_append : Bool → OpenOptions → OpenOptions
set_append on o = record o { append = on }

unfoldable pub set_truncate : Bool → OpenOptions → OpenOptions
set_truncate on o = record o { truncate = on }

unfoldable pub set_create : Bool → OpenOptions → OpenOptions
set_create on o = record o { create = on }

unfoldable pub writable : OpenOptions → Bool
writable o = o.write || o.append
