-- ===== src/Storage/Tables.antt =====
-- storage/src/schema.rs: the rows of `nodes`, `edges` and `file_cache`, in the order of insertion. A
-- SELECT with no ORDER BY is taken to read them in that order.
use cortex_engine.Common.{ℕ, String, Option, none, some, List, [], ◌∷◌, ◌==◌, if◌then◌else◌}
use cortex_engine.Storage.Records.{NodeRecord}

pub record NodeRow : Type 0 where
  pub node : NodeRecord
  pub open node use *
  pub module_name : String
  pub workspace_id : String
  pub category : String

pub record EdgeRow : Type 0 where
  pub id : ℕ
  pub source_id : String
  pub target_id : String
  pub edge_type : String
  pub target_name : Option String
  pub target_kind_hint : Option String
  pub target_fqn_hint : Option String
  pub resolution_status : String
  pub resolution_confidence : ℕ
  pub call_site_line : Option ℕ
  pub confidence : ℕ

pub record CacheRow : Type 0 where
  pub file_path : String
  pub hash : String
  pub last_indexed_at : ℕ
  pub workspace_id : String

-- `next_edge` is the next number of the AUTOINCREMENT column `edges.id`.
pub record Db : Type 0 where
  pub nodes : List NodeRow
  pub edges : List EdgeRow
  pub file_cache : List CacheRow
  pub next_edge : ℕ

abbrev pub empty_db : Db
empty_db = record { nodes = []; edges = []; file_cache = []; next_edge = 1 }

-- `SELECT * FROM nodes WHERE id = ?`: the primary key.
unfoldable pub node_with_id : String → List NodeRow → Option NodeRow
node_with_id id [] = none
node_with_id id (row ∷ rows) = if row.id == id then some row else node_with_id id rows

-- `SELECT hash FROM file_cache WHERE file_path = ?`.
unfoldable pub hash_of : String → List CacheRow → Option String
hash_of path [] = none
hash_of path (row ∷ rows) = if row.file_path == path then some row.hash else hash_of path rows
