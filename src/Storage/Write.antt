-- ===== src/Storage/Write.antt =====
-- storage/src/lib.rs: the rows of one parsed file, written as one step.
pub mod Laws
use cortex_engine.Common.{
  ℕ, ◌+◌, ◌≡◌, refl, String, Bool, true, false, ◌&&◌, ◌||◌, not, Option, none, some, List, [], ◌∷◌,
  ◌++◌, ◌==◌, starts_with, if◌then◌else◌, unwrap_or, any, filter, arith,
}
use cortex_engine.Storage.Records.{
  NodeRecord, EdgeRecord, default_confidence, unresolved_fqn_prefix, unresolved_name_prefix,
}
use cortex_engine.Storage.Tables.{NodeRow, EdgeRow, CacheRow, Db}

abbrev pub default_workspace_id : String
default_workspace_id = "default"

abbrev pub default_node_module : String
default_node_module = "unknown"

abbrev pub default_node_category : String
default_node_category = "SOURCE"

unfoldable pub resolution_status_for_target : String → String
resolution_status_for_target target_id =
    if starts_with target_id unresolved_fqn_prefix || starts_with target_id unresolved_name_prefix
    then "unresolved"
    else "resolved"

pub record FileWriteBatch : Type 0 where
  pub file_path : String
  pub file_hash : String
  pub indexed_at : ℕ
  pub module_name : Option String
  pub workspace_id : Option String
  pub category : Option String
  pub nodes : List NodeRecord
  pub edges : List EdgeRecord

-- `INSERT OR REPLACE INTO nodes`: a row with the same id goes, the new one comes last.
unfoldable pub replace_node : NodeRow → List NodeRow → List NodeRow
replace_node new rows = filter (λ (row : NodeRow). not (row.id == new.id)) rows ++ new ∷ []

unfoldable pub node_row : Option String → Option String → Option String → NodeRecord → NodeRow
node_row module_name workspace_id category node = record {
  node = node;
  module_name = unwrap_or module_name default_node_module;
  workspace_id = unwrap_or workspace_id default_workspace_id;
  category = unwrap_or category default_node_category;
}

unfoldable pub insert_nodes :
    Option String → Option String → Option String → List NodeRecord → List NodeRow → List NodeRow
unfolding replace_node node_row
insert_nodes m w c [] rows = rows
insert_nodes m w c (node ∷ nodes) rows =
    insert_nodes m w c nodes (replace_node (node_row m w c node) rows)

-- The columns of the UNIQUE constraint.
abbrev pub has_triple : String → String → String → EdgeRow → Bool
has_triple source target kind row =
    row.source_id == source && (row.target_id == target && row.edge_type == kind)

-- `INSERT OR IGNORE INTO edges`: nothing is added where the triple is there already.
unfoldable pub insert_edge : EdgeRecord → Db → Db
unfolding resolution_status_for_target
insert_edge edge db =
    if any (has_triple edge.source_id edge.target_id edge.edge_type) db.edges
    then db
    else record db {
      edges =
          db.edges
          ++ record {
            id = db.next_edge;
            source_id = edge.source_id;
            target_id = edge.target_id;
            edge_type = edge.edge_type;
            target_name = edge.target_name;
            target_kind_hint = edge.target_kind_hint;
            target_fqn_hint = edge.target_fqn_hint;
            resolution_status = resolution_status_for_target edge.target_id;
            resolution_confidence = default_confidence;
            call_site_line = edge.call_site_line;
            confidence = edge.confidence;
          }
            ∷ [];
      next_edge = db.next_edge + 1;
    }

unfoldable pub insert_edges : List EdgeRecord → Db → Db
unfolding insert_edge
insert_edges [] db = db
insert_edges (edge ∷ edges) db = insert_edges edges (insert_edge edge db)

-- `INSERT OR REPLACE INTO file_cache`.
unfoldable pub upsert_file_cache :
    String → String → ℕ → Option String → List CacheRow → List CacheRow
upsert_file_cache path hash indexed_at workspace_id rows =
    filter (λ (row : CacheRow). not (row.file_path == path)) rows
    ++ record {
      file_path = path;
      hash = hash;
      last_indexed_at = indexed_at;
      workspace_id = unwrap_or workspace_id default_workspace_id;
    }
      ∷ []

unfoldable pub write_file_batch : FileWriteBatch → Db → Db
unfolding insert_nodes insert_edges upsert_file_cache
write_file_batch batch db =
    let db' = insert_edges batch.edges (record db {
      nodes = insert_nodes batch.module_name batch.workspace_id batch.category batch.nodes db.nodes;
    }) in
    record db' {
      file_cache =
          upsert_file_cache batch.file_path batch.file_hash batch.indexed_at batch.workspace_id
            db'.file_cache;
    }
