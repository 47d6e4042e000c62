-- ===== src/Storage/Write/Laws.antt =====
-- storage/src/lib.rs: what a written batch changes, and what it leaves.
use cortex_engine.Common.{
  ℕ, ◌≡◌, refl, ◌≢◌, ◌∙◌, String, Bool, true, false, not, Option, none, some, List, [], ◌∷◌, ◌++◌,
  ◌==◌, if◌then◌else◌, filter, map, contains, eq_iff, arith,
}
use cortex_engine.Storage.Records.{NodeRecord, EdgeRecord}
use cortex_engine.Storage.Tables.{NodeRow, CacheRow, Db, node_with_id, hash_of}
use cortex_engine.Storage.Write.{
  FileWriteBatch, replace_node, node_row, insert_nodes, insert_edge, insert_edges,
  upsert_file_cache, write_file_batch,
}

pub hash_of-filter :
    (path p : String) (rows : List CacheRow)
    → hash_of p (filter (λ (row : CacheRow). not (row.file_path == path)) rows)
      ≡ (if path == p then none else hash_of p rows)
unfolding hash_of
hash_of-filter path p [] = ground arith
hash_of-filter path p (row ∷ rows) = ground (
  arith,
  hash_of-filter path p rows,
  eq_iff row.file_path path,
  eq_iff row.file_path p,
  eq_iff path p,
)

hash_of-append :
    (p : String) (rows : List CacheRow) (new : CacheRow)
    → hash_of p (rows ++ new ∷ []) ≡ (elim (hash_of p rows) [
      | some h ↦ some h
      | none ↦ if new.file_path == p then some new.hash else none
    ])
unfolding hash_of
hash_of-append p [] new = ground arith
hash_of-append p (row ∷ rows) new = ground (arith, hash_of-append p rows new)

pub file_cache-insert_edges :
    (edges : List EdgeRecord) (db : Db) → (insert_edges edges db).file_cache ≡ db.file_cache
unfolding insert_edges insert_edge
file_cache-insert_edges [] db = refl
file_cache-insert_edges (e ∷ es) db = file_cache-insert_edges es (insert_edge e db) ∙ ground arith

pub nodes-insert_edges :
    (edges : List EdgeRecord) (db : Db) → (insert_edges edges db).nodes ≡ db.nodes
unfolding insert_edges insert_edge
nodes-insert_edges [] db = refl
nodes-insert_edges (e ∷ es) db = nodes-insert_edges es (insert_edge e db) ∙ ground arith

hash_of-upsert_file_cache :
    (path hash : String) (at : ℕ) (workspace : Option String) (rows : List CacheRow) (p : String)
    → hash_of p (upsert_file_cache path hash at workspace rows)
      ≡ (if path == p then some hash else hash_of p rows)
unfolding upsert_file_cache
hash_of-upsert_file_cache path hash at workspace rows p =
    rw (hash_of-append p (filter (λ (row : CacheRow). not (row.file_path == path)) rows))
      (rw (hash_of-filter path p rows) (after_filter (path == p) (hash_of p rows)))
  where
    after_filter :
        (same : Bool) (old : Option String)
        → (elim (if same then none else old) [
          | some h ↦ some h
          | none ↦ if same then some hash else none
        ])
          ≡ (if same then some hash else old)
    after_filter true old = refl
    after_filter false none = refl
    after_filter false (some h) = refl

-- After a batch is written, the cache has its hash for its file, and for every other file what it
-- had before.
pub hash_of-write_file_batch :
    (batch : FileWriteBatch) (db : Db) (path : String)
    → hash_of path (write_file_batch batch db).file_cache
      ≡ (if batch.file_path == path then some batch.file_hash else hash_of path db.file_cache)
unfolding write_file_batch
hash_of-write_file_batch batch db path =
    rw hash_of-upsert_file_cache (rw file_cache-insert_edges refl)

node_with_id-filter :
    (id k : String) (rows : List NodeRow)
    → id ≢ k
    → node_with_id k (filter (λ (row : NodeRow). not (row.id == id)) rows) ≡ node_with_id k rows
unfolding node_with_id
node_with_id-filter id k [] ne = refl
node_with_id-filter id k (row ∷ rows) ne =
    ground (arith, node_with_id-filter id k rows ne, eq_iff row.id id, eq_iff row.id k)

node_with_id-append :
    (k : String) (rows : List NodeRow) (new : NodeRow)
    → (new.id == k) ≡ false
    → node_with_id k (rows ++ new ∷ []) ≡ node_with_id k rows
unfolding node_with_id
node_with_id-append k [] new h = ground arith
node_with_id-append k (row ∷ rows) new h = ground (arith, node_with_id-append k rows new h)

node_with_id-replace_node :
    (new : NodeRow) (rows : List NodeRow) (k : String)
    → (new.id == k) ≡ false
    → node_with_id k (replace_node new rows) ≡ node_with_id k rows
unfolding replace_node
node_with_id-replace_node new rows k h =
    node_with_id-append k (filter (λ (row : NodeRow). not (row.id == new.id)) rows) new h
    ∙ node_with_id-filter new.id k rows (λ e. ground (arith, eq_iff new.id k))

node_with_id-insert_nodes :
    (m w c : Option String) (nodes : List NodeRecord) (rows : List NodeRow) (k : String)
    → contains k (map (λ (n : NodeRecord). n.id) nodes) ≡ false
    → node_with_id k (insert_nodes m w c nodes rows) ≡ node_with_id k rows
unfolding insert_nodes contains
node_with_id-insert_nodes m w c [] rows k h = refl
node_with_id-insert_nodes m w c (n ∷ ns) rows k h =
    let new = node_row m w c n in
    let apart : (n.id == k) ≡ false = ground arith in
    node_with_id-insert_nodes m w c ns (replace_node new rows) k (ground arith)
    ∙ node_with_id-replace_node new rows k apart

-- A batch changes only the rows of the nodes that it brings: every other node stays as it was. So a
-- symbol that is no longer in a file keeps its row when the file is indexed again.
pub node_with_id-write_file_batch :
    (batch : FileWriteBatch) (db : Db) (id : String)
    → contains id (map (λ (n : NodeRecord). n.id) batch.nodes) ≡ false
    → node_with_id id (write_file_batch batch db).nodes ≡ node_with_id id db.nodes
unfolding write_file_batch
node_with_id-write_file_batch batch db id h = rw nodes-insert_edges (
    node_with_id-insert_nodes batch.module_name batch.workspace_id batch.category batch.nodes
      db.nodes id h)
