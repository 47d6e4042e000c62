-- ===== src/Watcher/Index/Inspect.antt =====
-- watcher/src/index.rs, `inspect_path`: what is to be done about a file, from the disk and the hash
-- that the cache has.
use cortex_engine.Common.{
  ℕ, String, Bool, true, false, ◌&&◌, not, Option, none, some, List, [], ◌∷◌, ◌==◌, if◌then◌else◌,
  contains, starts_with, unwrap_or, take_chars,
}
use cortex_engine.Common.FilePath.{join_path}
use cortex_engine.Scanner.Yaml.{Value}
use cortex_engine.Storage.Records.{NodeRecord, EdgeRecord, ParseResult}
use cortex_engine.Watcher.Naming.{
  VectorItem, unix_lines, strip_frontmatter, file_extension, category_for, module_name_for,
  build_vector_items,
}

-- `anyhow::Error`, by what failed.
pub data Failure : Type 0 where
  unreadable : String → Failure
  unsupported : String → Failure

pub data Result {ℓ} (A : Type ℓ) : Type ℓ where
  ok : A → Result A
  err : Failure → Result A

-- The parsers by the name of their function.
pub data Parser : Type 0 where
  parse_markdown_file : Parser
  parse_html_file : Parser
  parse_css_file : Parser
  parse_python_file : Parser
  parse_java_file : Parser
  parse_c_file : Parser
  parse_csharp_file : Parser
  parse_typescript_file : Parser
  parse_tsx_file : Parser

-- What the indexer meets outside its own code: the files, the hashes, the parsers, and the path on
-- the disk of a path of the index.
pub record Env : Type 0 where
  pub workspace : String
  pub settings : Value
  pub exists : String → Bool
  pub read : String → Option (List ℕ)
  pub read_to_string : String → Option String
  pub as_bytes : String → List ℕ
  pub blake2b16_hex : List ℕ → String
  pub md5_hex : String → String
  pub to_lowercase : String → String
  pub parse_pdf_file : String → String → ParseResult
  pub parse_with : Parser → String → String → ParseResult
  pub source_path_for_index_path : String → Option String

pub record PreparedIndex : Type 0 where
  pub rel_path : String
  pub file_hash : String
  pub module_name : String
  pub workspace_id : String
  pub category : String
  pub nodes : List NodeRecord
  pub edges : List EdgeRecord
  pub vector_items : List VectorItem

pub data InspectOutcome : Type 0 where
  to_index : PreparedIndex → InspectOutcome
  to_skip : InspectOutcome
  to_delete : String → InspectOutcome

-- The parser of a text file's extension.
unfoldable pub parser_for : String → Option Parser
parser_for ext =
    if ext == "md"
    then some parse_markdown_file
    else if ext == "html"
    then some parse_html_file
    else if ext == "css"
    then some parse_css_file
    else if ext == "py"
    then some parse_python_file
    else if ext == "java"
    then some parse_java_file
    else if contains ext ("c" ∷ "cpp" ∷ "h" ∷ "hpp" ∷ "cc" ∷ "cxx" ∷ [])
    then some parse_c_file
    else if ext == "cs"
    then some parse_csharp_file
    else if ext == "ts"
    then some parse_typescript_file
    else if ext == "tsx"
    then some parse_tsx_file
    else none

module _ (env : Env) where
  unfoldable pub read_text_source : String → Result String
  unfolding unix_lines
  read_text_source file = elim (env.read_to_string file) [
    | none ↦ err (unreadable file)
    | some raw ↦ ok (unix_lines raw)
  ]

  unfoldable pub workspace_id_for : String → String
  workspace_id_for workspace = take_chars 8 (env.md5_hex workspace)

  unfoldable pub parse_indexable_file : String → String → Result ParseResult
  unfolding read_text_source parser_for
  parse_indexable_file rel_path file =
      let ext = file_extension env.to_lowercase rel_path in
      if ext == "pdf" then ok (env.parse_pdf_file rel_path file) else elim (read_text_source file) [
        | err e ↦ err e
        | ok source ↦ elim (parser_for ext) [
          | none ↦ err (unsupported ext)
          | some parser ↦ ok (env.parse_with parser rel_path source)
        ]
      ]

  -- The path on the disk.
  unfoldable pub file_path_of : String → Option String → String
  file_path_of rel_path (some path) = path
  file_path_of rel_path none =
      unwrap_or (env.source_path_for_index_path rel_path) (join_path env.workspace rel_path)

  unfoldable pub hash_file : String → String → Result String
  unfolding read_text_source
  hash_file rel_path file_path =
      if file_extension env.to_lowercase rel_path == "pdf"
      then elim (env.read file_path) [
        | none ↦ err (unreadable file_path)
        | some bytes ↦ ok (env.blake2b16_hex bytes)
      ]
      else elim (read_text_source file_path) [
        | err e ↦ err e
        | ok source ↦ ok (env.blake2b16_hex (env.as_bytes source))
      ]

  -- The vector items, where they are asked for.
  unfoldable pub items_for :
      String → String → String → List NodeRecord → Bool → Result (List VectorItem)
  unfolding read_text_source build_vector_items
  items_for rel_path file_path module_name nodes false = ok []
  items_for rel_path file_path module_name nodes true = elim (read_text_source file_path) [
    | err e ↦ err e
    | ok source ↦
        let clean_source =
          if starts_with rel_path ".cortex/" then strip_frontmatter source else source in
        ok (build_vector_items rel_path module_name clean_source nodes)
  ]

  -- The record of a file, once it is parsed and its vector items are there.
  abbrev pub pack : String → String → ParseResult → Result (List VectorItem) → Result InspectOutcome
  pack rel_path file_hash result (err e) = err e
  pack rel_path file_hash result (ok items) = ok (
      to_index (record {
        rel_path = rel_path;
        file_hash = file_hash;
        module_name = module_name_for rel_path env.settings;
        workspace_id = workspace_id_for env.workspace;
        category = category_for rel_path;
        nodes = result.nodes;
        edges = result.edges;
        vector_items = items;
      }))

  abbrev pub pack_parsed :
      String → String → Bool → String → Result ParseResult → Result InspectOutcome
  pack_parsed rel_path file_path include_vector_items file_hash (err e) = err e
  pack_parsed rel_path file_path include_vector_items file_hash (ok result) =
      pack rel_path file_hash result (
        items_for rel_path file_path (module_name_for rel_path env.settings) result.nodes
          include_vector_items)

  -- The hash is the one that the cache has.
  abbrev pub is_cached : Option String → String → Bool
  is_cached none file_hash = false
  is_cached (some cached) file_hash = cached == file_hash

  -- What follows once the file has been hashed.
  abbrev pub skip_or_prepare :
      String → String → Bool → Option String → Bool → Result String → Result InspectOutcome
  skip_or_prepare rel_path file_path force cached_hash include_vector_items (err e) = err e
  skip_or_prepare rel_path file_path force cached_hash include_vector_items (ok file_hash) =
      if not force && is_cached cached_hash file_hash
      then ok to_skip
      else pack_parsed rel_path file_path include_vector_items file_hash
          (parse_indexable_file rel_path file_path)

  unfoldable pub inspect_path :
      String → Bool → Option String → Bool → Option String → Result InspectOutcome
  unfolding hash_file parse_indexable_file items_for workspace_id_for file_path_of
  inspect_path rel_path force cached_hash include_vector_items source_path =
      let file_path = file_path_of rel_path source_path in
      if env.exists file_path
      then skip_or_prepare rel_path file_path force cached_hash include_vector_items
          (hash_file rel_path file_path)
      else ok (to_delete rel_path)
