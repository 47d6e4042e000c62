-- ===== src/Watcher/Index/Pdf.antt =====
-- watcher/src/index.rs, `inspect_path`: a PDF whose vector items are asked for.
use cortex_engine.Common.{
  ℕ, ◌≡◌, refl, ap, ◌∙◌, String, Bool, true, false, Option, none, some, List, ◌&&◌, not,
}
use cortex_engine.Storage.Records.{NodeRecord}
use cortex_engine.Watcher.Naming.{file_extension}
use package.cortex_engine.Watcher.Index.Inspect.{
  Env, ok, err, unreadable, inspect_path, pack_parsed, pack, hash_file, file_path_of,
  parse_indexable_file, items_for, is_cached, read_text_source,
}
use package.cortex_engine.Watcher.Index.Rerun.{is_to_index}

-- A PDF that is read as bytes but is no text, and has changed since it was cached.
pub record IsChangedPdf (env : Env) (path : String) (force : Bool) (cached : Option String)
    (bytes : List ℕ) : Type 0 where
  pub extension : file_extension env.to_lowercase path ≡ "pdf"
  pub exists : env.exists (file_path_of env path none) ≡ true
  pub readable : env.read (file_path_of env path none) ≡ some bytes
  pub not_text : env.read_to_string (file_path_of env path none) ≡ none
  pub changed : not force && is_cached env cached (env.blake2b16_hex bytes) ≡ false

module _ (env : Env) (path : String) (force : Bool) (cached : Option String) (bytes : List ℕ)
    (pdf : IsChangedPdf env path force cached bytes) where
  open pdf use {extension, exists, readable, not_text, changed}

  abbrev pub file_path : String
  file_path = file_path_of env path none

  hash_pdf : hash_file env path file_path ≡ ok (env.blake2b16_hex bytes)
  unfolding hash_file
  hash_pdf = rw extension (rw readable refl)

  parse_pdf : parse_indexable_file env path file_path ≡ ok (env.parse_pdf_file path file_path)
  unfolding parse_indexable_file
  parse_pdf = rw extension refl

  prepared_pdf :
      (include : Bool)
      → inspect_path env path force cached include none
        ≡ pack_parsed env path file_path include
            (env.blake2b16_hex bytes)
            (ok (env.parse_pdf_file path file_path))
  unfolding inspect_path
  prepared_pdf include = rw exists (rw hash_pdf (rw changed (rw parse_pdf refl)))

  items_pdf :
      (module_name : String) (nodes : List NodeRecord)
      → items_for env path file_path module_name nodes true ≡ err (unreadable file_path)
  unfolding items_for read_text_source
  items_pdf module_name nodes = rw (items_for, read_text_source, not_text) refl

  -- Such a PDF is refused as unreadable where its vector items are asked for, as `cmd_index` does,
  -- and indexed where they are not.
  pub inspect_path_pdf :
      (inspect_path env path force cached true none ≡ err (unreadable file_path))
      × (is_to_index (inspect_path env path force cached false none) ≡ true)
  unfolding items_for
  inspect_path_pdf = (
    prepared_pdf true
        ∙ ap (pack env path (env.blake2b16_hex bytes) (env.parse_pdf_file path file_path))
            (items_pdf _ _),
    ap is_to_index (prepared_pdf false),
  )
