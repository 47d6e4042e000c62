-- ===== src/Mcp/Catalog/Code.antt =====
-- catalog.rs, `TOOLS`: the tools for files, symbols, graphs and edits.
use cortex_engine.Common.{none, some, [], ◌∷◌}
use cortex_engine.Mcp.Json.{Json, text, natural}
use cortex_engine.Mcp.Catalog.Builders.{integer_property, string_property, tool}

unfoldable pub get_file_outline_tool : Json
get_file_outline_tool =
    tool "get_file_outline"
      "Return the structural outline of a file: classes, functions, methods, and key symbols — without reading the full content. Use before reading large files to decide which sections need full inspection. Read-only."
      (some (
        ("file_path", string_property (some "Workspace-relative path to the file.") none none)
        ∷ (
          "detail",
          string_property
              (some
                "Outline verbosity: 'minimal' (names only), 'standard' (signatures), 'detailed' (includes docstrings). Default 'standard'.")
              (some ("minimal" ∷ "standard" ∷ "detailed" ∷ [])) (some (text "standard")),
        )
        ∷ []))
      (some ("file_path" ∷ []))

unfoldable pub read_file_with_hash_tool : Json
read_file_with_hash_tool =
    tool "read_file_with_hash"
      "Read the current content of a file and return its content hash. Always call this before replace_exact_text to obtain the exact current text. Read-only. The returned hash is used internally to detect concurrent modifications."
      (some (
        (
          "file_path",
          string_property (some "Workspace-relative path to the file to read.") none none,
        )
        ∷ []))
      (some ("file_path" ∷ []))

unfoldable pub resolve_symbol_tool : Json
resolve_symbol_tool =
    tool "resolve_symbol"
      "Resolve a class, function, method, or partial symbol name into fully-qualified name (FQN) candidates. Uses three-stage lookup: exact FQN match → FTS keyword search → vector similarity search (when embeddings are available). Use before get_impact_graph or find_execution_path when the exact FQN is unknown. Read-only. Returns a list of candidates with fqn, kind, language, file_path, line, and match_reason (exact_fqn | fts_match | vector_match). If no matches are found, returns an empty list with a next_suggestion."
      (some (
        (
          "name",
          string_property
              (some "Symbol name to resolve. May be a short name, partial path, or exact FQN.") none
              none,
        )
        ∷ (
          "file_path",
          string_property
              (some
                "Optional: narrow results to symbols defined in this file (workspace-relative).")
              none none,
        )
        ∷ (
          "language",
          string_property
              (some
                "Optional: narrow results to a specific language (e.g. 'python', 'typescript').")
              none none,
        )
        ∷ (
          "limit",
          integer_property (some "Maximum number of FQN candidates to return. Default 5.")
              (some (natural 5)),
        )
        ∷ []))
      (some ("name" ∷ []))

unfoldable pub get_impact_graph_tool : Json
get_impact_graph_tool =
    tool "get_impact_graph"
      "Return callers, callees, or both for a given fully-qualified name (FQN) up to a specified depth. Use to understand the blast radius of a change or to trace who uses a symbol. If you do not know the exact FQN, call resolve_symbol first. Read-only. Response includes truncated, limit, returned_count, total_seen metadata."
      (some (
        (
          "fqn",
          string_property
              (some
                "Exact fully-qualified name of the symbol. Use resolve_symbol first if unknown.")
              none none,
        )
        ∷ (
          "direction",
          string_property
              (some
                "Which edges to traverse: 'callers' (who calls this), 'callees' (what this calls), or 'both'. Default 'both'.")
              (some ("callers" ∷ "callees" ∷ "both" ∷ [])) (some (text "both")),
        )
        ∷ (
          "max_depth",
          integer_property (some "Maximum traversal depth from the root symbol. Default 2.")
              (some (natural 2)),
        )
        ∷ (
          "max_nodes",
          integer_property (some "Maximum number of nodes to return. Default 50.")
              (some (natural 50)),
        )
        ∷ []))
      (some ("fqn" ∷ []))

unfoldable pub find_execution_path_tool : Json
find_execution_path_tool =
    tool "find_execution_path"
      "Find the call path between two symbols identified by their fully-qualified names (FQN). Use to understand how execution flows from one function to another. If you do not know the exact FQNs, call resolve_symbol first for each symbol. Read-only. Response includes path (list of FQNs), truncated, limit, returned_count, total_seen metadata."
      (some (
        (
          "from_fqn",
          string_property (some "FQN of the starting symbol. Use resolve_symbol first if unknown.")
              none none,
        )
        ∷ (
          "to_fqn",
          string_property (some "FQN of the ending symbol. Use resolve_symbol first if unknown.")
              none none,
        )
        ∷ (
          "max_depth",
          integer_property (some "Maximum path length in hops. Default 6.") (some (natural 6)),
        )
        ∷ (
          "max_nodes",
          integer_property (some "Maximum nodes to explore during BFS. Default 200.")
              (some (natural 200)),
        )
        ∷ []))
      (some ("from_fqn" ∷ "to_fqn" ∷ []))

unfoldable pub get_file_git_history_tool : Json
get_file_git_history_tool =
    tool "get_file_git_history"
      "Return the git commit history for a specific file. Use to understand when and why a file was changed. Read-only."
      (some (
        ("file_path", string_property (some "Workspace-relative path to the file.") none none)
        ∷ (
          "limit",
          integer_property (some "Maximum number of commits to return. Default 5.")
              (some (natural 5)),
        )
        ∷ []))
      (some ("file_path" ∷ []))

unfoldable pub replace_exact_text_tool : Json
replace_exact_text_tool =
    tool "replace_exact_text"
      "Replace an exact text fragment in a file. Always call read_file_with_hash first to obtain the exact current file content. This is a write operation with side effects. Fails safely if old_content does not match the current file content exactly. Triggers after-edit hooks and records an edit event in the Cortex database."
      (some (
        (
          "file_path",
          string_property (some "Workspace-relative path to the file to edit.") none none,
        )
        ∷ (
          "old_content",
          string_property
              (some
                "Exact text to replace. Must match the current file content character-for-character.")
              none none,
        )
        ∷ ("new_content", string_property (some "Replacement text.") none none)
        ∷ []))
      (some ("file_path" ∷ "old_content" ∷ "new_content" ∷ []))
