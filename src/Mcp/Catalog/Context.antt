-- ===== src/Mcp/Catalog/Context.antt =====
-- catalog.rs, `TOOLS`: the tools for the status of the index, the searches and the context of a session.
use cortex_engine.Common.{none, some, [], ◌∷◌}
use cortex_engine.Mcp.Json.{Json, natural}
use cortex_engine.Mcp.Catalog.Builders.{integer_property, string_property, tool}

unfoldable pub get_index_status_tool : Json
get_index_status_tool =
    tool "get_index_status"
      "Return Cortex index and database status: node/edge/file/memory counts and schema version. Use to verify the index is populated before running graph or search tools. Read-only."
      none none

unfoldable pub search_context_tool : Json
search_context_tool =
    tool "search_context"
      "Search compact project context across code, documentation, and stored knowledge. Use this first when answering codebase questions, looking up implementations, or tracing design history. Returns a compact capsule with estimated token usage. Read-only. No side effects. Do not use for exact file editing; call read_file_with_hash before replace_exact_text."
      (some (
        (
          "query",
          string_property
              (some "Natural-language or keyword query describing what you are looking for.") none
              none,
        )
        ∷ (
          "token_budget",
          integer_property
              (some "Maximum response size in approximate tokens (chars/4 estimate). Default 4000.")
              (some (natural 4000)),
        )
        ∷ []))
      (some ("query" ∷ []))

unfoldable pub search_deep_context_tool : Json
search_deep_context_tool =
    tool "search_deep_context"
      "Run a comprehensive search combining code index, call graph, and memory for complex questions. Use when search_context returns insufficient context, or when the question requires cross-cutting code + architecture + decision history. When the code capsule result is sparse, automatically chains in related memory entries for broader context. Response includes capsule_chars for gauging result density; chained_memories is present when chaining triggered. Slower than search_context. Read-only. No side effects. Do not use for simple keyword lookups; prefer search_context for those."
      (some (
        (
          "query",
          string_property (some "Natural-language query for comprehensive cross-domain search.")
              none none,
        )
        ∷ (
          "limit",
          integer_property (some "Maximum number of unified result items to return. Default 5.")
              (some (natural 5)),
        )
        ∷ []))
      (some ("query" ∷ []))

unfoldable pub get_session_context_tool : Json
get_session_context_tool =
    tool "get_session_context"
      "Return a summary of recent decisions, patterns, and frequently-accessed knowledge to restore session context. Call at the start of a session when prior work context is needed. Read-only."
      (some (
        (
          "token_budget",
          integer_property
              (some "Maximum response size in approximate tokens (chars/4 estimate). Default 2000.")
              (some (natural 2000)),
        )
        ∷ []))
      none

unfoldable pub sync_session_memory_tool : Json
sync_session_memory_tool =
    tool "sync_session_memory"
      "Synchronize session state to persistent memory by scanning git status and recently modified files. Call at the end of a meaningful work session (code edits, design decisions, completed exploration). Side-effect: writes a session-sync memory record and updates memory.yaml. Not calling this will cause incomplete context restoration in the next session."
      (some (
        (
          "task_desc",
          string_property (some "Brief description of work completed in this session.") none none,
        )
        ∷ []))
      (some ("task_desc" ∷ []))
