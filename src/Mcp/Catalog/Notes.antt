-- ===== src/Mcp/Catalog/Notes.antt =====
-- catalog.rs, `TOOLS`: the tools for memories, observations, contracts and todos.
use cortex_engine.Common.{none, some, [], ◌∷◌, true}
use cortex_engine.Mcp.Json.{Json, boolean}
use cortex_engine.Mcp.Catalog.Builders.{
  array_string_property, boolean_property, object_property, string_property, tool,
}

unfoldable pub write_memory_tool : Json
write_memory_tool =
    tool "write_memory"
      "Write a keyed knowledge record to persistent memory. Side-effect: persists to the memory database and optionally promotes to markdown history files (decisions.md for 'decision'/'architecture' categories; patterns.md for 'pattern'/'convention'/'rule'/'protocol')."
      (some (
        ("key", string_property (some "Unique identifier for this memory record.") none none)
        ∷ (
          "category",
          string_property
              (some
                "Semantic category (e.g. 'decision', 'architecture', 'pattern', 'convention', 'rule', 'insight').")
              none none,
        )
        ∷ ("content", string_property (some "The knowledge content to store.") none none)
        ∷ ("tags", array_string_property (some "Optional list of searchable tags."))
        ∷ (
          "relationships",
          object_property (some "Optional relationship map (e.g. {'related_to': ['key1']})."),
        )
        ∷ []))
      (some ("key" ∷ "category" ∷ "content" ∷ []))

unfoldable pub consolidate_memory_tool : Json
consolidate_memory_tool =
    tool "consolidate_memory"
      "Merge multiple fragmented memory records into a single consolidated record. Side-effect when dry_run=false: deletes old_keys and writes the new consolidated record. dry_run=true (default) returns a preview of what would be deleted and written without making changes. Do not trigger automatically; only use when explicitly requested."
      (some (
        ("new_key", string_property (some "Key for the consolidated memory record.") none none)
        ∷ ("category", string_property (some "Category for the consolidated record.") none none)
        ∷ (
          "content",
          string_property (some "Merged content for the consolidated record.") none none,
        )
        ∷ (
          "old_keys",
          array_string_property
              (some "List of existing memory keys to delete after consolidation."),
        )
        ∷ ("tags", array_string_property (some "Optional tags for the consolidated record."))
        ∷ (
          "relationships",
          object_property (some "Optional relationship map for the consolidated record."),
        )
        ∷ (
          "dry_run",
          boolean_property
              (some
                "If true (default), return a preview without making any changes. Set to false to perform actual deletion and write.")
              (some (boolean true)),
        )
        ∷ []))
      (some ("new_key" ∷ "category" ∷ "content" ∷ "old_keys" ∷ []))

unfoldable pub read_memory_tool : Json
read_memory_tool =
    tool "read_memory"
      "Read a single memory record by its exact key. Read-only. Use search_memory to find records when the exact key is unknown."
      (some (
        ("key", string_property (some "Exact key of the memory record to retrieve.") none none)
        ∷ []))
      (some ("key" ∷ []))

unfoldable pub save_observation_tool : Json
save_observation_tool =
    tool "save_observation"
      "Record a short observation or insight about code, decisions, or discoveries made during this session. Side-effect: writes to the observation log and triggers after-save hooks. Use after meaningful code edits, bug discoveries, or design decisions."
      (some
        (("content", string_property (some "The observation content to record.") none none) ∷ []))
      (some ("content" ∷ []))

unfoldable pub search_memory_tool : Json
search_memory_tool =
    tool "search_memory"
      "Hybrid search over persistent knowledge, rules, and skills. Use to look up stored decisions, patterns, architecture notes, or project conventions. Read-only. Filter by category to narrow results (e.g. category='skill' or category='rule')."
      (some (
        ("query", string_property (some "Natural-language or keyword query.") none none)
        ∷ (
          "category",
          string_property
              (some
                "Optional: filter by category (e.g. 'skill', 'rule', 'decision', 'architecture', 'insight').")
              none none,
        )
        ∷ []))
      (some ("query" ∷ []))

unfoldable pub create_task_contract_tool : Json
create_task_contract_tool =
    tool "create_task_contract"
      "Create a task contract specifying the work scope, instructions, and files to be modified. Use before starting any task that involves 3 or more file changes or architectural decisions. Side-effect: writes contract to the board state and records an observation."
      (some (
        (
          "lane_id",
          string_property (some "Lane identifier for multi-agent coordination.") none none,
        )
        ∷ ("task_name", string_property (some "Short name for this task.") none none)
        ∷ (
          "instructions",
          string_property (some "Full task description and implementation instructions.") none none,
        )
        ∷ (
          "files_to_modify",
          array_string_property
              (some "Optional list of workspace-relative file paths that will be modified."),
        )
        ∷ []))
      (some ("lane_id" ∷ "task_name" ∷ "instructions" ∷ []))

unfoldable pub manage_todo_tool : Json
manage_todo_tool =
    tool "manage_todo"
      "Add, check off, or clear items in the session todo list. Side-effect: modifies the todo list state. Use add to register a new task, check to mark it complete (requires task_id), clear to reset the list."
      (some (
        (
          "action",
          string_property
              (some
                "Action to perform: 'add' a new task, 'check' a task as done, or 'clear' the entire list.")
              (some ("add" ∷ "check" ∷ "clear" ∷ [])) none,
        )
        ∷ ("task", string_property (some "Task description. Required when action='add'.") none none)
        ∷ (
          "task_id",
          string_property (some "Task ID to mark complete. Required when action='check'.") none
              none,
        )
        ∷ []))
      (some ("action" ∷ []))
