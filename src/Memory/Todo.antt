-- ===== src/Memory/Todo.antt =====
-- mcp/src/memory.rs: `call_manage_todo`, the list of todos in todo.json.
use cortex_engine.Common.{
  ℕ, ◌+◌, ◌%◌, ◌^◌, ◌<◌, ◌≡◌, ◌≢◌, refl, sym, ap, ◌∙◌, String, Bool, true, false, Option, none,
  some, List, [], ◌∷◌, ◌++◌, ◌==◌, if◌then◌else◌, ltb, option_eq, contains, is_distinct,
  is_distinct-append, arith, eq_iff, Bool-cases, inl, inr,
}
use cortex_engine.Common.Decimal.{print, parse_u64, parse_u64-print}

-- One item of the array; `id` is `none` where the JSON has no text there.
pub record Todo : Type 0 where
  pub id : Option String
  pub task : String
  pub is_done : Bool
  pub created_at : String
  pub completed_at : Option String

-- What is read from todo.json: nothing, JSON with no array of todos, or the array.
pub data TodoFile : Type 0 where
  unreadable : TodoFile
  no_array : TodoFile
  todos : List Todo → TodoFile

pub data TodoReply : Type 0 where
  invalid_state : TodoReply
  added : String → TodoReply
  success : TodoReply
  listed : List Todo → TodoReply

abbrev parsed_id : Option String → Option ℕ
parsed_id none = none
parsed_id (some id) = parse_u64 id

abbrev larger : Option ℕ → ℕ → ℕ
larger none top = top
larger (some n) top = if ltb top n then n else top

-- The greatest identifier that is a number, or 0.
unfoldable pub max_todo_id : List Todo → ℕ
max_todo_id [] = 0
max_todo_id (t ∷ ts) = larger (parsed_id t.id) (max_todo_id ts)

-- A u64 sum.
unfoldable pub next_todo_id : List Todo → ℕ
unfolding max_todo_id
next_todo_id ts = (max_todo_id ts + 1) % 2 ^ 64

abbrev new_todo : String → String → ℕ → Todo
new_todo now task id = record {
  id = some (print id);
  task = task;
  is_done = false;
  created_at = now;
  completed_at = none;
}

unfoldable pub add_todo : String → String → List Todo → List Todo
unfolding next_todo_id
add_todo now task ts = ts ++ new_todo now task (next_todo_id ts) ∷ []

unfoldable pub check_todo : String → String → List Todo → List Todo
check_todo now task_id [] = []
check_todo now task_id (t ∷ ts) =
    (if option_eq t.id (some task_id)
      then record t { is_done = true; completed_at = some now }
      else t)
    ∷ check_todo now task_id ts

unfoldable pub manage_todos : String → String → String → String → List Todo → List Todo × TodoReply
unfolding add_todo check_todo
manage_todos now action task task_id ts =
    if action == "add"
    then (add_todo now task ts, TodoReply.added (print (next_todo_id ts)))
    else if action == "check"
    then (check_todo now task_id ts, TodoReply.success)
    else if action == "clear"
    then ([], TodoReply.success)
    else (ts, TodoReply.listed ts)

abbrev saved : List Todo × TodoReply → TodoFile × TodoReply
saved (ts, reply) = (TodoFile.todos ts, reply)

unfoldable pub call_manage_todo :
    String → String → String → String → TodoFile → TodoFile × TodoReply
unfolding manage_todos
call_manage_todo now action task task_id TodoFile.unreadable =
    saved (manage_todos now action task task_id [])
call_manage_todo now action task task_id TodoFile.no_array =
    (TodoFile.no_array, TodoReply.invalid_state)
call_manage_todo now action task task_id (TodoFile.todos ts) =
    saved (manage_todos now action task task_id ts)

-- The identifiers that are texts.
unfoldable pub todo_ids : List Todo → List String
todo_ids [] = []
todo_ids (t ∷ ts) = elim t.id [ none ↦ todo_ids ts | some id ↦ id ∷ todo_ids ts ]

other_number :
    (i : String) (n : ℕ) (p : Option ℕ)
    → parse_u64 i ≡ p
    → p ≢ some n
    → n < 2 ^ 64
    → (i == print n) ≡ false
other_number i n p e ne k = elim (Bool-cases (i == print n)) [
  | inl h ↦ absurd (ne (sym e ∙ ap parse_u64 ((eq_iff i (print n)).0 h) ∙ parse_u64-print n k))
  | inr h ↦ h
]

fresh_id :
    (n : ℕ) (ts : List Todo)
    → max_todo_id ts < n
    → n < 2 ^ 64
    → contains (print n) (todo_ids ts) ≡ false
unfolding todo_ids max_todo_id contains
fresh_id n [] h k = refl
fresh_id n (t ∷ ts) h k = go t.id (parsed_id t.id) refl h (λ l. fresh_id n ts l k)
  where
    go :
        (id : Option String) (p : Option ℕ)
        → parsed_id id ≡ p
        → larger p (max_todo_id ts) < n
        → (max_todo_id ts < n → contains (print n) (todo_ids ts) ≡ false)
        → contains (print n) (elim id [ none ↦ todo_ids ts | some i ↦ i ∷ todo_ids ts ]) ≡ false
    go none none e l later = later l
    go none (some m) e l later = absurd (ground (arith, e))
    go (some i) none e l later =
        rw (other_number i n none e (λ x. ground (arith, x)) k, contains) (later l)
    go (some i) (some m) e l later =
        rw (other_number i n (some m) e (λ x. ground (arith, x, l)) k, contains)
          (later (ground (arith, l)))

todo_ids-add_todo :
    (now task : String) (ts : List Todo) (new : Todo) (id : String)
    → new.id ≡ some id
    → todo_ids (ts ++ new ∷ []) ≡ todo_ids ts ++ id ∷ []
unfolding todo_ids
todo_ids-add_todo now task [] new id h = rw (h, todo_ids) refl
todo_ids-add_todo now task (t ∷ ts) new id h =
    ground (arith, todo_ids-add_todo now task ts new id h)

todo_ids-check_todo :
    (now task_id : String) (ts : List Todo) → todo_ids (check_todo now task_id ts) ≡ todo_ids ts
unfolding todo_ids check_todo
todo_ids-check_todo now task_id [] = refl
todo_ids-check_todo now task_id (t ∷ ts) = ground (arith, todo_ids-check_todo now task_id ts)

add_todo-is_distinct :
    (now task : String) (ts : List Todo)
    → max_todo_id ts + 1 < 2 ^ 64
    → is_distinct (todo_ids ts) ≡ true
    → is_distinct (todo_ids (add_todo now task ts)) ≡ true
unfolding add_todo next_todo_id
add_todo-is_distinct now task ts h d =
    let next : next_todo_id ts ≡ max_todo_id ts + 1 = omega (arith, h) in
    rw
      (todo_ids-add_todo now task ts (new_todo now task (next_todo_id ts)) (print (next_todo_id ts))
        refl)
      (is_distinct-append (todo_ids ts) (print (next_todo_id ts)) d
        (fresh_id (next_todo_id ts) ts (omega (arith, next)) (omega (arith, next, h))))

no_ids : is_distinct (todo_ids []) ≡ true
unfolding is_distinct todo_ids
no_ids = refl

-- Every action keeps the identifiers of the todos distinct, as long as the numbers among them leave
-- room for one more in a u64.
pub manage_todos-is_distinct :
    (now action task task_id : String) (ts : List Todo)
    → max_todo_id ts + 1 < 2 ^ 64
    → is_distinct (todo_ids ts) ≡ true
    → is_distinct (todo_ids (manage_todos now action task task_id ts).0) ≡ true
unfolding manage_todos
manage_todos-is_distinct now action task task_id ts h d =
    let added : is_distinct (todo_ids (add_todo now task ts)) ≡ true =
      add_todo-is_distinct now task ts h d in
    let checked : is_distinct (todo_ids (check_todo now task_id ts)) ≡ true =
      rw (todo_ids-check_todo now task_id ts) d in
    let cleared : is_distinct (todo_ids []) ≡ true = no_ids in
    ground (arith, added, checked, cleared, d)
