-- ===== src/ListHead.antt =====
-- linuxkpi/src/list.rs, the circular doubly linked lists of the inherited drivers. Each function is a
-- store to store function: an address leads to a `list_head`, and 0 is the null pointer.
pub mod Segments
pub mod Insert
pub mod Remove
pub mod Runs
mod Tests
use field_os.Prelude.{ℕ, Bool, true, false, ◌||◌, ◌==◌, if◌then◌else◌, update}

pub record Store : Type 0 where
  pub next : ℕ → ℕ
  pub prev : ℕ → ℕ

abbrev pub set_next : Store → ℕ → ℕ → Store
set_next s a v = record s { next = update s.next a v }

abbrev pub set_prev : Store → ℕ → ℕ → Store
set_prev s a v = record s { prev = update s.prev a v }

pub init_list_head : Store → ℕ → Store
init_list_head s list = if list == 0 then s else set_prev (set_next s list list) list list

-- `__list_add`
unfoldable pub list_add_between : Store → ℕ → ℕ → ℕ → Store
list_add_between s new prev next =
    set_next (set_prev (set_next (set_prev s next new) new next) new prev) prev new

pub list_add : Store → ℕ → ℕ → Store
list_add s new head =
    if (new == 0) || (head == 0) then s else list_add_between s new head (s.next head)

pub list_add_tail : Store → ℕ → ℕ → Store
list_add_tail s new head =
    if (new == 0) || (head == 0) then s else list_add_between s new (s.prev head) head

-- The two writes of `list_del` that take the entry out.
unfoldable pub unlink : Store → ℕ → ℕ → Store
unlink s prev next = set_next (set_prev s next prev) prev next

pub list_del : Store → ℕ → Store
list_del s entry =
    let out = unlink s (s.prev entry) (s.next entry) in
    if entry == 0 then s else set_prev (set_next out entry entry) entry entry

pub list_empty : Store → ℕ → Bool
list_empty s head = if head == 0 then true else s.next head == head
