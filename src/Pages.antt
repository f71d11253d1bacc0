-- ===== src/Pages.antt =====
-- linuxkpi/src/page.rs, the pages of the inherited balloon driver and the list that it keeps them on.
pub mod Balloon
mod Tests
use field_os.Prelude.{
  ℕ, zero, suc, ◌-◌, ◌||◌, List, [], ◌∷◌, Option, none, some, ltb, not, ◌==◌, if◌then◌else◌, update,
}
use field_os.Prelude.Outcome.{Outcome, returned, panic, add64}
use field_os.ListHead.{Store, init_list_head, list_add_tail, list_del}

-- `page`; its first field, `lru`, is in the store of the lists, at the page's own address.
pub record Page : Type 0 where
  pub phys : ℕ
  pub refcount : ℕ

-- The allocators of frames and of memory are parameters: they return 0 when they have nothing left.
module _ {E : Type 0} (alloc_frame : E → ℕ × E) (free_frame : ℕ → E → E) (kmalloc : E → ℕ × E)
    (kfree : ℕ → E → E) where
  pub record Pages : Type 0 where
    pub env : E
    pub page : ℕ → Page
    pub lists : Store

  -- From the frame on, and from the descriptor on; 0 is the null pointer.
  pub with_desc : Pages → ℕ → ℕ × E → ℕ × Pages
  with_desc m phys (desc, env) =
      if desc == 0 then (0, record m { env = free_frame phys env }) else (
        desc,
        record {
          env = env;
          page = update m.page desc (record { phys = phys; refcount = 1 });
          lists = init_list_head m.lists desc;
        },
      )

  pub with_frame : Pages → ℕ × E → ℕ × Pages
  with_frame m (phys, env) =
      if phys == 0 then (0, record m { env = env }) else with_desc m phys (kmalloc env)

  pub alloc_pages : Pages → ℕ → Outcome (ℕ × Pages)
  alloc_pages m order =
      if not (order == 0) then panic else returned (with_frame m (alloc_frame m.env))

  -- A count that falls below 0 is a panic.
  pub put_page : Pages → ℕ → Outcome Pages
  put_page m page =
      let p = m.page page in
      let left : Pages = record m {
        page = update m.page page (record p { refcount = p.refcount - 1 });
      } in
      if page == 0
      then returned m
      else if p.refcount == 0
      then panic
      else if ltb 0 (p.refcount - 1)
      then returned left
      else returned (record left { env = kfree page (free_frame p.phys m.env) })

  pub page_address : ℕ → Pages → ℕ → ℕ
  page_address hhdm m page = if page == 0 then 0 else add64 hhdm (m.page page).phys

-- The pages of the device `pages`, the head of its list; the lock is held by the caller alone.
pub balloon_page_enqueue : Store → ℕ → ℕ → Store
balloon_page_enqueue s pages page =
    if (pages == 0) || (page == 0) then s else list_add_tail s page pages

pub balloon_page_dequeue : Store → ℕ → ℕ × Store
balloon_page_dequeue s pages =
    let first = s.next pages in
    if pages == 0
    then (0, s)
    else if (first == 0) || (first == pages)
    then (0, s)
    else (first, list_del s first)
