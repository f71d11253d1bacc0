-- ===== src/Pages/Tests.antt =====
-- Two pages are put on the list of a balloon that has one, and all come off again.
use field_os.Prelude.{ℕ, ◌≡◌, arith, List, [], ◌∷◌}
use field_os.ListHead.{Store, init_list_head, list_add_tail}
use field_os.ListHead.Runs.{IsList, init-IsList, list_add_tail-IsList}
use field_os.Pages.{balloon_page_dequeue}
use field_os.Pages.Balloon.{enqueue_all, dequeue_many, balloon_fifo}

abbrev memory : Store
memory = record { next = λ _. 0; prev = λ _. 0 }

abbrev one_page : Store
one_page = list_add_tail (init_list_head memory 0x100) 0x200 0x100

one_page-IsList : IsList one_page 0x100 (0x200 ∷ [])
one_page-IsList =
    list_add_tail-IsList (init_list_head memory 0x100) 0x100 0x200 []
      (init-IsList memory 0x100 (omega arith)) (omega arith) (omega arith)

abbrev three : List ℕ
three = 0x200 ∷ (0x300 ∷ (0x400 ∷ []))

balloon_fifo_example :
    (s : Store) × (dequeue_many 3 (enqueue_all one_page 0x100 (0x300 ∷ (0x400 ∷ []))) 0x100
      ≡ (three, s))
    × IsList s 0x100 []
    × (balloon_page_dequeue s 0x100 ≡ (0, s))
balloon_fifo_example =
    balloon_fifo one_page 0x100 (0x200 ∷ []) (0x300 ∷ (0x400 ∷ [])) one_page-IsList
      (λ c. ground arith) (omega arith)
