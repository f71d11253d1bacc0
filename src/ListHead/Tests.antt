-- ===== src/ListHead/Tests.antt =====
-- A list of three entries, the middle one taken out.
use field_os.Prelude.{ℕ, ◌≡◌, ◌≢◌, ◌⊎◌, refl, arith, List, [], ◌∷◌, true, false}
use field_os.ListHead.{
  Store, init_list_head, list_add, list_add_tail, list_del, list_empty, list_add_between, unlink,
}
use field_os.ListHead.Runs.{IsList, Run, init, add, add_tail, del, Run_lem}

abbrev memory : Store
memory = record { next = λ _. 0; prev = λ _. 0 }

abbrev final : Store
final =
    list_del
      (list_add (list_add_tail (list_add (init_list_head memory 0x100) 0x300 0x100) 0x400 0x100)
        0x200 0x100)
      0x300

runs : Run 0x100 final (0x200 ∷ (0x400 ∷ []))
runs = del (0x200 ∷ []) 0x300 (0x400 ∷ []) (
    add 0x200
      (add_tail 0x400 (add 0x300 (init memory (omega arith)) (omega arith) (omega arith))
        (omega arith) (omega arith))
      (omega arith) (omega arith))

abbrev left_over : List ℕ
left_over = 0x200 ∷ (0x400 ∷ [])

Run_lem_example :
    IsList final 0x100 left_over
    × (((left_over ≡ []) × (list_empty final 0x100 ≡ true))
        ⊎ ((left_over ≢ []) × (list_empty final 0x100 ≡ false)))
Run_lem_example = Run_lem runs

after_first : final.next 0x200 ≡ 0x400
unfolding list_del list_add list_add_tail init_list_head list_add_between unlink
after_first = refl
