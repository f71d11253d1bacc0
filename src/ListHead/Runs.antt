-- ===== src/ListHead/Runs.antt =====
-- What a driver does with a list, and the sequence that the list stands for.
use field_os.Prelude.{
  ℕ, ◌≤◌, ◌≡◌, ◌≢◌, ◌⊎◌, inl, inr, refl, arith, true, false, ◌||◌, List, [], ◌∷◌, ◌++◌, occurs,
  occurs-append, ◌==◌, update_self, update_ne,
}
use field_os.ListHead.{
  Store, init_list_head, list_add, list_add_tail, unlink, set_next, set_prev, list_del, list_empty,
}
use field_os.ListHead.Segments.{Seg, last, first, Seg-append, Seg-ends, Seg-ext}
use field_os.ListHead.Insert.{Seg-insert_end, Seg-insert_start}
use field_os.ListHead.Remove.{Seg-unlink}

-- The list at `head` has the entries `xs`, in order; none of them is null, and none is there twice.
pub record IsList (s : Store) (head : ℕ) (xs : List ℕ) : Type 0 where
  pub seg : Seg s head xs head
  pub once : (c : ℕ) → occurs c (head ∷ xs) ≤ 1
  pub not_null : occurs 0 (head ∷ xs) ≡ 0

pub init-IsList : (s : Store) (head : ℕ) → head ≢ 0 → IsList (init_list_head s head) head []
unfolding init_list_head
init-IsList s head there =
    let real : (head == 0) ≡ false = ground arith in
    rw real (record {
      seg = (ground arith, ground arith);
      once = λ c. ground arith;
      not_null = ground arith;
    })

list_add-IsList :
    (s : Store) (head new : ℕ) (xs : List ℕ)
    → IsList s head xs
    → new ≢ 0
    → occurs new (head ∷ xs) ≡ 0
    → IsList (list_add s new head) head (new ∷ xs)
unfolding list_add
list_add-IsList s head new xs l there fresh =
    let both : ((new == 0) || (head == 0)) ≡ false = ground (arith, l.not_null) in
    let at =
      Seg-insert_start s new head xs head l.seg (ground (arith, fresh)) l.once
        (ground (arith, l.once head)) in
    rw (both, (Seg-ends s head xs head l.seg).0)
      (record {
        seg = at;
        once = λ c. ground (arith, l.once c, fresh);
        not_null = ground (arith, l.not_null);
      })

pub list_add_tail-IsList :
    (s : Store) (head new : ℕ) (xs : List ℕ)
    → IsList s head xs
    → new ≢ 0
    → occurs new (head ∷ xs) ≡ 0
    → IsList (list_add_tail s new head) head (xs ++ (new ∷ []))
unfolding list_add_tail
list_add_tail-IsList s head new xs l there fresh =
    let both : ((new == 0) || (head == 0)) ≡ false = ground (arith, l.not_null) in
    let at =
      Seg-insert_end s new head (last head xs) xs head refl l.seg (ground (arith, fresh)) l.once
        (ground (arith, l.once head)) in
    rw (both, (Seg-ends s head xs head l.seg).1)
      (record {
        seg = at;
        once = λ c. ground (arith, l.once c, fresh, occurs-append c xs (new ∷ []));
        not_null = ground (arith, l.not_null, occurs-append 0 xs (new ∷ []));
      })

pub list_del-IsList :
    (s : Store) (head entry : ℕ) (before after : List ℕ)
    → IsList s head (before ++ (entry ∷ after))
    → IsList (list_del s entry) head (before ++ after) × IsList (list_del s entry) entry []
unfolding list_del
list_del-IsList s head entry before after l =
    let split = λ (c : ℕ). occurs-append c before (entry ∷ after) in
    let join = λ (c : ℕ). occurs-append c before after in
    let real : (entry == 0) ≡ false = ground (arith, l.not_null, split 0) in
    let (seg, seg') = Seg-append s head before entry after head l.seg in
    let prev = (Seg-ends s head before entry seg).1 in
    let next = (Seg-ends s entry after head seg').0 in
    let out = unlink s (last head before) (first after head) in
    let cut =
      Seg-unlink s head before entry after seg seg' (λ c. omega (arith, l.once c, split c)) in
    let t : Store = set_prev (set_next out entry entry) entry entry in
    rw (real, prev, next)
      (
        record {
          seg =
              Seg-ext out t head (before ++ after) head
                (λ c h.
                  update_ne out.next entry c entry
                    (λ e. ground (arith, h, e, l.once c, split c, join c)))
                (λ c h.
                  update_ne out.prev entry c entry
                    (λ e. ground (arith, h, e, l.once c, split c, join c)))
                cut;
          once = λ c. omega (arith, l.once c, split c, join c);
          not_null = omega (arith, l.not_null, split 0, join 0);
        },
        record {
          seg = (update_self out.next entry entry, update_self out.prev entry entry);
          once = λ c. ground arith;
          not_null = ground arith;
        },
      )

list_empty_lem :
    (s : Store) (head : ℕ) (xs : List ℕ)
    → IsList s head xs
    → ((xs ≡ []) × (list_empty s head ≡ true)) ⊎ ((xs ≢ []) × (list_empty s head ≡ false))
unfolding list_empty
list_empty_lem s head [] l = inl (refl, ground (arith, l.seg.0))
list_empty_lem s head (x ∷ xs) l = inr ((λ e. cc), ground (arith, l.seg.0, l.once head))

-- The stores that a driver reaches with a list at `head`, and the sequence that it means: it adds
-- entries that are not on the list, and takes entries off that are.
pub data Run (head : ℕ) : Store → List ℕ → Type 0 where
  init : (s : Store) → head ≢ 0 → Run head (init_list_head s head) []
  add :
      {s : Store} {xs : List ℕ} (new : ℕ)
      → Run head s xs
      → new ≢ 0
      → occurs new (head ∷ xs) ≡ 0
      → Run head (list_add s new head) (new ∷ xs)
  add_tail :
      {s : Store} {xs : List ℕ} (new : ℕ)
      → Run head s xs
      → new ≢ 0
      → occurs new (head ∷ xs) ≡ 0
      → Run head (list_add_tail s new head) (xs ++ (new ∷ []))
  del :
      {s : Store} (before : List ℕ) (entry : ℕ) (after : List ℕ)
      → Run head s (before ++ (entry ∷ after))
      → Run head (list_del s entry) (before ++ after)

Run-IsList : {head : ℕ} {s : Store} {xs : List ℕ} → Run head s xs → IsList s head xs
Run-IsList {head} (init s there) = init-IsList s head there
Run-IsList {head} (add {s} {xs} new r there fresh) =
    list_add-IsList s head new xs (Run-IsList r) there fresh
Run-IsList {head} (add_tail {s} {xs} new r there fresh) =
    list_add_tail-IsList s head new xs (Run-IsList r) there fresh
Run-IsList {head} (del {s} before entry after r) =
    (list_del-IsList s head entry before after (Run-IsList r)).0

-- However a driver initialises a list, adds entries at its front and at its end, and takes entries
-- out: the fields `next` and `prev` lead through the entries of the sequence that this means, forth
-- and back; `list_empty` says whether there are any.
pub Run_lem :
    {head : ℕ} {s : Store} {xs : List ℕ}
    → Run head s xs
    → IsList s head xs
      × (((xs ≡ []) × (list_empty s head ≡ true)) ⊎ ((xs ≢ []) × (list_empty s head ≡ false)))
Run_lem {head} {s} {xs} r = (Run-IsList r, list_empty_lem s head xs (Run-IsList r))
