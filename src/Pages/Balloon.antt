-- ===== src/Pages/Balloon.antt =====
-- The list of a balloon is a queue.
use field_os.Prelude.{
  ℕ, zero, suc, ◌+◌, ◌≤◌, ◌≡◌, refl, sym, subst, arith, ◌||◌, false, List, [], ◌∷◌, ◌++◌,
  append-nil, append_assoc, occurs, occurs-append, length, ◌==◌,
}
use field_os.ListHead.{Store, list_add_tail, list_del}
use field_os.ListHead.Runs.{IsList, list_add_tail-IsList, list_del-IsList}
use field_os.Pages.{balloon_page_enqueue, balloon_page_dequeue}

-- Inflating: the pages go onto the list, one after the other. Deflating: `n` pages come off it.
unfoldable pub enqueue_all : Store → ℕ → List ℕ → Store
enqueue_all s pages [] = s
enqueue_all s pages (p ∷ ps) = enqueue_all (balloon_page_enqueue s pages p) pages ps

unfoldable pub dequeue_many : ℕ → Store → ℕ → List ℕ × Store
dequeue_many zero s pages = ([], s)
dequeue_many (suc n) s pages =
    let (p, s') = balloon_page_dequeue s pages in
    let (ps, s'') = dequeue_many n s' pages in (p ∷ ps, s'')

enqueue_all-IsList :
    (s : Store) (pages : ℕ) (xs ps : List ℕ)
    → IsList s pages xs
    → ((c : ℕ) → occurs c (pages ∷ xs) + occurs c ps ≤ 1)
    → occurs 0 ps ≡ 0
    → IsList (enqueue_all s pages ps) pages (xs ++ ps)
unfolding enqueue_all balloon_page_enqueue
enqueue_all-IsList s pages xs [] l once real = rw (append-nil xs) l
enqueue_all-IsList s pages xs (p ∷ ps) l once real =
    let both : ((pages == 0) || (p == 0)) ≡ false = ground (arith, l.not_null, real) in
    let added =
      list_add_tail-IsList s pages p xs l (ground (arith, real)) (ground (arith, once p)) in
    let rest =
      enqueue_all-IsList (list_add_tail s p pages) pages (xs ++ (p ∷ [])) ps added
        (λ c. ground (arith, once c, occurs-append c xs (p ∷ []))) (ground (arith, real)) in
    rw both (
      subst (IsList (enqueue_all (list_add_tail s p pages) pages ps) pages)
        (append_assoc xs (p ∷ []) ps) rest)

dequeue_lem :
    (s : Store) (pages x : ℕ) (xs : List ℕ)
    → IsList s pages (x ∷ xs)
    → balloon_page_dequeue s pages ≡ (x, list_del s x)
unfolding balloon_page_dequeue
dequeue_lem s pages x xs l =
    let there : (pages == 0) ≡ false = ground (arith, l.not_null) in
    let entry : ((x == 0) || (x == pages)) ≡ false = ground (arith, l.not_null, l.once pages) in
    rw (l.seg.0, there, entry) refl

dequeue_many_lem :
    (s : Store) (pages : ℕ) (xs ys : List ℕ)
    → IsList s pages (xs ++ ys)
    → (s' : Store) × (dequeue_many (length xs) s pages ≡ (xs, s')) × IsList s' pages ys
unfolding dequeue_many
dequeue_many_lem s pages [] ys l = (s, refl, l)
dequeue_many_lem s pages (x ∷ xs) ys l =
    let gone = (list_del-IsList s pages x [] (xs ++ ys) l).0 in
    let (s', e, l') = dequeue_many_lem (list_del s x) pages xs ys gone in
    (s', rw (dequeue_lem s pages x (xs ++ ys) l, e) refl, l')

-- Pages that are put on a balloon's list, where other pages may stand already, come off it in the
-- order in which they were put on, after the others; when all are off, the list is empty, and
-- `balloon_page_dequeue` returns null and changes nothing.
pub balloon_fifo :
    (s : Store) (pages : ℕ) (xs ps : List ℕ)
    → IsList s pages xs
    → ((c : ℕ) → occurs c (pages ∷ xs) + occurs c ps ≤ 1)
    → occurs 0 ps ≡ 0
    → (s' : Store) × (dequeue_many (length (xs ++ ps)) (enqueue_all s pages ps) pages
        ≡ (xs ++ ps, s'))
      × IsList s' pages []
      × (balloon_page_dequeue s' pages ≡ (0, s'))
unfolding balloon_page_dequeue
balloon_fifo s pages xs ps l once real =
    let all = enqueue_all-IsList s pages xs ps l once real in
    let t = enqueue_all s pages ps in
    let (s', e, l') =
      dequeue_many_lem t pages (xs ++ ps) []
        (subst (IsList t pages) (sym (append-nil (xs ++ ps))) all) in
    (s', e, l', ground (arith, l'.seg.0, l'.not_null))
