-- ===== src/Virtq/Device.antt =====
-- The device's step: a chain moves from the published ones to the used ones.
use field_os.Prelude.{
  ℕ, ◌%◌, ◌≤◌, ◌<◌, ◌≡◌, refl, sym, ap, ap₂, cons_head, cons_tail, subst, ◌∙◌, arith, List, [], ◌∷◌,
  ◌++◌, map, length, update, occurs-append, occurs-flatten-append, length-append,
  length-flatten-append, flatten,
}
use field_os.Virtq.{Desc, UsedElem, Virtqueue, next_of}
use field_os.Virtq.Chains.{AreChains, AreChains-append}
use field_os.Virtq.Push.{Owns}
use field_os.Virtq.Ring.{InRing, InRing-append}
use field_os.Virtq.System.{complete, Holds}

-- Chains have at least one descriptor, so there are at most `size` of them.
pub length-le-flatten :
    (d : ℕ → Desc) (cs : List (List ℕ)) → AreChains d cs → length cs ≤ length (flatten cs)
length-le-flatten d [] h = omega arith
length-le-flatten d ([] ∷ cs) h = absurd h.0
length-le-flatten d ((x ∷ c) ∷ cs) h =
    omega (arith, length-le-flatten d cs h.1, length-append c (flatten cs))

-- The first descriptor of a held chain is in the table.
pub head-lt :
    {q : Virtqueue} {free : List ℕ} (held after : List (List ℕ)) (c : List ℕ)
    → Owns q free (held ++ (c ∷ after))
    → next_of c < q.size
head-lt held after [] owns = owns.positive
head-lt held after (x ∷ c) owns = ground (
  arith,
  owns.once x,
  occurs-flatten-append x held ((x ∷ c) ∷ after),
  occurs-append x c (flatten after),
)

-- The device's write moves a chain from the ones at the device to the used ones.
pub complete-Owns :
    (q : Virtqueue) (elem : UsedElem) (free : List ℕ) (before after done : List (List ℕ))
    (c : List ℕ)
    → Owns q free ((before ++ (c ∷ after)) ++ done)
    → Owns (complete q elem) free ((before ++ after) ++ (done ++ (c ∷ [])))
unfolding complete
complete-Owns q elem free before after done c owns =
    let (all, used) = (AreChains-append q.desc (before ++ (c ∷ after)) done).0 owns.chains in
    let (fst, snd) = (AreChains-append q.desc before (c ∷ after)).0 all in
    let at_device = (AreChains-append q.desc before after).1 (fst, snd.1) in
    let completed = (AreChains-append q.desc done (c ∷ [])).1 (used, (snd.0, tt)) in
    record {
      positive = owns.positive;
      small = owns.small;
      free_list = owns.free_list;
      counted = owns.counted;
      chains =
          (AreChains-append q.desc (before ++ after) (done ++ (c ∷ []))).1 (at_device, completed);
      total = omega (
        arith,
        owns.total,
        length-flatten-append (before ++ (c ∷ after)) done,
        length-flatten-append before (c ∷ after),
        length-flatten-append (before ++ after) (done ++ (c ∷ [])),
        length-flatten-append before after,
        length-flatten-append done (c ∷ []),
        length-append c (flatten after),
        length-append c [],
      );
      once = λ a. omega (
        arith,
        owns.once a,
        occurs-flatten-append a (before ++ (c ∷ after)) done,
        occurs-flatten-append a before (c ∷ after),
        occurs-flatten-append a (before ++ after) (done ++ (c ∷ [])),
        occurs-flatten-append a before after,
        occurs-flatten-append a done (c ∷ []),
        occurs-append a c (flatten after),
        occurs-append a c [],
      );
    }

-- A place in the list of heads is a place in the list of chains.
split_heads :
    (device : List (List ℕ)) (before after : List ℕ) (h : ℕ)
    → map next_of device ≡ before ++ (h ∷ after)
    → (bs : List (List ℕ)) × (c : List ℕ) × (cs : List (List ℕ)) × (device ≡ bs ++ (c ∷ cs))
      × (next_of c ≡ h)
      × (map next_of (bs ++ cs) ≡ before ++ after)
split_heads [] [] after h e = cc
split_heads [] (b ∷ before) after h e = cc
split_heads (c ∷ device) [] after h e = ([], c, device, refl, cons_head e, cons_tail e)
split_heads (c ∷ device) (b ∷ before) after h e =
    let (bs, c', cs, e', eh, em) = split_heads device before after h (cons_tail e) in
    (c ∷ bs, c', cs, ap (λ t. c ∷ t) e', eh, ap₂ ◌∷◌ (cons_head e) em)

pub use_chain-Holds :
    (q : Virtqueue) (heads heads' before after free : List ℕ) (device done : List (List ℕ))
    (elem : UsedElem)
    → heads ≡ before ++ (elem.id ∷ after)
    → heads' ≡ before ++ after
    → Holds q heads free device done
    → (bs : List (List ℕ)) × (c : List ℕ) × (cs : List (List ℕ)) × (device ≡ bs ++ (c ∷ cs))
      × Holds (complete q elem) heads' free (bs ++ cs) (done ++ (c ∷ []))
unfolding complete
use_chain-Holds q heads heads' before after free device done elem e e' holds =
    let (bs, c, cs, split, eh, em) =
      split_heads device before after elem.id (sym holds.at_device ∙ e) in
    let owns = subst (λ t. Owns q free (t ++ done)) split holds.owns in
    let few = length-le-flatten q.desc ((bs ++ (c ∷ cs)) ++ done) owns.chains in
    let room : length done < q.size =
      omega
        (arith, few, owns.total, length-append (bs ++ (c ∷ cs)) done, length-append bs (c ∷ cs)) in
    (
      bs,
      c,
      cs,
      split,
      record {
        divides = holds.divides;
        owns = complete-Owns q elem free bs cs done c owns;
        small_idx = holds.small_idx;
        used_idx = omega (arith, holds.used_idx, length-append done (c ∷ []));
        ring =
            subst
              (λ k.
                InRing q.size (update q.used_ring (k % q.size) elem) q.last_used_idx
                  (done ++ (c ∷ [])))
              (sym holds.used_idx)
              (InRing-append q.size holds.divides q.used_ring q.last_used_idx done c elem
                holds.small_idx room (sym eh) holds.ring);
        at_device = e' ∙ sym em;
      },
    )
