-- ===== src/Kbd/Coherent.antt =====
-- What holds of the ring in every interleaving: no byte is lost, repeated or reordered.
use field_os.Prelude.{
  ℕ, ◌+◌, ◌%◌, ◌<◌, ◌≡◌, refl, sym, subst, ap, ◌∙◌, arith, List, [], ◌∷◌, ◌++◌, append_assoc, some,
  length, length-append, update, update_self,
}
use field_os.Kbd.{KbdRing}
use field_os.Kbd.Ring.{Window-extend, Window-outside, Contains, queue_head}
use field_os.Kbd.Interleaving.{
  Producer, ready, loaded_head, has_room, written, Consumer, waiting, loaded_tail, not_empty,
  has_read, System, Step, load_head, drop_byte, check_room, write_slot, store_head, load_tail,
  find_empty, check_some, read_slot, store_tail, Reach, here, next,
}

-- What each side may rely on about the unread bytes, at each place.
abbrev ProducerKnows : Producer → KbdRing → List ℕ → Type 0
ProducerKnows ready r xs = Unit {0}
ProducerKnows (loaded_head b h) r xs = h ≡ r.head
ProducerKnows (has_room b h) r xs = (h ≡ r.head) × (length xs < 255)
ProducerKnows (written b h) r xs = (h ≡ r.head) × (length xs < 255) × (r.buf h ≡ b)

abbrev ConsumerKnows : Consumer → ℕ → List ℕ → Type 0
ConsumerKnows waiting tail xs = Unit {0}
ConsumerKnows (loaded_tail t) tail xs = t ≡ tail
ConsumerKnows (not_empty t) tail xs = (t ≡ tail) × (0 < length xs)
ConsumerKnows (has_read t b) tail xs = (t ≡ tail) × (queue_head xs ≡ some b)

-- The unread bytes stand in the ring, and the bytes accepted are those received, then the unread.
pub record IsCoherent (s : System) : Type 0 where
  pub unread : List ℕ
  pub contains : Contains s.ring unread
  pub in_order : s.accepted ≡ s.received ++ unread
  pub producer_knows : ProducerKnows s.producer s.ring unread
  pub consumer_knows : ConsumerKnows s.consumer s.ring.tail unread

-- More unread bytes leave what the consumer knows, and fewer what the producer knows.
ConsumerKnows-append :
    (c : Consumer) (tail b : ℕ) (xs : List ℕ)
    → ConsumerKnows c tail xs
    → ConsumerKnows c tail (xs ++ (b ∷ []))
ConsumerKnows-append waiting tail b xs k = tt
ConsumerKnows-append (loaded_tail t) tail b xs k = k
ConsumerKnows-append (not_empty t) tail b xs k =
    (k.0, omega (arith, length-append xs (b ∷ []), k.1))
ConsumerKnows-append (has_read t x) tail b [] k = absurd (cc)
ConsumerKnows-append (has_read t x) tail b (y ∷ xs) k = k

ProducerKnows-tail :
    (p : Producer) (r : KbdRing) (t x : ℕ) (xs : List ℕ)
    → ProducerKnows p r (x ∷ xs)
    → ProducerKnows p (record r { tail = t }) xs
ProducerKnows-tail ready r t x xs k = tt
ProducerKnows-tail (loaded_head b h) r t x xs k = k
ProducerKnows-tail (has_room b h) r t x xs k = (k.0, omega (arith, k.1))
ProducerKnows-tail (written b h) r t x xs k = (k.0, omega (arith, k.1), k.2)

module _ (s : System) (v : IsCoherent s) where
  knows_producer : (p : Producer) → s.producer ≡ p → ProducerKnows p s.ring v.unread
  knows_producer p e = subst (λ t. ProducerKnows t s.ring v.unread) e v.producer_knows

  knows_consumer : (c : Consumer) → s.consumer ≡ c → ConsumerKnows c s.ring.tail v.unread
  knows_consumer c e = subst (λ t. ConsumerKnows t s.ring.tail v.unread) e v.consumer_knows

-- With one side's place changed, and nothing else.
abbrev producer_at :
    (s : System) (p : Producer)
    → (v : IsCoherent s) → ProducerKnows p s.ring v.unread
    → IsCoherent (record s { producer = p })
producer_at s p v k = record {
  unread = v.unread;
  contains = v.contains;
  in_order = v.in_order;
  producer_knows = k;
  consumer_knows = v.consumer_knows;
}

abbrev consumer_at :
    (s : System) (c : Consumer)
    → (v : IsCoherent s) → ConsumerKnows c s.ring.tail v.unread
    → IsCoherent (record s { consumer = c })
consumer_at s c v k = record {
  unread = v.unread;
  contains = v.contains;
  in_order = v.in_order;
  producer_knows = v.producer_knows;
  consumer_knows = k;
}

write_slot-IsCoherent :
    (s : System) (b h : ℕ)
    → s.producer ≡ has_room b h
    → IsCoherent s
    → IsCoherent (record s {
      ring = record (s.ring) { buf = update s.ring.buf h b };
      producer = written b h;
    })
write_slot-IsCoherent s b h e v =
    let (at_head, room) = knows_producer s v (has_room b h) e in
    let c = v.contains in
    record {
      unread = v.unread;
      contains = record {
        tail_in = c.tail_in;
        few = c.few;
        head_at = c.head_at;
        window =
            Window-outside s.ring.buf s.ring.tail b h v.unread c.tail_in c.few (at_head ∙ c.head_at)
              c.window;
      };
      in_order = v.in_order;
      producer_knows = (at_head, room, update_self s.ring.buf h b);
      consumer_knows = v.consumer_knows;
    }

store_head-IsCoherent :
    (s : System) (b h : ℕ)
    → s.producer ≡ written b h
    → IsCoherent s
    → IsCoherent (record s {
      ring = record (s.ring) { head = (h + 1) % 256 };
      producer = ready;
      accepted = s.accepted ++ (b ∷ []);
    })
store_head-IsCoherent s b h e v =
    let (at_head, room, stored) = knows_producer s v (written b h) e in
    let c = v.contains in
    record {
      unread = v.unread ++ (b ∷ []);
      contains = record {
        tail_in = c.tail_in;
        few = omega (arith, length-append v.unread (b ∷ []));
        head_at = omega (arith, length-append v.unread (b ∷ []), c.head_at, at_head);
        window =
            Window-extend s.ring.buf s.ring.tail b h v.unread (at_head ∙ c.head_at) c.tail_in stored
              c.window;
      };
      in_order = ap (λ t. t ++ (b ∷ [])) v.in_order ∙ append_assoc s.received v.unread (b ∷ []);
      producer_knows = tt;
      consumer_knows = ConsumerKnows-append s.consumer s.ring.tail b v.unread v.consumer_knows;
    }

-- The consumer holds the oldest unread byte, and takes it off.
take_off :
    (s : System) (t b : ℕ) (unread : List ℕ)
    → t ≡ s.ring.tail
    → queue_head unread ≡ some b
    → Contains s.ring unread
    → s.accepted ≡ s.received ++ unread
    → ProducerKnows s.producer s.ring unread
    → IsCoherent (record s {
      ring = record (s.ring) { tail = (t + 1) % 256 };
      consumer = waiting;
      received = s.received ++ (b ∷ []);
    })
take_off s t b [] at_tail e c order k = absurd (cc)
take_off s t b (x ∷ xs) at_tail e c order k =
    let same : x ≡ b = cc in
    record {
      unread = xs;
      contains = record {
        tail_in = omega arith;
        few = omega (arith, c.few);
        head_at = omega (arith, c.head_at, c.few, c.tail_in, at_tail);
        window = rw at_tail c.window.1;
      };
      in_order = rw (← same) (order ∙ sym (append_assoc s.received (x ∷ []) xs));
      producer_knows = ProducerKnows-tail s.producer s.ring ((t + 1) % 256) x xs k;
      consumer_knows = tt;
    }

-- The slot at the tail holds the oldest unread byte.
oldest :
    (r : KbdRing) (xs : List ℕ) (t : ℕ)
    → t ≡ r.tail
    → 0 < length xs
    → Contains r xs
    → queue_head xs ≡ some (r.buf t)
oldest r [] t e h c = absurd (omega arith)
oldest r (x ∷ xs) t e h c = rw e (ap some (sym c.window.0))

Step-IsCoherent : {s t : System} → Step s t → IsCoherent s → IsCoherent t
Step-IsCoherent (load_head s b e) v = producer_at s (loaded_head b s.ring.head) v refl
Step-IsCoherent (drop_byte s b h e full) v = record {
  unread = v.unread;
  contains = record {
    tail_in = v.contains.tail_in;
    few = v.contains.few;
    head_at = v.contains.head_at;
    window = v.contains.window;
  };
  in_order = v.in_order;
  producer_knows = tt;
  consumer_knows = v.consumer_knows;
}
Step-IsCoherent (check_room s b h e room) v =
    let at_head = knows_producer s v (loaded_head b h) e in
    producer_at s (has_room b h) v
      (at_head, ground (arith, v.contains.head_at, v.contains.tail_in, v.contains.few, at_head))
Step-IsCoherent (write_slot s b h e) v = write_slot-IsCoherent s b h e v
Step-IsCoherent (store_head s b h e) v = store_head-IsCoherent s b h e v
Step-IsCoherent (load_tail s e) v = consumer_at s (loaded_tail s.ring.tail) v refl
Step-IsCoherent (find_empty s t e empty) v = consumer_at s waiting v tt
Step-IsCoherent (check_some s t e some_left) v =
    let at_tail = knows_consumer s v (loaded_tail t) e in
    consumer_at s (not_empty t) v
      (at_tail, ground (arith, v.contains.head_at, v.contains.tail_in, at_tail))
Step-IsCoherent (read_slot s t e) v =
    let (at_tail, some_left) = knows_consumer s v (not_empty t) e in
    consumer_at s (has_read t (s.ring.buf t)) v
      (at_tail, oldest s.ring v.unread t at_tail some_left v.contains)
Step-IsCoherent (store_tail s t b e) v =
    let (at_tail, oldest_byte) = knows_consumer s v (has_read t b) e in
    take_off s t b v.unread at_tail oldest_byte v.contains v.in_order v.producer_knows

-- In every state that the two sides reach from a coherent one, whatever the order of their accesses: the bytes whose
-- push was completed are, in order, those that were returned and then at most 255 unread ones that
-- stand in the ring.
pub Reach-IsCoherent : {s t : System} → Reach s t → IsCoherent s → IsCoherent t
Reach-IsCoherent here v = v
Reach-IsCoherent (next r st) v = Step-IsCoherent st (Reach-IsCoherent r v)
