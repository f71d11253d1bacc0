-- ===== src/Kbd/Interleaving.antt =====
-- The ring under any interleaving of the producer's and the consumer's atomic accesses.
use field_os.Prelude.{ℕ, ◌+◌, ◌%◌, ◌≡◌, ◌≢◌, List, [], ◌∷◌, ◌++◌, update}
use field_os.Prelude.Outcome.{add64}
use field_os.Kbd.{KbdRing}

-- Where `ring_push` stands: before its loads; after the load of `head`; after the check against
-- `tail`; after the write of the slot.
pub data Producer : Type 0 where
  ready : Producer
  loaded_head : ℕ → ℕ → Producer
  has_room : ℕ → ℕ → Producer
  written : ℕ → ℕ → Producer

-- Where `ring_pop` stands: before its loads; after the load of `tail`; after the check against
-- `head`; after the read of the slot.
pub data Consumer : Type 0 where
  waiting : Consumer
  loaded_tail : ℕ → Consumer
  not_empty : ℕ → Consumer
  has_read : ℕ → ℕ → Consumer

-- The ring, the two sides, the bytes whose push was completed, and the bytes that were returned.
pub record System : Type 0 where
  pub ring : KbdRing
  pub producer : Producer
  pub consumer : Consumer
  pub accepted : List ℕ
  pub received : List ℕ

-- One atomic access of one side.
pub data Step : System → System → Type 0 where
  load_head :
      (s : System) (b : ℕ)
      → s.producer ≡ ready
      → Step s (record s { producer = loaded_head b s.ring.head })
  drop_byte :
      (s : System) (b h : ℕ)
      → s.producer ≡ loaded_head b h
      → (h + 1) % 256 ≡ s.ring.tail
      → Step s (record s {
        ring = record (s.ring) { dropped = add64 s.ring.dropped 1 };
        producer = ready;
      })
  check_room :
      (s : System) (b h : ℕ)
      → s.producer ≡ loaded_head b h
      → (h + 1) % 256 ≢ s.ring.tail
      → Step s (record s { producer = has_room b h })
  write_slot :
      (s : System) (b h : ℕ)
      → s.producer ≡ has_room b h
      → Step s (record s {
        ring = record (s.ring) { buf = update s.ring.buf h b };
        producer = written b h;
      })
  store_head :
      (s : System) (b h : ℕ)
      → s.producer ≡ written b h
      → Step s (record s {
        ring = record (s.ring) { head = (h + 1) % 256 };
        producer = ready;
        accepted = s.accepted ++ (b ∷ []);
      })
  load_tail :
      (s : System) → s.consumer ≡ waiting → Step s (record s { consumer = loaded_tail s.ring.tail })
  find_empty :
      (s : System) (t : ℕ)
      → s.consumer ≡ loaded_tail t
      → s.ring.head ≡ t
      → Step s (record s { consumer = waiting })
  check_some :
      (s : System) (t : ℕ)
      → s.consumer ≡ loaded_tail t
      → s.ring.head ≢ t
      → Step s (record s { consumer = not_empty t })
  read_slot :
      (s : System) (t : ℕ)
      → s.consumer ≡ not_empty t
      → Step s (record s { consumer = has_read t (s.ring.buf t) })
  store_tail :
      (s : System) (t b : ℕ)
      → s.consumer ≡ has_read t b
      → Step s (record s {
        ring = record (s.ring) { tail = (t + 1) % 256 };
        consumer = waiting;
        received = s.received ++ (b ∷ []);
      })

pub data Reach (s : System) : System → Type 0 where
  here : Reach s s
  next : {t u : System} → Reach s t → Step t u → Reach s u
