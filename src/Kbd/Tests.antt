-- ===== src/Kbd/Tests.antt =====
-- The keyboard's decoder, ring and interleavings at small concrete inputs.
use field_os.Prelude.{ℕ, ◌≡◌, refl, arith, List, [], ◌∷◌, ◌++◌, update, false}
use field_os.Kbd.{
  KbdRing, decoder_init, decode_key, decode_scancode, lookup_key, ring_push, ring_pop,
}
use field_os.Kbd.Ring.{Contains}
use field_os.Kbd.Race.{interrupted, interrupted_lem}
use field_os.Kbd.Interleaving.{ready, waiting, Reach}
use field_os.Kbd.Coherent.{IsCoherent, Reach-IsCoherent}
use field_os.Kbd.Atomic.{at, accepted_by, ring_push-Reach, accesses-Reach}
use field_os.Kbd.Keys.{keys, put, typed}
use field_os.Kbd.Stream.{decode_stream, decode_stream-typed}

-- Shift down, `h`, shift up, `i`; an arrow key, whose second byte is that of a press code; Pause.
abbrev stroke : List ℕ
stroke = 0x2A ∷ 0x23 ∷ 0xAA ∷ 0x17 ∷ 0xE0 ∷ 0x2A ∷ 0xE1 ∷ 0x1D ∷ 0x45 ∷ 0x1E ∷ []

decode_runs : decode_stream decoder_init stroke ≡ 72 ∷ 105 ∷ 97 ∷ []
unfolding decode_stream decode_scancode decode_key lookup_key
decode_runs = refl

decode_stream-typed_example : decode_stream decoder_init stroke ≡ typed false false (keys stroke)
decode_stream-typed_example = decode_stream-typed stroke (omega arith)

abbrev unread_two : List ℕ
unread_two = 104 ∷ 105 ∷ []

-- Two bytes are unread, on both sides of the array's end.
abbrev two_left : KbdRing
two_left = record {
  buf = update (update (λ _. 0) 255 104) 0 105;
  head = 1;
  tail = 255;
  dropped = 0;
}

two_left-Contains : Contains two_left unread_two
two_left-Contains = record {
  tail_in = omega arith;
  few = omega arith;
  head_at = refl;
  window = (refl, (refl, tt));
}

interrupted_lem_example :
    Contains (ring_push two_left 33) (unread_two ++ (33 ∷ []))
    × Contains (interrupted two_left 33 34) (unread_two ++ (34 ∷ []))
    × ((interrupted two_left 33 34).dropped ≡ two_left.dropped)
interrupted_lem_example = interrupted_lem two_left unread_two 33 34 two_left-Contains (omega arith)

accesses-Reach_example :
    Reach
      (at two_left ready waiting unread_two [])
      (at (ring_push two_left 33) ready waiting (unread_two ++ accepted_by two_left 33) [])
    × Reach
        (at two_left ready waiting unread_two [])
        (at (ring_pop two_left).1 ready waiting unread_two ([] ++ put (ring_pop two_left).0 []))
accesses-Reach_example = accesses-Reach two_left 33 unread_two []

two_left-IsCoherent : IsCoherent (at two_left ready waiting unread_two [])
two_left-IsCoherent = record {
  unread = unread_two;
  contains = two_left-Contains;
  in_order = refl;
  producer_knows = tt;
  consumer_knows = tt;
}

Reach-IsCoherent_example :
    IsCoherent (at (ring_push two_left 33) ready waiting (unread_two ++ accepted_by two_left 33) [])
Reach-IsCoherent_example =
    Reach-IsCoherent (ring_push-Reach two_left 33 unread_two []) two_left-IsCoherent
