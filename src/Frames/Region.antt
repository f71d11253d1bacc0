-- ===== src/Frames/Region.antt =====
-- What `add_region` pushes, counted frame by frame.
use field_os.Prelude.{
  occurs, ℕ, zero, suc, ◌+◌, ◌-◌, ◌*◌, ◌/◌, ◌%◌, ◌^◌, ◌<◌, ◌≡◌, arith, List, ◌∷◌, leb, ◌==◌, ◌&&◌,
  if◌then◌else◌, length,
}
use field_os.Prelude.Bits.{bit_and_page}
use field_os.Prelude.Outcome.{add64, sub64}
use field_os.Frames.{FrameAllocator, push_frames, add_region, page_floor}

-- 1 if `a` is a 4-KiB frame that lies in `[lo, hi)`, else 0.
abbrev pub frame_within : ℕ → ℕ → ℕ → ℕ
frame_within lo hi a = if (a % 4096 == 0) && leb lo a && leb (a + 4096) hi then 1 else 0

-- The frames from `base + i * 4096` on, `left` of them.
abbrev span : ℕ → ℕ → ℕ → ℕ → ℕ
span base left i a =
    if (a % 4096 == 0) && leb (base + i * 4096) a && leb (a + 4096) (base + i * 4096 + left * 4096)
    then 1
    else 0

occurs-push_frames :
    (base left i a : ℕ) (free : List ℕ)
    → base % 4096 ≡ 0
    → base + i * 4096 + left * 4096 < 2 ^ 64
    → occurs a (push_frames base left i free) ≡ occurs a free + span base left i a
unfolding push_frames
occurs-push_frames base zero i a free h k = ground arith
occurs-push_frames base (suc left) i a free h k =
    let addr = (base + i * 4096 % 2 ^ 64) % 2 ^ 64 in
    let e : addr ≡ base + i * 4096 = omega arith in
    ground (arith, occurs-push_frames base left (i + 1) a (addr ∷ free) h (omega arith))

pub length-push_frames :
    (base left i : ℕ) (free : List ℕ) → length (push_frames base left i free) ≡ length free + left
unfolding push_frames
length-push_frames base zero i free = omega arith
length-push_frames base (suc left) i free =
    omega
      (arith, length-push_frames base left (i + 1) (((base + i * 4096 % 2 ^ 64) % 2 ^ 64) ∷ free))

round_up :
    (base : ℕ)
    → base + 4096 < 2 ^ 64
    → page_floor (sub64 (add64 base 4096) 1) ≡ (base + 4095) / 4096 * 4096
round_up base h = rw (bit_and_page (sub64 (add64 base 4096) 1) (omega arith)) (omega arith)

round_down :
    (base length : ℕ)
    → base + length < 2 ^ 64
    → page_floor (add64 base length) ≡ (base + length) / 4096 * 4096
round_down base length h = rw (bit_and_page (add64 base length) (omega arith)) (omega arith)

-- `add_region` pushes each 4-KiB frame that lies wholly inside `[base, base + length)` once, and
-- no other address, if the region stays a page below the end of the address space.
pub occurs-add_region :
    (s : FrameAllocator) (base length a : ℕ)
    → base + length + 4096 < 2 ^ 64
    → occurs a (add_region s base length).free
      ≡ occurs a s.free + frame_within base (base + length) a
unfolding add_region
occurs-add_region s base length a h =
    rw (round_up base (omega arith), round_down base length (omega arith))
      (ground (
        arith,
        occurs-push_frames ((base + 4095) / 4096 * 4096)
            (((base + length) / 4096 * 4096 - (base + 4095) / 4096 * 4096) / 4096) 0 a s.free,
      ))
