-- ===== src/Nvme/Admin.antt =====
-- `init` and `setup_admin`: the capabilities of the controller, and the bring-up of the admin queue.
use field_os.Prelude.{
  ℕ, zero, suc, ◌+◌, ◌-◌, ◌*◌, ◌/◌, ◌%◌, ◌^◌, bit_and, bit_or, not, List, [], ◌∷◌, ◌++◌, Option,
  none, some, leb, ◌==◌, if◌then◌else◌,
}
use field_os.Prelude.Outcome.{Outcome, returned, panic, ◌>>=◌}
use field_os.Nvme.{NvmeQueue, new_queue, csts_poll_limit}

abbrev pub cap_css : ℕ → ℕ
cap_css cap = cap / 2 ^ 37 % 2 ^ 8

abbrev pub cap_mpsmin : ℕ → ℕ
cap_mpsmin cap = cap / 2 ^ 48 % 2 ^ 4

-- The two asserts of `init`.
pub check_cap : ℕ → Outcome ℕ
check_cap cap =
    if not (leb (cap_mpsmin cap) 12)
    then panic
    else if bit_and (cap_css cap) 1 == 0
    then panic
    else returned cap

abbrev pub reg_cc : ℕ
reg_cc = 0x14

abbrev pub reg_aqa : ℕ
reg_aqa = 0x24

abbrev pub reg_asq : ℕ
reg_asq = 0x28

abbrev pub reg_acq : ℕ
reg_acq = 0x30

abbrev pub admin_queue_size : ℕ
admin_queue_size = 64

-- CC_IOCQES_16, CC_IOSQES_64 and CC_EN; the other fields are 0.
abbrev pub enabled_cc : ℕ
enabled_cc = bit_or (bit_or (4 * 2 ^ 20) (6 * 2 ^ 16)) 1

-- The register CC, the writes to the registers so far, and the admin queue with its two frames.
pub record Controller : Type 0 where
  pub cc : ℕ
  pub writes : List (ℕ × ℕ)
  pub admin : Option (NvmeQueue × ℕ × ℕ)

-- `read32` and `write32` of CC, and the other writes.
abbrev pub write : ℕ → ℕ → Controller → Controller
write reg val c = record c {
  cc = if reg == reg_cc then val else c.cc;
  writes = c.writes ++ ((reg, val) ∷ []);
}

-- The loop of `wait_csts` with `left` rounds to go: `csts i` is what CSTS gives in the round `i`.
unfoldable pub wait_from {ℓ} : {A : Type ℓ} → ℕ → (ℕ → ℕ) → ℕ → ℕ → ℕ → A → Outcome A
wait_from zero csts mask expected i a = panic
wait_from (suc left) csts mask expected i a =
    let rest = wait_from left csts mask expected (i + 1) a in
    if not (bit_and (csts i) 2 == 0)
    then panic
    else if bit_and (csts i) mask == expected
    then returned a
    else rest

-- The controller is a parameter: what CSTS gives after a write to CC, in each round. So is the
-- allocator of frames.
module _ {E : Type 0} (csts : ℕ → ℕ → ℕ) (alloc_frame : E → Option ℕ × E) where
  unfoldable pub wait_csts : ℕ → ℕ → Controller → Outcome Controller
  wait_csts mask expected c = wait_from csts_poll_limit (csts c.cc) mask expected 0 c

  -- Where the bit of CC_EN is set, `cc & !CC_EN` is one less.
  unfoldable pub disable : Controller → Outcome Controller
  disable c =
      if not (bit_and c.cc 1 == 0) then wait_csts 1 0 (write reg_cc (c.cc - 1) c) else returned c

  -- From the frames on.
  unfoldable pub enable : ℕ → ℕ → Controller → Outcome Controller
  enable sq_phys cq_phys c =
      let aqa = bit_or ((admin_queue_size - 1) * 2 ^ 16) (admin_queue_size - 1) in
      let set = write reg_acq cq_phys (write reg_asq sq_phys (write reg_aqa aqa c)) in
      wait_csts 1 1 (write reg_cc enabled_cc set) >>= (λ ready.
        returned (record ready { admin = some (new_queue 0 admin_queue_size, sq_phys, cq_phys) }))

  unfoldable pub with_frames : Option ℕ → Option ℕ → Controller → Outcome Controller
  with_frames (some sq_phys) (some cq_phys) c = enable sq_phys cq_phys c
  with_frames none cq c = panic
  with_frames (some sq_phys) none c = panic

  -- From the assert on that there is no admin queue.
  unfoldable pub with_admin : Option (NvmeQueue × ℕ × ℕ) → Controller → E → Outcome (Controller × E)
  with_admin none c e =
      let (sq, e') = alloc_frame e in
      let (cq, e'') = alloc_frame e' in
      disable c >>= (λ idle. with_frames sq cq idle >>= (λ ready. returned (ready, e'')))
  with_admin (some queue) c e = panic

  unfoldable pub setup_admin : Controller → E → Outcome (Controller × E)
  setup_admin c e = with_admin c.admin c e
