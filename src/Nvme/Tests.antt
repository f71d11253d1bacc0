-- ===== src/Nvme/Tests.antt =====
-- The admin queue, and more commands than it has slots.
use field_os.Prelude.{
  ◌*◌, ◌+◌, ◌==◌, ltb, if◌then◌else◌, Option, some, none, [], zero, suc, ℕ, ◌≡◌, inl, inr, refl,
  arith, List, true, replicate,
}
use field_os.Prelude.Outcome.{returned}
use field_os.Nvme.{NvmeQueue, new_queue, is_success}
use field_os.Nvme.Admin.{
  Controller, setup_admin, with_admin, disable, with_frames, enable, wait_csts, wait_from,
}
use field_os.Nvme.Bringup.{Ended, bringup_writes, setup_admin_lem}
use field_os.Nvme.Device.{Device, Job, run, Synced}
use field_os.Nvme.Commands.{AreTimely, outcomes, run_lem}

abbrev admin : NvmeQueue
admin = new_queue 0 64

abbrev controller : Device
controller = record {
  sq_head = 0;
  cq = λ _. record { dw0 = 0; sq_head = 0; sq_id = 0; cid = 0; status = 0 };
  cq_tail = 0;
  phase = 1;
}

admin-Synced : Synced admin controller
admin-Synced = record {
  head_small = omega arith;
  tail_small = omega arith;
  phase_bit = omega arith;
  word = omega arith;
  same_head = refl;
  same_tail = refl;
  same_phase = refl;
  before = λ i. inl (omega arith);
  from = λ i. inr (inr (omega arith));
}

abbrev identify : Job
identify = record {
  command = record { opc = 6; nsid = 1; prp1 = 0x8000; cdw10 = 1; cdw11 = 0; cdw12 = 0 };
  delay = 12;
  status = 0;
}

abbrev jobs : List Job
jobs = replicate 65 identify

timely : (n : ℕ) → AreTimely (replicate n identify)
timely zero = tt
timely (suc n) = (omega arith, omega arith, timely n)

run_lem_example :
    (q : NvmeQueue) × (d : Device) × (run 0 admin controller jobs
      ≡ returned (outcomes 0 jobs, q, d))
    × Synced q d
run_lem_example = run_lem 0 admin controller jobs admin-Synced (timely 65)

-- The lowest bit of the status code is not tested: an invalid opcode passes as a success.
one_passes : is_success 1 ≡ true
one_passes = refl

-- A controller that firmware left enabled, and that takes two rounds to become idle and three to
-- become ready.
abbrev slow : ℕ → ℕ → ℕ
slow cc i = if cc == 0x460001 then (if ltb i 3 then 0 else 1) else (if ltb i 2 then 1 else 0)

abbrev next_frame : ℕ → Option ℕ × ℕ
next_frame e = (some (e * 4096), e + 1)

abbrev left_enabled : Controller
left_enabled = record { cc = 0x460001; writes = []; admin = none }

setup_admin_lem_example :
    Ended slow next_frame left_enabled 5 (setup_admin slow next_frame left_enabled 5)
setup_admin_lem_example = setup_admin_lem slow next_frame left_enabled 5

waits :
    setup_admin slow next_frame left_enabled 5
    ≡ returned (
      record {
        cc = 0x460001;
        writes = bringup_writes left_enabled 0x5000 0x6000;
        admin = some (new_queue 0 64, 0x5000, 0x6000);
      },
      7,
    )
unfolding setup_admin with_admin disable with_frames enable wait_csts wait_from
waits = refl
