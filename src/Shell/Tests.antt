-- ===== src/Shell/Tests.antt =====
-- A user types "hx", takes the x back, types "w" and enters; then "quit now", and begins a third line.
use field_os.Prelude.{ℕ, ◌≡◌, ◌⊎◌, ◌≢◌, refl, arith, true, List, [], ◌∷◌, ◌++◌, map}
use field_os.Shell.{
  cmd_hw, cmd_unknown, nothing, dispatch, run, slice, token_end, command, run_from, round, enter,
  erase, insert,
}
use field_os.Shell.Lines.{actions, upto_panic, typed_lines, display, fresh}
use field_os.Shell.Rounds.{Shows}
use field_os.Shell.Runs.{run-typed_lines}
use field_os.Shell.Words.{Says, dispatch_lem}

abbrev quit : List ℕ
quit = 113 ∷ (117 ∷ (105 ∷ (116 ∷ [])))

abbrev now : List ℕ
now = 32 ∷ (110 ∷ (111 ∷ (119 ∷ [])))

abbrev keys : List ℕ
keys = 104 ∷ (120 ∷ (8 ∷ (119 ∷ (10 ∷ ((quit ++ now) ++ (10 ∷ (104 ∷ [])))))))

run-typed_lines_example :
    (actions (run keys).events ≡ upto_panic (map dispatch (typed_lines [] keys).0))
    × (((run keys).halted ≡ true)
        ⊎ ((slice (run keys).editor.buf (run keys).editor.len ≡ (typed_lines [] keys).1)
            × Shows (run keys).editor (display (run keys).events fresh)))
run-typed_lines_example = run-typed_lines keys (
  omega arith,
  (
    omega arith,
    (
      omega arith,
      (
        omega arith,
        (
          omega arith,
          (
            omega arith,
            (
              omega arith,
              (
                omega arith,
                (
                  omega arith,
                  (
                    omega arith,
                    (omega arith, (omega arith, (omega arith, (omega arith, (omega arith, tt))))),
                  ),
                ),
              ),
            ),
          ),
        ),
      ),
    ),
  ),
)

runs_two : actions (run keys).events ≡ cmd_hw ∷ (cmd_unknown quit ∷ [])
unfolding run run_from round enter erase insert slice dispatch command token_end
runs_two = refl

dispatch_lem_example :
    ((quit ++ now ≡ []) × (dispatch (quit ++ now) ≡ nothing))
    ⊎ (quit ++ now ≢ []) × Says quit (dispatch (quit ++ now))
dispatch_lem_example = dispatch_lem quit now (refl, (refl, (refl, (refl, tt)))) refl
