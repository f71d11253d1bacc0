-- ===== src/Shell/Runs.antt =====
-- The editor over any bytes.
use field_os.Prelude.{
  ℕ, ◌≡◌, ◌⊎◌, refl, sym, ap, subst, ◌∙◌, arith, true, false, Bool-cases, inl, inr, List, [], ◌∷◌,
  ◌++◌, map, ◌==◌,
}
use field_os.Shell.{Editor, slice, prompt, is_panic, dispatch, Round, enter, round, run_from, run}
use field_os.Shell.Lines.{
  slice-zero, edit, typed_lines, actions, actions-append, upto_panic, Tty, fresh, show_byte,
  show_bytes, display, display-append,
}
use field_os.Shell.Rounds.{Shows, AreAscii, Edits, round-Edits}

-- What a run does: the lines that were entered are dispatched, up to a panic, and if there is none
-- the open line is the one on the terminal.
record Runs (bytes line : List ℕ) (t : Tty) (r : Round) : Type 0 where
  ran_all : actions r.events ≡ upto_panic (map dispatch (typed_lines line bytes).0)
  edited : r.halted ≡ false → slice r.editor.buf r.editor.len ≡ (typed_lines line bytes).1
  shows : r.halted ≡ false → Shows r.editor (display r.events t)

-- The line after a prompt at the start of a line.
abbrev prompted : Tty
prompted = record { before = prompt; after = [] }

enter-Shows : (e : Editor) → Shows (enter e).editor prompted
unfolding enter
enter-Shows e = record {
  bounded = omega arith;
  before = ap (λ r. prompt ++ r) (sym (slice-zero e.buf));
  after = tt;
}

after_enter :
    (bytes : List ℕ) (e : Editor) (t : Tty)
    → is_panic (dispatch (slice e.buf e.len)) ≡ false
    → Runs bytes (slice e.buf 0) prompted (run_from bytes (enter e).editor)
    → Runs (10 ∷ bytes) (slice e.buf e.len) t (run_from (10 ∷ bytes) e)
unfolding run_from round typed_lines enter display show_bytes show_byte
after_enter bytes e t calm later = rw calm (record {
  ran_all =
      rw calm
        (ap (λ r. dispatch (slice e.buf e.len) ∷ r) (later.ran_all ∙ rw (slice-zero e.buf) refl));
  edited = λ h. later.edited h ∙ rw (slice-zero e.buf) refl;
  shows = later.shows;
})

halted_enter :
    (bytes : List ℕ) (e : Editor) (t : Tty)
    → is_panic (dispatch (slice e.buf e.len)) ≡ true
    → Runs (10 ∷ bytes) (slice e.buf e.len) t (run_from (10 ∷ bytes) e)
unfolding run_from round typed_lines enter
halted_enter bytes e t panics =
    rw panics (record { ran_all = rw panics refl; edited = λ h. cc; shows = λ h. cc })

after_edit :
    (b : ℕ) (bytes : List ℕ) (e : Editor) (t : Tty)
    → (b == 10) ≡ false
    → Edits b e t (round b e)
    → Runs bytes
        (edit b (slice e.buf e.len))
        (display (round b e).events t)
        (run_from bytes (round b e).editor)
    → Runs (b ∷ bytes) (slice e.buf e.len) t (run_from (b ∷ bytes) e)
unfolding run_from typed_lines
after_edit b bytes e t text edits later = rw edits.goes (record {
  ran_all = actions-append (round b e).events _ ∙ rw (edits.silent, text) later.ran_all;
  edited = λ h. rw text (later.edited h);
  shows = λ h.
      rw (display-append (round b e).events (run_from bytes (round b e).editor).events t)
        (later.shows h);
})

runs :
    (bytes : List ℕ) (e : Editor) (t : Tty)
    → AreAscii bytes
    → Shows e t
    → Runs bytes (slice e.buf e.len) t (run_from bytes e)
unfolding run_from typed_lines display enter
runs [] e t ascii s = record { ran_all = refl; edited = λ h. refl; shows = λ h. s }
runs (b ∷ bytes) e t (small, ascii) s = elim (Bool-cases (b == 10)) [
  | inl feed ↦
      let is : b ≡ 10 = ground arith in
      subst (λ k. Runs (k ∷ bytes) (slice e.buf e.len) t (run_from (k ∷ bytes) e)) (sym is)
        (elim (Bool-cases (is_panic (dispatch (slice e.buf e.len)))) [
          | inl panics ↦ halted_enter bytes e t panics
          | inr calm ↦
              after_enter bytes e t calm
                (runs bytes (enter e).editor prompted ascii (enter-Shows e))
        ])
  | inr text ↦
      let edits = round-Edits b e t small (ground arith) s in
      after_edit b bytes e t text edits (
        subst (λ l. Runs bytes l (display (round b e).events t) (run_from bytes (round b e).editor))
          edits.line
          (runs bytes (round b e).editor (display (round b e).events t) ascii edits.shows))
]

-- Whatever ASCII bytes the keyboard gives: the shell dispatches each entered line, as its backspaces
-- leave it and without the bytes that come when it has 256, in order, up to the first that says
-- `panic` and nothing after it. Unless there was one, the buffer holds the open line, of 256 bytes at
-- most without the line feed that ends it, and on a terminal the prompt and this line stand before the cursor, with nothing but spaces
-- after it, where a byte that is neither a line feed nor a backspace takes one place.
pub run-typed_lines :
    (bytes : List ℕ)
    → AreAscii bytes
    → (actions (run bytes).events ≡ upto_panic (map dispatch (typed_lines [] bytes).0))
      × (((run bytes).halted ≡ true)
          ⊎ ((slice (run bytes).editor.buf (run bytes).editor.len ≡ (typed_lines [] bytes).1)
              × Shows (run bytes).editor (display (run bytes).events fresh)))
unfolding run display show_bytes show_byte enter
run-typed_lines bytes ascii =
    let empty : Editor = record { buf = λ i. 0; len = 0 } in
    let all : Runs bytes [] prompted (run_from bytes empty) =
      subst (λ l. Runs bytes l prompted (run_from bytes empty)) (slice-zero empty.buf)
        (runs bytes empty prompted ascii (enter-Shows empty)) in
    (
      all.ran_all,
      elim (Bool-cases (run_from bytes empty).halted) [
        | inl panics ↦ inl panics
        | inr calm ↦ inr (all.edited calm, all.shows calm)
      ],
    )
