-- ===== src/Shell/Rounds.antt =====
-- What one byte does to the editor and the terminal.
use field_os.Prelude.{
  ℕ, ◌+◌, ◌-◌, ◌<◌, ◌≤◌, ◌≡◌, ◌≢◌, refl, sym, ap, subst, ◌∙◌, arith, true, false, Bool-cases, inl,
  inr, List, [], ◌∷◌, ◌++◌, ltb, ◌==◌, update, update_self, length,
}
use field_os.Shell.{Editor, slice, prompt, Round, erase, insert, round}
use field_os.Shell.Lines.{
  slice_beyond, length-slice, slice-zero, slice-snoc, init, init-append, edit, actions, Tty, tail,
  last_of, show_byte, show_bytes, display, AreBlank,
}

-- The terminal shows the prompt and the line, the cursor is at the end, and the line is in bounds.
pub record Shows (e : Editor) (t : Tty) : Type 0 where
  pub bounded : e.len ≤ 256
  pub before : t.before ≡ prompt ++ slice e.buf e.len
  pub after : AreBlank t.after

last_of-append : (s : List ℕ) (b : ℕ) → last_of (s ++ (b ∷ [])) ≡ b ∷ []
last_of-append [] b = refl
last_of-append (x ∷ []) b = refl
last_of-append (x ∷ (y ∷ s)) b = last_of-append (y ∷ s) b

tail-AreBlank : (s : List ℕ) → AreBlank s → AreBlank (tail s)
tail-AreBlank [] h = h
tail-AreBlank (x ∷ s) h = h.1

-- What a byte that does not enter the line leaves.
pub record Edits (b : ℕ) (e : Editor) (t : Tty) (r : Round) : Type 0 where
  pub line : slice r.editor.buf r.editor.len ≡ edit b (slice e.buf e.len)
  pub goes : r.halted ≡ false
  pub silent : actions r.events ≡ []
  pub shows : Shows r.editor (display r.events t)

-- "\b \b" at the end of a line takes its last byte away.
erased :
    (l : List ℕ) (c : ℕ) (t : Tty)
    → t.before ≡ l ++ (c ∷ [])
    → AreBlank t.after
    → ((show_bytes (8 ∷ (32 ∷ (8 ∷ []))) t).before ≡ l)
      × AreBlank (show_bytes (8 ∷ (32 ∷ (8 ∷ []))) t).after
unfolding show_bytes show_byte
erased l c t is after =
    rw (is, init-append l c, init-append l 32, last_of-append l c, last_of-append l 32)
      (refl, (refl, after))

erase-Edits : (e : Editor) (t : Tty) → Shows e t → Edits 8 e t (erase e)
unfolding erase display init
erase-Edits e t s = elim (Bool-cases (ltb 0 e.len)) [
  | inl some_byte ↦
      let n = e.len - 1 in
      let is : e.len ≡ n + 1 = ground arith in
      let l = slice e.buf n in
      let whole : slice e.buf e.len ≡ l ++ (e.buf n ∷ []) =
        ap (slice e.buf) is ∙ slice-snoc e.buf n in
      let (before, after) =
        erased (prompt ++ l) (e.buf n) t (s.before ∙ ap (λ r. prompt ++ r) whole) s.after in
      rw some_byte (record {
        line = rw whole (sym (init-append l (e.buf n)));
        goes = refl;
        silent = refl;
        shows = record { bounded = omega (arith, s.bounded); before = before; after = after };
      })
  | inr empty ↦
      let is : e.len ≡ 0 = ground arith in
      rw empty (record {
        line = let none_left = ap (slice e.buf) is ∙ slice-zero e.buf in rw none_left refl;
        goes = refl;
        silent = refl;
        shows = s;
      })
]

insert-Edits :
    (b : ℕ) (e : Editor) (t : Tty) → b < 128 → b ≢ 8 → b ≢ 10 → Shows e t → Edits b e t (insert b e)
unfolding insert display show_bytes show_byte slice
insert-Edits b e t ascii other text s =
    let n8 : (b == 8) ≡ false = ground arith in
    let n10 : (b == 10) ≡ false = ground arith in
    let plain : ltb b 128 ≡ true = ground arith in
    let size = length-slice e.buf e.len in
    elim (Bool-cases (ltb e.len 256)) [
      | inl room ↦
          let more : ltb (length (slice e.buf e.len)) 256 ≡ true = rw size room in
          let kept = slice_beyond e.buf e.len e.len b (omega arith) in
          let new = update_self e.buf e.len b in
          let whole : slice (update e.buf e.len b) (e.len + 1) ≡ slice e.buf e.len ++ (b ∷ []) =
            slice-snoc (update e.buf e.len b) e.len ∙ rw (kept, new) refl in
          rw (room, plain)
            (record {
              line = whole ∙ rw (n8, more) refl;
              goes = refl;
              silent = refl;
              shows = record {
                bounded = ground arith;
                before = rw (n10, n8, s.before) (ap (λ r. prompt ++ r) (sym whole));
                after = rw (n10, n8) (tail-AreBlank t.after s.after);
              };
            })
      | inr full ↦
          let more : ltb (length (slice e.buf e.len)) 256 ≡ false = rw size full in
          rw (full) (record { line = rw (n8, more) refl; goes = refl; silent = refl; shows = s })
    ]

abbrev pub AreAscii : List ℕ → Type 0
AreAscii [] = Unit {0}
AreAscii (b ∷ bytes) = (b < 128) × AreAscii bytes

pub round-Edits :
    (b : ℕ) (e : Editor) (t : Tty) → b < 128 → b ≢ 10 → Shows e t → Edits b e t (round b e)
unfolding round
round-Edits b e t ascii text s =
    let n10 : (b == 10) ≡ false = ground arith in
    elim (Bool-cases (b == 8)) [
      | inl back ↦
          let is : b ≡ 8 = ground arith in
          rw (n10, back) (subst (λ k. Edits k e t (erase e)) (sym is) (erase-Edits e t s))
      | inr other ↦ rw (n10, other) (insert-Edits b e t ascii (ground arith) text s)
    ]
