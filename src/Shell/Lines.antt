-- ===== src/Shell/Lines.antt =====
-- What the typed bytes mean, line by line, and what a terminal shows of the editor's output.
use field_os.Prelude.{
  ℕ, zero, suc, ◌+◌, ◌≤◌, ◌≡◌, refl, ap, ◌∙◌, arith, false, List, [], ◌∷◌, ◌++◌, ltb, ◌==◌,
  if◌then◌else◌, update, length, length-append,
}
use field_os.Shell.{slice, Action, Event, wrote, ran, is_panic}

pub slice_beyond : (buf : ℕ → ℕ) (n i b : ℕ) → n ≤ i → slice (update buf i b) n ≡ slice buf n
unfolding slice
slice_beyond buf zero i b h = refl
slice_beyond buf (suc n) i b h =
    let other : (i == n) ≡ false = ground arith in
    rw (slice_beyond buf n i b (omega arith), other) refl

pub length-slice : (buf : ℕ → ℕ) (n : ℕ) → length (slice buf n) ≡ n
unfolding slice
length-slice buf zero = refl
length-slice buf (suc n) =
    length-append (slice buf n) (buf n ∷ []) ∙ omega (arith, length-slice buf n)

pub slice-zero : (buf : ℕ → ℕ) → slice buf 0 ≡ []
unfolding slice
slice-zero buf = refl

pub slice-snoc : (buf : ℕ → ℕ) (n : ℕ) → slice buf (n + 1) ≡ slice buf n ++ (buf n ∷ [])
unfolding slice
slice-snoc buf n = let after : n + 1 ≡ suc n = omega arith in rw after refl

-- A list without its last entry.
unfoldable pub init : List ℕ → List ℕ
init [] = []
init (x ∷ []) = []
init (x ∷ (y ∷ s)) = x ∷ init (y ∷ s)

pub init-append : (s : List ℕ) (b : ℕ) → init (s ++ (b ∷ [])) ≡ s
unfolding init
init-append [] b = refl
init-append (x ∷ []) b = refl
init-append (x ∷ (y ∷ s)) b = ap (λ r. x ∷ r) (init-append (y ∷ s) b)

-- A byte typed into a line.
abbrev pub edit : ℕ → List ℕ → List ℕ
edit b line = if b == 8 then init line else if ltb (length line) 256 then line ++ (b ∷ []) else line

-- The lines that are entered, and the one that is open at the end, where `line` is open at the start.
unfoldable pub typed_lines : List ℕ → List ℕ → List (List ℕ) × List ℕ
typed_lines line [] = ([], line)
typed_lines line (b ∷ bytes) =
    let (lines, rest) = typed_lines [] bytes in
    if b == 10 then (line ∷ lines, rest) else typed_lines (edit b line) bytes

abbrev pub actions : List Event → List Action
actions [] = []
actions (wrote s ∷ events) = actions events
actions (ran a ∷ events) = a ∷ actions events

pub actions-append : (xs ys : List Event) → actions (xs ++ ys) ≡ actions xs ++ actions ys
actions-append [] ys = refl
actions-append (wrote s ∷ xs) ys = actions-append xs ys
actions-append (ran a ∷ xs) ys = ap (λ r. a ∷ r) (actions-append xs ys)

-- Nothing comes after a panic.
abbrev pub upto_panic : List Action → List Action
upto_panic [] = []
upto_panic (a ∷ later) = if is_panic a then a ∷ [] else a ∷ upto_panic later

-- The line of a terminal with the cursor in it: the bytes before the cursor and those from it on. A
-- byte that is neither a line feed nor a backspace takes one place.
pub record Tty : Type 0 where
  pub before : List ℕ
  pub after : List ℕ

abbrev pub tail : List ℕ → List ℕ
tail [] = []
tail (x ∷ s) = s

abbrev pub last_of : List ℕ → List ℕ
last_of [] = []
last_of (x ∷ []) = x ∷ []
last_of (x ∷ (y ∷ s)) = last_of (y ∷ s)

abbrev pub fresh : Tty
fresh = record { before = []; after = [] }

unfoldable pub show_byte : ℕ → Tty → Tty
show_byte b t =
    if b == 10
    then fresh
    else if b == 8
    then record { before = init t.before; after = last_of t.before ++ t.after }
    else record { before = t.before ++ (b ∷ []); after = tail t.after }

unfoldable pub show_bytes : List ℕ → Tty → Tty
show_bytes [] t = t
show_bytes (b ∷ s) t = show_bytes s (show_byte b t)

-- A command runs at the start of a line, and its output ends with a line feed.
unfoldable pub display : List Event → Tty → Tty
display [] t = t
display (wrote s ∷ events) t = display events (show_bytes s t)
display (ran a ∷ events) t = display events fresh

pub display-append :
    (xs ys : List Event) (t : Tty) → display (xs ++ ys) t ≡ display ys (display xs t)
unfolding display
display-append [] ys t = refl
display-append (wrote s ∷ xs) ys t = display-append xs ys (show_bytes s t)
display-append (ran a ∷ xs) ys t = display-append xs ys fresh

abbrev pub AreBlank : List ℕ → Type 0
AreBlank [] = Unit {0}
AreBlank (x ∷ s) = (x ≡ 32) × AreBlank s
