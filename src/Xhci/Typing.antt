-- ===== src/Xhci/Typing.antt =====
-- Typing on the USB keyboard.
use field_os.Prelude.{
  ℕ, zero, suc, ◌+◌, ◌<◌, ◌≤◌, ◌≡◌, ◌≢◌, inl, inr, refl, subst, ap, ◌∙◌, arith, Bool, true, false,
  Bool-cases, List, [], ◌∷◌, ◌++◌, append_assoc, append-nil, some, ltb, ◌==◌, eqb_refl,
  if◌then◌else◌, length, length-append,
}
use field_os.Kbd.{KbdRing, inject, ring_push}
use field_os.Kbd.Ring.{Contains, ring_refines}
use field_os.Xhci.Hid.{
  HidState, hid_usage_to_ascii, contains, decode_key, decode_keys, decode_report,
}
use field_os.Xhci.Layout.{key_of, gives_lem}

-- The reports for a key that is held alone, and for no key.
abbrev pub press : ℕ × Bool → List ℕ
press key = (if key.1 then 2 else 0) ∷ 0 ∷ key.0 ∷ 0 ∷ 0 ∷ 0 ∷ 0 ∷ 0 ∷ []

abbrev pub release : List ℕ
release = 0 ∷ 0 ∷ 0 ∷ 0 ∷ 0 ∷ 0 ∷ 0 ∷ 0 ∷ []

-- A character, and how many more reports its key is held for.
abbrev pub Stroke : Type 0
Stroke = ℕ × ℕ

abbrev pub hold : ℕ → List ℕ → List (List ℕ) → List (List ℕ)
hold zero report later = later
hold (suc n) report later = report ∷ hold n report later

abbrev pub typed : List Stroke → List (List ℕ)
typed [] = []
typed ((c, more) ∷ strokes) = hold (suc more) (press (key_of c)) (release ∷ typed strokes)

unfoldable pub decode_reports : HidState → KbdRing → List (List ℕ) → HidState × KbdRing
decode_reports h ring [] = (h, ring)
decode_reports h ring (r ∷ rs) =
    let (h', ring') = decode_report h ring r in decode_reports h' ring' rs

-- The characters that have a key.
abbrev pub CanBeTyped : List Stroke → Type 0
CanBeTyped [] = Unit {0}
CanBeTyped ((c, more) ∷ strokes) = (c < 128) × ((key_of c).0 ≢ 0) × CanBeTyped strokes

decoded-prev : (h : HidState) (ring : KbdRing) (r : List ℕ) → (decode_report h ring r).0.prev ≡ r
unfolding decode_report
decoded-prev h ring r = refl

module _ (h : HidState) (ring : KbdRing) where
  emits :
      (usage c : ℕ) (shift : Bool)
      → usage ≢ 0
      → hid_usage_to_ascii usage shift ≡ some c
      → h.prev ≡ release
      → (decode_report h ring (press (usage, shift))).1 ≡ inject ring c
  unfolding decode_report decode_keys decode_key contains
  emits usage c true ne ascii prev =
      let pressed : (usage == 0) ≡ false = ground (arith, ne) in
      let new : (0 == usage) ≡ false = ground (arith, ne) in rw (prev, pressed, new, ascii) refl
  emits usage c false ne ascii prev =
      let pressed : (usage == 0) ≡ false = ground (arith, ne) in
      let new : (0 == usage) ≡ false = ground (arith, ne) in rw (prev, pressed, new, ascii) refl

  held :
      (usage : ℕ) (shift : Bool)
      → h.prev ≡ press (usage, shift)
      → (decode_report h ring (press (usage, shift))).1 ≡ ring
  unfolding decode_report decode_keys decode_key contains
  held usage true prev =
      rw (prev, eqb_refl usage)
        (elim (Bool-cases (usage == 0)) [
          | inl nothing ↦ rw nothing refl
          | inr pressed ↦ rw pressed refl
        ])
  held usage false prev =
      rw (prev, eqb_refl usage)
        (elim (Bool-cases (usage == 0)) [
          | inl nothing ↦ rw nothing refl
          | inr pressed ↦ rw pressed refl
        ])

  lets_go : (decode_report h ring release).1 ≡ ring
  unfolding decode_report decode_keys decode_key contains
  lets_go = refl

-- A key that is still held gives nothing more.
hold_lem :
    (more : ℕ) (key : ℕ × Bool) (later : List (List ℕ)) (h : HidState) (ring : KbdRing)
    → h.prev ≡ press key
    → (h' : HidState) × (decode_reports h ring (hold more (press key) later)
        ≡ decode_reports h' ring later)
      × (h'.prev ≡ press key)
unfolding decode_reports
hold_lem zero key later h ring prev = (h, refl, prev)
hold_lem (suc more) (usage, shift) later h ring prev =
    let r = press (usage, shift) in
    let (h', e, prev') =
      hold_lem more (usage, shift) later (decode_report h ring r).0 ring (decoded-prev h ring r) in
    (
      h',
      ap (λ t. decode_reports (decode_report h ring r).0 t (hold more r later))
            (held h ring usage shift prev)
          ∙ e,
      prev',
    )

-- The characters of the strokes, one each.
abbrev pub text_of : List Stroke → List ℕ
text_of [] = []
text_of ((c, more) ∷ strokes) = c ∷ text_of strokes

abbrev pub inject_all : KbdRing → List ℕ → KbdRing
inject_all ring [] = ring
inject_all ring (c ∷ cs) = inject_all (inject ring c) cs

typed-inject_all :
    (strokes : List Stroke) (h : HidState) (ring : KbdRing)
    → CanBeTyped strokes
    → h.prev ≡ release
    → (h' : HidState) × (decode_reports h ring (typed strokes)
        ≡ (h', inject_all ring (text_of strokes)))
      × (h'.prev ≡ release)
unfolding decode_reports
typed-inject_all [] h ring can prev = (h, refl, prev)
typed-inject_all ((c, more) ∷ strokes) h ring (small, has, can) prev =
    let key = key_of c in
    let r = press key in
    let later = release ∷ typed strokes in
    let given = emits h ring key.0 c key.1 has (gives_lem c small has) prev in
    let pressed = (decode_report h ring r).0 in
    let ring' = inject ring c in
    let (h', e, prev') = hold_lem more key later pressed ring' (decoded-prev h ring r) in
    let gone = (decode_report h' ring' release).0 in
    let (end, e', prev'') =
      typed-inject_all strokes gone ring' can (decoded-prev h' ring' release) in
    (
      end,
      ap (λ t. decode_reports pressed t (hold more r later)) given
          ∙ e
          ∙ ap (λ t. decode_reports gone t (typed strokes)) (lets_go h' ring')
          ∙ e',
      prev'',
    )

inject-Contains :
    (ring : KbdRing) (xs : List ℕ) (c : ℕ)
    → Contains ring xs
    → length xs < 255
    → Contains (inject ring c) (xs ++ (c ∷ []))
unfolding inject
inject-Contains ring xs c holds room =
    let room' : ltb (length xs) 255 ≡ true = ground arith in
    subst (λ b. Contains (ring_push ring c) (if b then xs ++ (c ∷ []) else xs)) room'
      (ring_refines ring xs c holds).0

inject_all-Contains :
    (cs : List ℕ) (ring : KbdRing) (xs : List ℕ)
    → Contains ring xs
    → length xs + length cs ≤ 255
    → Contains (inject_all ring cs) (xs ++ cs)
inject_all-Contains [] ring xs holds few = rw append-nil holds
inject_all-Contains (c ∷ cs) ring xs holds few =
    let all =
      inject_all-Contains cs (inject ring c) (xs ++ (c ∷ []))
        (inject-Contains ring xs c holds (omega arith))
        (omega (arith, length-append xs (c ∷ []))) in
    subst (Contains (inject_all ring (c ∷ cs))) (append_assoc xs (c ∷ []) cs) all

-- When no key was down in the last report, and the ring of the keyboard has room: for the reports of
-- any text that the keys can give, each key pressed with shift where the character takes it, held for
-- any number of reports and released, `decode_report` adds to the unread bytes of the ring exactly
-- the characters of the text, each once and in order, and no key is down again.
pub typed_lem :
    (strokes : List Stroke) (h : HidState) (ring : KbdRing) (xs : List ℕ)
    → CanBeTyped strokes
    → h.prev ≡ release
    → Contains ring xs
    → length xs + length (text_of strokes) ≤ 255
    → (h' : HidState) × (ring' : KbdRing) × (decode_reports h ring (typed strokes) ≡ (h', ring'))
      × Contains ring' (xs ++ text_of strokes)
      × (h'.prev ≡ release)
typed_lem strokes h ring xs can prev holds few =
    let (h', e, prev') = typed-inject_all strokes h ring can prev in
    (h', _, e, inject_all-Contains (text_of strokes) ring xs holds few, prev')
