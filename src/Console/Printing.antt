-- ===== src/Console/Printing.antt =====
-- What is printed is on the screen: the console shows the last rows of the text.
use field_os.Prelude.{
  ℕ, ◌+◌, ◌-◌, ◌*◌, ◌/◌, ◌%◌, ◌<◌, ◌≤◌, ◌≡◌, refl, sym, ap, subst, ◌∙◌, arith, true, false, ◌&&◌,
  Bool-cases, inl, inr, List, [], ◌∷◌, flatten, Option, some, ltb, leb, ◌==◌,
}
use field_os.Console.{
  FbInfo, navy, amber, newline, render_glyph_inner, print_byte, print_str_inner, print_str, clear,
}
use field_os.Console.Paint.{within}
use field_os.Console.Pixels.{Geometry, pixel, paint_rows_lem, render_glyph_lem}
use field_os.Console.Text.{
  Text, blank, next_row, put, type_byte, type_text, type_text-append, paper,
}
use field_os.Console.Screen.{Shows, SameFrame, Goes, newline-Goes}

module _ (font : ℕ → ℕ) (rows : ℕ) where
  drawn : ℕ → FbInfo → FbInfo
  drawn b info =
      let glyph = render_glyph_inner font info b info.cursor_x info.cursor_y amber navy in
      record glyph { cursor_x = glyph.cursor_x + 8 }

  drawn_point :
      (info : FbInfo) (t : Text) (b y x : ℕ)
      → Geometry rows info
      → (s : Shows font rows info t) → t.col * 8 + 8 ≤ info.width
      → y < info.height
      → x < info.width
      → pixel (drawn b info) y x ≡ paper font (put b t) (s.top * 16 + y) x
  unfolding drawn render_glyph_inner
  drawn_point info t b y x g s room high wide =
      let cy = info.cursor_y in
      let cx = info.cursor_x in
      let depth = s.top * 16 + y in
      let of_row : within cy 16 y ≡ (t.row == depth / 16) = ground (arith, s.cursor_y, s.here) in
      let of_col : within cx 8 x ≡ (t.col == x / 8) = ground (arith, s.cursor_x) in
      render_glyph_lem info g.padded y x (omega (arith, g.padded)) font b cx cy amber navy
        (omega (arith, s.cursor_x)) (omega (arith, s.cursor_y, g.height, s.shown))
      ∙ rw (of_row, of_col, s.points y x high wide)
          (elim (Bool-cases (t.row == depth / 16)) [
            | inl in_row ↦ elim (Bool-cases (t.col == x / 8)) [
              | inl in_col ↦
                  let down : y - cy ≡ depth % 16 = ground (arith, s.cursor_y, s.here) in
                  let along : x - cx ≡ x % 8 = ground (arith, s.cursor_x) in
                  rw (in_row, in_col, down, along) refl
              | inr other ↦
                  let is : t.row ≡ depth / 16 = ground arith in rw (in_row, other, is) refl
            ]
            | inr other ↦ rw other refl
          ])

  drawn-Goes :
      (info : FbInfo) (t : Text) (b : ℕ)
      → Geometry rows info
      → Shows font rows info t
      → t.col * 8 + 8 ≤ info.width
      → Goes font rows info (drawn b info) (put b t)
  unfolding drawn render_glyph_inner
  drawn-Goes info t b g s room = (
    record {
      top = s.top;
      line = s.line;
      here = s.here;
      shown = s.shown;
      late = s.late;
      cursor_y = s.cursor_y;
      cursor_x = omega (arith, s.cursor_x);
      fits = omega arith;
      empty = λ r c h. let other : (t.row == r) ≡ false = ground arith in rw other (s.empty r c h);
      points = λ y x high wide. drawn_point info t b y x g s room high wide;
    },
    record {
      width = refl;
      height = refl;
      pitch = refl;
      outside = λ y x past inside.
          let out : within info.cursor_y 16 y ≡ false =
            ground (arith, s.cursor_y, s.shown, g.height) in
          render_glyph_lem info g.padded y x inside font b info.cursor_x info.cursor_y amber navy
            (omega (arith, s.cursor_x)) (omega (arith, s.cursor_y, g.height, s.shown))
          ∙ rw out refl;
    },
  )

  SameFrame-Geometry :
      {info info' : FbInfo} → SameFrame info info' → Geometry rows info → Geometry rows info'
  SameFrame-Geometry f g = record {
    some_row = g.some_row;
    some_column = omega (arith, f.width, g.some_column);
    padded = omega (arith, f.width, f.pitch, g.padded);
    height = f.height ∙ g.height;
  }

  same_trans : {a b c : FbInfo} → SameFrame a b → SameFrame b c → SameFrame a c
  same_trans f h = record {
    width = h.width ∙ f.width;
    height = h.height ∙ f.height;
    pitch = h.pitch ∙ f.pitch;
    outside = λ y x past inside.
        h.outside y x (omega (arith, f.height)) (omega (arith, f.pitch))
        ∙ f.outside y x past inside;
  }

  print_byte-Goes :
      (info : FbInfo) (t : Text) (b : ℕ)
      → Geometry rows info
      → Shows font rows info t
      → Goes font rows info (print_byte font b info) (type_byte (info.width / 8) b t)
  unfolding print_byte drawn
  print_byte-Goes info t b g s = elim (Bool-cases (b == 10)) [
    | inl feed ↦ rw feed (newline-Goes font rows info t g s)
    | inr text ↦ elim (Bool-cases (b == 13)) [
      | inl return ↦
          rw (text, return)
            (
              record {
                top = s.top;
                line = s.line;
                here = s.here;
                shown = s.shown;
                late = s.late;
                cursor_y = s.cursor_y;
                cursor_x = refl;
                fits = omega arith;
                empty = s.empty;
                points = s.points;
              },
              record { width = refl; height = refl; pitch = refl; outside = λ y x h i. refl },
            )
      | inr other ↦
          let wraps : ltb info.width (info.cursor_x + 8) ≡ leb (info.width / 8) t.col =
            ground (arith, s.cursor_x, s.fits) in
          elim (Bool-cases (leb (info.width / 8) t.col)) [
            | inl full ↦
                let (shows, same) = newline-Goes font rows info t g s in
                let (shows', same') =
                  drawn-Goes (newline info) (next_row t) b (SameFrame-Geometry same g) shows
                    (omega (arith, same.width, g.some_column)) in
                rw (text, other, wraps, full) (shows', same_trans same same')
            | inr room ↦ rw (text, other, wraps, room) (drawn-Goes info t b g s (ground arith))
          ]
    ]
  ]

  pub print_str_inner-Goes :
      (s : List ℕ) (info : FbInfo) (t : Text)
      → Geometry rows info
      → Shows font rows info t
      → Goes font rows info (print_str_inner font s info) (type_text (info.width / 8) s t)
  unfolding print_str_inner type_text
  print_str_inner-Goes [] info t g shows =
      (shows, record { width = refl; height = refl; pitch = refl; outside = λ y x h i. refl })
  print_str_inner-Goes (b ∷ s) info t g shows =
      let (shows', same) = print_byte-Goes info t b g shows in
      let info' = print_byte font b info in
      let (shows'', same') =
        print_str_inner-Goes s info' (type_byte (info.width / 8) b t) (SameFrame-Geometry same g)
          shows' in
      (
        subst
            (λ w.
              Shows font rows (print_str_inner font s info')
                (type_text (w / 8) s (type_byte (info.width / 8) b t)))
            same.width shows'',
        same_trans same same',
      )

  clear-Shows :
      (info : FbInfo)
      → Geometry rows info
      → info.cursor_x ≡ 0
      → info.cursor_y ≡ 0
      → Goes font rows info (clear navy info) blank
  unfolding clear
  clear-Shows info g left above = (
    record {
      top = 0;
      line = 0;
      here = refl;
      shown = g.some_row;
      late = λ h. refl;
      cursor_y = above;
      cursor_x = left;
      fits = omega arith;
      empty = λ r c h. refl;
      points = λ y x high wide.
          let painted : within 0 info.height y && ltb x info.width ≡ true = ground arith in
          paint_rows_lem info g.padded y x (omega (arith, g.padded)) info.height 0 navy info.pixels
          ∙ rw painted refl;
    },
    record {
      width = refl;
      height = refl;
      pitch = refl;
      outside = λ y x past inside.
          let out : within 0 info.height y ≡ false = ground arith in
          paint_rows_lem info g.padded y x inside info.height 0 navy info.pixels ∙ rw out refl;
    },
  )

  -- The calls of `print_str` after `init`, when no other holds the lock.
  abbrev pub prints : List (List ℕ) → Option FbInfo → Option FbInfo
  prints [] fb = fb
  prints (s ∷ ss) fb = prints ss (print_str font true false s fb)

  prints-Goes :
      (ss : List (List ℕ)) (info : FbInfo) (t : Text)
      → Geometry rows info
      → Shows font rows info t
      → (info' : FbInfo) × (prints ss (some info) ≡ some info')
        × Goes font rows info info' (type_text (info.width / 8) (flatten ss) t)
  unfolding print_str print_str_inner type_text
  prints-Goes [] info t g shows = (info, refl, print_str_inner-Goes [] info t g shows)
  prints-Goes (s ∷ ss) info t g shows =
      let (shows', same) = print_str_inner-Goes s info t g shows in
      let middle = print_str_inner font s info in
      let (info', runs, (shows'', same')) =
        prints-Goes ss middle (type_text (info.width / 8) s t) (SameFrame-Geometry same g) shows' in
      (
        info',
        runs,
        (
          subst (λ u. Shows font rows info' u)
              (ap (λ w. type_text (w / 8) (flatten ss) (type_text (info.width / 8) s t)) same.width
                ∙ sym (type_text-append (info.width / 8) s (flatten ss) t))
              shows'',
          same_trans same same',
        ),
      )

  -- On a framebuffer of `rows` lines of sixteen pixels, at least one, on which a character fits, with
  -- the cursor where `init` puts it: after a `clear` to the background and any calls of `print_str`
  -- when no other holds the lock, the screen shows the printed text, the rows of paper from `top` on,
  -- with the cursor where the text goes on; it has scrolled only if its last line is in use, and no
  -- memory past its end was written.
  pub prints_refine :
      (ss : List (List ℕ)) (info : FbInfo)
      → Geometry rows info
      → info.cursor_x ≡ 0
      → info.cursor_y ≡ 0
      → (info' : FbInfo) × (prints ss (some (clear navy info)) ≡ some info')
        × Goes font rows info info' (type_text (info.width / 8) (flatten ss) blank)
  unfolding clear
  prints_refine ss info g left above =
      let (shows, same) = clear-Shows info g left above in
      let (info', runs, (shows', same')) =
        prints-Goes ss (clear navy info) blank (SameFrame-Geometry same g) shows in
      (info', runs, (shows', same_trans same same'))
