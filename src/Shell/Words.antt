-- ===== src/Shell/Words.antt =====
-- The commands of the shell.
use field_os.Prelude.{
  ℕ, ◌≡◌, ◌≢◌, ◌⊎◌, inl, inr, refl, sym, ap, subst, ◌∙◌, arith, true, false, Bool-cases, List, [],
  ◌∷◌, ◌++◌, ◌==◌, take,
}
use field_os.Shell.{
  Action, nothing, cmd_help, cmd_hw, cmd_panic, cmd_unknown, is_blank, token_end, same_bytes, help,
  hw, panic, command, dispatch,
}

abbrev pub IsWord : List ℕ → Type 0
IsWord [] = Unit {0}
IsWord (b ∷ s) = (is_blank b ≡ false) × IsWord s

-- Nothing, or a blank and whatever comes then.
abbrev pub EndsWord : List ℕ → Type 0
EndsWord [] = Unit {0}
EndsWord (b ∷ s) = is_blank b ≡ true

same_bytes→eq : (s r : List ℕ) → same_bytes s r ≡ true → s ≡ r
same_bytes→eq [] [] h = refl
same_bytes→eq (a ∷ s) (b ∷ r) h =
    let head : a ≡ b = ground arith in
    let rest : same_bytes s r ≡ true = ground arith in
    ap (λ x. x ∷ s) head ∙ ap (λ l. b ∷ l) (same_bytes→eq s r rest)
same_bytes→eq [] (b ∷ r) h = cc
same_bytes→eq (a ∷ s) [] h = cc

same_bytes_refl : (s : List ℕ) → same_bytes s s ≡ true
same_bytes_refl [] = refl
same_bytes_refl (a ∷ s) = let same : (a == a) ≡ true = ground arith in rw same (same_bytes_refl s)

differs : (s r : List ℕ) → same_bytes s r ≡ false → s ≢ r
differs s r h e =
    let same : same_bytes s r ≡ true = subst (λ l. same_bytes s l ≡ true) e (same_bytes_refl s) in
    cc

-- What a first word makes the shell do.
pub data Says (word : List ℕ) : Action → Type 0 where
  helps : word ≡ help → Says word cmd_help
  shows_hw : word ≡ hw → Says word cmd_hw
  panics : word ≡ panic → Says word cmd_panic
  unknown : word ≢ help → word ≢ hw → word ≢ panic → Says word (cmd_unknown word)

command-Says : (word : List ℕ) → Says word (command word)
unfolding command
command-Says word = elim (Bool-cases (same_bytes word help)) [
  | inl h ↦ rw h (helps (same_bytes→eq word help h))
  | inr no_help ↦ elim (Bool-cases (same_bytes word hw)) [
    | inl h ↦ rw (no_help, h) (shows_hw (same_bytes→eq word hw h))
    | inr no_hw ↦ elim (Bool-cases (same_bytes word panic)) [
      | inl h ↦ rw (no_help, no_hw, h) (panics (same_bytes→eq word panic h))
      | inr no_panic ↦
          rw (no_help, no_hw, no_panic)
            (unknown (differs word help no_help) (differs word hw no_hw)
              (differs word panic no_panic))
    ]
  ]
]

token_lem :
    (word rest : List ℕ)
    → IsWord word
    → EndsWord rest
    → take (token_end (word ++ rest)) (word ++ rest) ≡ word
unfolding token_end
token_lem [] [] w e = refl
token_lem [] (b ∷ rest) w e = rw e refl
token_lem (b ∷ word) rest (not_blank, w) e =
    rw not_blank (ap (λ s. b ∷ s) (token_lem word rest w e))

-- A line is a first word and a rest: the word is all before the first blank, or the whole line if it
-- has none. The word decides: `help`, `hw` and `panic` do what they say, whatever comes after them,
-- and any other word, the empty one too, is reported as unknown. An empty line does nothing.
pub dispatch_lem :
    (word rest : List ℕ)
    → IsWord word
    → EndsWord rest
    → ((word ++ rest ≡ []) × (dispatch (word ++ rest) ≡ nothing))
      ⊎ (word ++ rest ≢ []) × Says word (dispatch (word ++ rest))
unfolding dispatch
dispatch_lem [] [] w e = inl (refl, refl)
dispatch_lem [] (b ∷ rest) w e = inr (
  λ h. cc,
  subst (λ t. Says [] (command t)) (sym (token_lem [] (b ∷ rest) w e)) (command-Says []),
)
dispatch_lem (b ∷ word) rest w e = inr (
  λ h. cc,
  subst (λ t. Says (b ∷ word) (command t)) (sym (token_lem (b ∷ word) rest w e))
      (command-Says (b ∷ word)),
)
