-- ===== src/Shell.antt =====
-- arsenal-kernel/src/shell.rs, the line editor of the shell task.
pub mod Lines
pub mod Rounds
pub mod Runs
pub mod Words
mod Tests
use field_os.Prelude.{
  ℕ, zero, suc, ◌+◌, ◌-◌, Bool, true, false, ◌&&◌, ◌||◌, List, [], ◌∷◌, ◌++◌, ltb, ◌==◌,
  if◌then◌else◌, update, length, take,
}

-- The bytes of text that a line may have, without its line feed, which is not stored.
abbrev pub line_max : ℕ
line_max = 256

-- "> "
abbrev pub prompt : List ℕ
prompt = 62 ∷ (32 ∷ [])

abbrev pub bs : ℕ
bs = 8

abbrev pub lf : ℕ
lf = 10

-- `buf` and `len`
pub record Editor : Type 0 where
  pub buf : ℕ → ℕ
  pub len : ℕ

-- `&buf[..len]`
unfoldable pub slice : (ℕ → ℕ) → ℕ → List ℕ
slice buf zero = []
slice buf (suc n) = slice buf n ++ (buf n ∷ [])

-- What a line makes the shell do.
pub data Action : Type 0 where
  nothing : Action
  cmd_help : Action
  cmd_hw : Action
  cmd_panic : Action
  cmd_unknown : List ℕ → Action

pub data Event : Type 0 where
  wrote : List ℕ → Event
  ran : Action → Event

abbrev pub is_blank : ℕ → Bool
is_blank b = (b == 32) || (b == 9)

-- `position(..).unwrap_or(len)`
unfoldable pub token_end : List ℕ → ℕ
token_end [] = 0
token_end (b ∷ s) = let rest = token_end s in if is_blank b then 0 else suc rest

abbrev pub same_bytes : List ℕ → List ℕ → Bool
same_bytes [] [] = true
same_bytes (a ∷ s) (b ∷ r) = (a == b) && same_bytes s r
same_bytes [] (b ∷ r) = false
same_bytes (a ∷ s) [] = false

-- "help", "hw" and "panic"
abbrev pub help : List ℕ
help = 104 ∷ (101 ∷ (108 ∷ (112 ∷ [])))

abbrev pub hw : List ℕ
hw = 104 ∷ (119 ∷ [])

abbrev pub panic : List ℕ
panic = 112 ∷ (97 ∷ (110 ∷ (105 ∷ (99 ∷ []))))

unfoldable pub command : List ℕ → Action
command token =
    if same_bytes token help
    then cmd_help
    else if same_bytes token hw
    then cmd_hw
    else if same_bytes token panic
    then cmd_panic
    else cmd_unknown token

unfoldable pub dispatch : List ℕ → Action
dispatch [] = nothing
dispatch (b ∷ s) = command (take (token_end (b ∷ s)) (b ∷ s))

-- A byte that is not ASCII is no UTF-8 text.
abbrev pub echo : ℕ → List Event
echo byte = if ltb byte 128 then wrote (byte ∷ []) ∷ [] else []

abbrev pub is_panic : Action → Bool
is_panic nothing = false
is_panic cmd_help = false
is_panic cmd_hw = false
is_panic cmd_panic = true
is_panic (cmd_unknown token) = false

-- The arms of the `match`; the events of a round, and whether the shell goes on.
pub record Round : Type 0 where
  pub events : List Event
  pub editor : Editor
  pub halted : Bool

unfoldable pub enter : Editor → Round
enter e =
    let action = dispatch (slice e.buf e.len) in
    let prompts = if is_panic action then [] else wrote prompt ∷ [] in
    record {
      events = wrote (lf ∷ []) ∷ (ran action ∷ prompts);
      editor = record e { len = 0 };
      halted = is_panic action;
    }

unfoldable pub erase : Editor → Round
erase e =
    if ltb 0 e.len
    then record {
      events = wrote (bs ∷ (32 ∷ (bs ∷ []))) ∷ [];
      editor = record e { len = e.len - 1 };
      halted = false;
    }
    else record { events = []; editor = e; halted = false }

unfoldable pub insert : ℕ → Editor → Round
insert byte e =
    if ltb e.len line_max
    then record {
      events = echo byte;
      editor = record { buf = update e.buf e.len byte; len = e.len + 1 };
      halted = false;
    }
    else record { events = []; editor = e; halted = false }

unfoldable pub round : ℕ → Editor → Round
round b e = if b == lf then enter e else if b == bs then erase e else insert b e

-- `run` over the bytes that the keyboard gives.
unfoldable pub run_from : List ℕ → Editor → Round
run_from [] e = record { events = []; editor = e; halted = false }
run_from (b ∷ bytes) e =
    let now = round b e in
    let later = run_from bytes now.editor in
    if now.halted then now else record later { events = now.events ++ later.events }

-- "ARSENAL_PROMPT_OK\n"
abbrev pub sentinel : List ℕ
sentinel =
    65
    ∷ (82
        ∷ (83
            ∷ (69
                ∷ (78
                    ∷ (65
                        ∷ (76
                            ∷ (95
                                ∷ (80
                                    ∷ (82
                                        ∷ (79
                                            ∷ (77
                                                ∷ (80
                                                    ∷ (84
                                                        ∷ (95
                                                            ∷ (79 ∷ (75 ∷ (10 ∷ [])))))))))))))))))

unfoldable pub run : List ℕ → Round
run bytes =
    let r = run_from bytes (record { buf = λ i. 0; len = 0 }) in
    record r { events = wrote sentinel ∷ (wrote prompt ∷ r.events) }
