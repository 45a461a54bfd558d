-- ===== src/Worker/Task.antt =====
-- cagent/src/cagent_api/agent_runner.py: `compose_task`, which puts the earlier turns of a session before the message.
use Prim.Native.String
use Prim.Native.String.{len, char_at}
use pj_clusterintent.Prelude.{
  ℕ, String, Option, none, some, List, [], ◌∷◌, reverse, length, last_n, str_eq, ltb, zero, suc,
  ◌/◌, ◌%◌, ◌≡◌, refl, ◌+◌, ◌-◌, ◌==◌, if◌then◌else◌,
}

abbrev pub replay_turns : ℕ
replay_turns = 8

abbrev pub replay_chars : ℕ
replay_chars = 256000

-- What was asked, and what was answered.
pub record Turn : Type 0 where
  pub asked : String
  pub answered : Option String

abbrev pub answer_of : Option String → String
answer_of none = "(no answer recorded)"
answer_of (some text) = if str_eq text "" then "(no answer recorded)" else text

infixr 5 ◌+s◌
abbrev ◌+s◌ : String → String → String
s +s t = String.◌++◌ s t

abbrev pub block_of : Turn → String
block_of t = "USER:\n" +s t.asked +s "\n\nASSISTANT:\n" +s answer_of t.answered

-- What the loop keeps, in the order of its appends, and how many blocks it drops.
pub record Kept : Type 0 where
  pub blocks : List String
  pub dropped : ℕ

unfoldable pub keep : ℕ → List Turn → Kept
keep budget [] = record { blocks = []; dropped = 0 }
keep budget (t ∷ ts) =
    if ltb budget (len (block_of t))
    then (let k = keep budget ts in record k { dropped = k.dropped + 1 })
    else (let k = keep (budget - len (block_of t)) ts in
        record k { blocks = block_of t ∷ k.blocks })

-- `"\n\n".join(…)`
unfoldable pub join_blocks : List String → String
join_blocks [] = ""
join_blocks (b ∷ []) = b
join_blocks (b ∷ c ∷ bs) = b +s "\n\n" +s join_blocks (c ∷ bs)

-- The turns that are not shown: those the budget left out, and those before the last eight.
unfoldable pub kept_of : List Turn → Kept
unfolding keep
kept_of history =
    let k = keep replay_chars (reverse (last_n replay_turns history)) in
    record k { dropped = k.dropped + (length history - replay_turns) }

-- The decimal digits of a number are the argument `digits`.
abbrev note_of : (digits : ℕ → String) → ℕ → String
note_of digits dropped =
    if dropped == 0
    then ""
    else "\n\n(" +s digits dropped +s " earlier turn(s) of this session are not shown.)"

unfoldable pub compose : (digits : ℕ → String) → String → List Turn → String
unfolding kept_of join_blocks
compose digits message [] = message
compose digits message (t ∷ ts) =
    let k = kept_of (t ∷ ts) in
    elim k.blocks [
      | [] ↦ message
      | _ ∷ _ ↦
          "=== EARLIER IN THIS SESSION ===\n"
          +s join_blocks (reverse k.blocks)
          +s note_of digits k.dropped
          +s "\n\n=== THE CURRENT MESSAGE ===\n"
          +s message
    ]

-- `str` of a number: base ten, and no number has more digits than its value and one.
unfoldable pub digits_upto : ℕ → ℕ → String
digits_upto zero n = ""
digits_upto (suc fuel) n =
    let rest = digits_upto fuel (n / 10) in
    let last = char_at "0123456789" (n % 10) in
    if ltb n 10 then String.◌∷◌ last "" else rest +s String.◌∷◌ last ""

unfoldable pub compose_task : String → List Turn → String
unfolding compose digits_upto
compose_task message history = compose (λ n. digits_upto (suc n) n) message history

test_compose_task :
    compose_task "now?" (record { asked = "up?"; answered = some "yes" } ∷ [])
    ≡ "=== EARLIER IN THIS SESSION ===\nUSER:\nup?\n\nASSISTANT:\nyes\n\n=== THE CURRENT MESSAGE ===\nnow?"
unfolding compose_task keep
test_compose_task = refl
