-- ===== src/Runner/Laws.antt =====
-- What a turn of agent_runner.py returns, what its guard lets through, and what a door is offered.
use Prim.Native.String
use Prim.Native.String.append
use pj_clusterintent.Prelude.{
  leb, ℕ, String, true, false, Option, none, some, List, [], ◌∷◌, ◌≡◌, ◌≢◌, ◌↔◌, refl, sym, ap, ◌∙◌,
  arith, inl, inr, Bool-cases, Option-cases, Among, is_some, str_eq, eq_iff, some_inj,
}
use pj_clusterintent.Prelude.Dict
use pj_clusterintent.Prelude.Text.{strip_prefix, strip_prefix_iff}
use pj_clusterintent.Prelude.Result.{err}
use pj_clusterintent.Evidence.{Backend, is_terminal}
use pj_clusterintent.Store.Model.{Request}
use pj_clusterintent.Worker.{System, TurnResult, run_one, is_queued}
use pj_clusterintent.Worker.Laws.{HasEnded, run_one_ends}
use pj_clusterintent.Prelude.Lines.{all_chars}
use pj_clusterintent.Runner.Spelled.{Spelled}
use pj_clusterintent.Runner.Squeezed.{LowersAscii, lowered_holds, patterns_start_dark}
use pj_clusterintent.Runner.Destroy.{
  Unicode, contains, lowered, first_match, destroy_patterns, refuse_destroy, guarded_run,
  DestroyRefusal,
}
use mathlib.Core.Path.{subst}
use pj_clusterintent.Runner.{
  of_agcode, of_claude, identity_of, model_max_tokens, Agent, AgcodeResult, HarnessResult, Tool,
  window_tools, run, run_agcode, run_claude, entitled,
}

of_agcode_ends : (b : Backend) (r : AgcodeResult) → is_terminal (of_agcode b r).state ≡ true
of_agcode_ends b r = ground arith

of_claude_ends : (b : Backend) (r : HarnessResult) → is_terminal (of_claude b r).state ≡ true
of_claude_ends b r = ground arith

module _ (default : ℕ) (agcode : (max_tokens : ℕ) → String → Option AgcodeResult)
    (harness : String → Option HarnessResult) (agent : Agent) where
  run_agcode_ends :
      (task : String) (result : TurnResult)
      → run_agcode default agcode agent task ≡ some result
      → is_terminal result.state ≡ true
  unfolding run_agcode
  run_agcode_ends task result h = elim (Option-cases (model_max_tokens default agent.max_tokens)) [
    | inl e ↦ ground arith
    | inr (n, e) ↦ elim (Option-cases (agcode n task)) [
      | inl f ↦ ground arith
      | inr (r, f) ↦
          let same : of_agcode (identity_of agent) r ≡ result =
            some_inj (rw (e, run_agcode, f) at h) in
          subst (λ x. is_terminal x.state ≡ true) same (of_agcode_ends (identity_of agent) r)
    ]
  ]

  run_claude_ends :
      (task : String) (result : TurnResult)
      → run_claude harness agent task ≡ some result
      → is_terminal result.state ≡ true
  unfolding run_claude
  run_claude_ends task result h = elim (Option-cases (harness task)) [
    | inl f ↦ ground arith
    | inr (r, f) ↦
        let same : of_claude (identity_of agent) r ≡ result = some_inj (rw (f, run_claude) at h) in
        subst (λ x. is_terminal x.state ≡ true) same (of_claude_ends (identity_of agent) r)
  ]

  run_ends :
      (task : String) (result : TurnResult)
      → run default agcode harness agent task ≡ some result
      → is_terminal result.state ≡ true
  unfolding run
  run_ends task result h = elim (Bool-cases (str_eq agent.harness "claude_code")) [
    | inl e ↦ run_claude_ends task result (rw (e, run) at h)
    | inr e ↦ run_agcode_ends task result (rw (e, run) at h)
  ]

  -- Whatever agcode and the harness return, and also when they raise, a queued request has ended
  -- after its turn, provided that no handler takes it out of the store meanwhile.
  pub queued_request_ends :
      (meanwhile : System → System) (now : ℕ) (rid : String) (y : System) (r : Request)
      → Dict.get rid y.store.requests ≡ some r
      → is_queued r.state ≡ true
      → ((z : System)
          → is_some (Dict.get rid z.store.requests) ≡ true
          → is_some (Dict.get rid (meanwhile z).store.requests) ≡ true)
      → HasEnded rid (run_one (run default agcode harness agent) meanwhile now rid y)
  queued_request_ends meanwhile now rid y r found queued keeps =
      run_one_ends (run default agcode harness agent) meanwhile now rid y r found queued keeps
        run_ends

contains_prefix : (p s r : String) → strip_prefix p s ≡ some r → contains p s ≡ true
unfolding contains
contains_prefix p String.[] r h = rw h refl
contains_prefix p (String.◌∷◌ c s) r h = rw h refl

contains-append : (a p b : String) → contains p (String.◌++◌ a (String.◌++◌ p b)) ≡ true
unfolding contains
contains-append String.[] p b =
    rw append.nil
      (contains_prefix p (String.◌++◌ p b) b ((strip_prefix_iff p (String.◌++◌ p b) b).1 refl))
contains-append (String.◌∷◌ c a) p b = rw append.cons (ground (arith, contains-append a p b))

first_match-none :
    (ps : List String) (text p : String)
    → first_match ps text ≡ none
    → Among p ps
    → contains p text ≡ false
unfolding first_match
first_match-none [] text p h m = elim m [ ]
first_match-none (q ∷ ps) text p h (inl e) = rw e (ground arith)
first_match-none (q ∷ ps) text p h (inr m) = first_match-none ps text p (ground arith) m

false_is_not_true : false ≢ true
false_is_not_true h = cc

-- A command that has a destroy pattern in it, its letters small or capital and one or more blanks for each
-- of its spaces, does not reach the shell, whatever stands before it and behind it. The condition is that
-- `str.lower` makes the capitals of ASCII text small wherever it stands; the spelling of the pattern is in
-- ASCII.
pub guarded_run_refuses :
    (unicode : Unicode) (tool_run : String → String) (pattern spelled a b : String)
    → LowersAscii unicode
    → Among pattern destroy_patterns
    → Spelled pattern spelled
    → all_chars (λ c. leb c 127) spelled ≡ true
    → (refusal : DestroyRefusal) × (guarded_run unicode tool_run
          (String.◌++◌ a (String.◌++◌ spelled b))
        ≡ err refusal)
unfolding guarded_run refuse_destroy
guarded_run_refuses unicode tool_run pattern spelled a b lowers m h plain =
    let command = String.◌++◌ a (String.◌++◌ spelled b) in
    let (x, y, holds) =
      lowered_holds unicode pattern spelled a b lowers (patterns_start_dark pattern m) h plain in
    elim (Option-cases (first_match destroy_patterns (lowered unicode command))) [
      | inl e ↦
          let absent = first_match-none destroy_patterns (lowered unicode command) pattern e m in
          let present = contains-append x pattern y in
          elim (false_is_not_true (sym absent ∙ ap (contains pattern) holds ∙ present)) [ ]
      | inr (q, e) ↦ (DestroyRefusal.matches q, rw (guarded_run, refuse_destroy, e) refl)
    ]

window_has_no_shell : Among Tool.guarded_run window_tools → ⊥
window_has_no_shell m = ground arith

-- A shell is offered to every role but the front.
shell_is_offered_iff : (role : String) → Among Tool.guarded_run (entitled role).0 ↔ (role ≢ "front")
unfolding entitled
shell_is_offered_iff role = elim (Bool-cases (str_eq role "front")) [
  | inl e ↦ (
    λ m f. window_has_no_shell (rw (e, entitled) at m),
    λ n. elim (n ((eq_iff role "front").0 e)) [ ],
  )
  | inr e ↦ (
    λ m f. false_is_not_true (sym e ∙ (eq_iff role "front").1 f),
    λ n. rw (e, entitled) (inr (inr (inr (inl refl)))),
  )
]
