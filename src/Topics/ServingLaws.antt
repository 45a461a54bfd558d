-- ===== src/Topics/ServingLaws.antt =====
-- The order of one serving: the front's answer, then the handoffs.
use mathlib.Core.List.{append_assoc}
use pj_clusterintent.Prelude.{
  true, false, Bool, String, ◌⊎◌, All, All-append, none, some, List, [], ◌∷◌, ◌++◌, ◌≡◌, refl, inl,
  inr, Option-cases,
}
use pj_clusterintent.Prelude.Result.{Result, ok, err}
use pj_clusterintent.Topics.{TopicError, run, meaning, plain_meta, handle_handoffs}
use pj_clusterintent.Topics.Serving.{
  FrontFiles, FrontReply, Resolution, resolved, repair, RoleRun, Effect, wrote_chatlog, ran_front,
  journaled, posted, handed_off, Served, Context, journal_reply, answer_with, answer_or_raise,
  resolve, after_front, serve, no_files, reported,
}

-- An effect that nobody outside sees.
unfoldable pub IsQuiet : Effect → Type 0
IsQuiet (wrote_chatlog chatlog) = Unit
IsQuiet (ran_front prompt) = Unit
IsQuiet (journaled marked blocks failure) = Unit
IsQuiet (posted content) = ⊥
IsQuiet (handed_off files) = ⊥

journal_reply-IsQuiet :
    (journal : Bool) (reply : FrontReply) → All IsQuiet (journal_reply journal reply)
unfolding IsQuiet
journal_reply-IsQuiet true reply = (tt, tt)
journal_reply-IsQuiet false reply = tt

abbrev first_run : Context → RoleRun
first_run context = context.run_role context.prompt no_files

-- What the runs of the front come to, and the files that the last of them left: one run, or a second one
-- where the reply of the first has to be repaired.
pub data IsFronted (context : Context) : Result TopicError FrontReply → FrontFiles → Type 0 where
  failed :
      (e : TopicError)
      → run "front" (first_run context).output (first_run context).code_text ≡ err e
      → IsFronted context (err e) (first_run context).files
  at_once :
      (output : String) (reply : FrontReply)
      → run "front" (first_run context).output (first_run context).code_text ≡ ok output
      → context.resolve_reply output ≡ resolved reply
      → IsFronted context (ok reply) (first_run context).files
  repaired :
      (output again : String) (finish : Result TopicError String → Result TopicError FrontReply)
      (second : RoleRun)
      → run "front" (first_run context).output (first_run context).code_text ≡ ok output
      → context.resolve_reply output ≡ repair again finish
      → second ≡ context.run_role again (first_run context).files
      → IsFronted context (finish (run "front" second.output second.code_text)) second.files

-- The post of a reply: the answer, and what it means.
abbrev post_of : Context → FrontReply → String
post_of context reply =
    context.compose reply.answer
      (meaning context.intents context.requester context.processed_up_to reply.split)

-- Nothing is posted: the front failed, or the post did.
abbrev pub IsRaised : Context → Served → Type 0
IsRaised context served =
    (e : TopicError) × (outcome : Result TopicError FrontReply) × (files : FrontFiles) × IsFronted
      context outcome files
    × (served.result ≡ err e)
    × All IsQuiet served.effects
    × ((outcome ≡ err e)
        ⊎ ((reply : FrontReply) × (outcome ≡ ok reply)
            × (context.post (post_of context reply) ≡ some e)))

abbrev pub IsServed : Context → Served → Type 0
IsServed context served =
    (reply : FrontReply) × (files : FrontFiles) × (before : List Effect) × IsFronted context
      (ok reply) files
    × (context.post (post_of context reply) ≡ none)
    × (served.effects ≡ before ++ posted (post_of context reply) ∷ handed_off files ∷ [])
    × All IsQuiet before
    × (served.result
        ≡ reported (record plain_meta { intent = some context.intents.report })
            (handle_handoffs context.register_change context.run_operator files.requested_change
              files.required_info))

module _ (context : Context) where
  answer_with_lem :
      (reply : FrontReply) (files : FrontFiles) (before : List Effect)
      → IsFronted context (ok reply) files
      → All IsQuiet before
      → IsRaised context (answer_with context reply files before)
        ⊎ IsServed context (answer_with context reply files before)
  answer_with_lem reply files before fronted quiet =
      let shown = before ++ journal_reply context.has_journal reply in
      let all_quiet =
        All-append IsQuiet before (journal_reply context.has_journal reply) quiet
          (journal_reply-IsQuiet context.has_journal reply) in
      elim (Option-cases (context.post (post_of context reply))) [
        | inl through ↦ inr (
          reply,
          files,
          shown,
          fronted,
          through,
          rw through
              (append_assoc shown (posted (post_of context reply) ∷ []) (handed_off files ∷ [])),
          all_quiet,
          rw through refl,
        )
        | inr (e, broke) ↦ inl (
          e,
          ok reply,
          files,
          fronted,
          rw broke refl,
          rw broke all_quiet,
          inr (reply, refl, broke),
        )
      ]

  answer_or_raise_lem :
      (outcome : Result TopicError FrontReply) (files : FrontFiles) (before : List Effect)
      → IsFronted context outcome files
      → All IsQuiet before
      → IsRaised context (answer_or_raise context outcome files before)
        ⊎ IsServed context (answer_or_raise context outcome files before)
  answer_or_raise_lem (ok reply) files before fronted quiet =
      answer_with_lem reply files before fronted quiet
  answer_or_raise_lem (err e) files before fronted quiet =
      inl (e, err e, files, fronted, refl, quiet, inl refl)

  resolve_lem :
      (output : String) (resolution : Resolution) (before : List Effect)
      → run "front" (first_run context).output (first_run context).code_text ≡ ok output
      → context.resolve_reply output ≡ resolution
      → All IsQuiet before
      → IsRaised context (resolve context resolution (first_run context).files before)
        ⊎ IsServed context (resolve context resolution (first_run context).files before)
  unfolding IsQuiet
  resolve_lem output (resolved reply) before ran resolves quiet =
      answer_with_lem reply (first_run context).files before
        (IsFronted.at_once output reply ran resolves) quiet
  resolve_lem output (repair again finish) before ran resolves quiet =
      let second = context.run_role again (first_run context).files in
      answer_or_raise_lem (finish (run "front" second.output second.code_text)) second.files
        (before ++ ran_front again ∷ [])
        (IsFronted.repaired output again finish second ran resolves refl)
        (All-append IsQuiet before (ran_front again ∷ []) quiet (tt, tt))

  after_front_lem :
      (output : Result TopicError String) (before : List Effect)
      → run "front" (first_run context).output (first_run context).code_text ≡ output
      → All IsQuiet before
      → IsRaised context (after_front context output (first_run context).files before)
        ⊎ IsServed context (after_front context output (first_run context).files before)
  after_front_lem (ok output) before ran quiet =
      resolve_lem output (context.resolve_reply output) before ran refl quiet
  after_front_lem (err e) before ran quiet =
      inl (e, err e, (first_run context).files, IsFronted.failed e ran, refl, quiet, inl refl)

-- One serving either raises with nothing posted and nothing handed off, and then the front has failed, also
-- when it was asked again where its reply had to be repaired, or the post has; or it posts one text, the
-- answer of the front's last run with what it means, and then hands off, once, the files which that run
-- left. What it posted and handed off stands then, whether the handoffs raise or not, and their result is
-- the serving's.
pub serve_answers_first :
    (context : Context) → IsRaised context (serve context) ⊎ IsServed context (serve context)
unfolding serve IsQuiet
serve_answers_first context =
    after_front_lem context (run "front" (first_run context).output (first_run context).code_text) _
      refl (tt, (tt, tt))
