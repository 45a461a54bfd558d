-- ===== src/Nctl/Accounting.antt =====
-- What `validate` accepts, said without its loop.
use Prim.Native.Char.{Char, code}
use Prim.Native.String
use mathlib.Core.Path.{subst}
use Prim.Native.String.append
use text.Mathlib.TextEquality.{Char-path}
use pj_clusterintent.Prelude.{
  ℕ, suc, ◌≤◌, ◌-◌, String, Bool, true, false, Option, none, some, List, [], ◌∷◌, ◌++◌, any, str_eq,
  eq_iff, ltb, ◌==◌, ◌≡◌, refl, sym, ap, ◌∙◌, arith, Bool-cases, Option-cases, inl, inr, ◌⊎◌, Among,
  some_inj,
}
use pj_clusterintent.Prelude.Text.{strip_prefix}
use pj_clusterintent.Prelude.Result.{ok, succeeds, ok_inj}
use pj_clusterintent.Nctl.Shlex.{split}
use pj_clusterintent.Nctl.Surface.{
  Subcommand, nctl_subcommands, nctl_switches, nctl_options, partition, behind, find_subcommand,
  is_switch, is_option, account, account_all, validate_parts, validate,
}

-- The tokens behind a subcommand that may still take so many positional arguments.
pub data Accounted : ℕ → List String → Type 0 where
  done : {room : ℕ} → Accounted room []
  switch :
      {room : ℕ} {name : String} {rest : List String}
      → Among name nctl_switches
      → Accounted room rest
      → Accounted room (name ∷ rest)
  option_with_value :
      {room : ℕ} {name : String} (value : String) {rest : List String}
      → Among name nctl_options
      → Accounted room rest
      → Accounted room (String.◌++◌ name (String.◌∷◌ "=" value) ∷ rest)
  option_then_value :
      {room : ℕ} {name value : String} {rest : List String}
      → Among name nctl_options
      → Accounted room rest
      → Accounted room (name ∷ value ∷ rest)
  option_at_end : {room : ℕ} {name : String} → Among name nctl_options → Accounted room (name ∷ [])
  positional :
      {room : ℕ} {word : String} {rest : List String}
      → strip_prefix "-" word ≡ none
      → Accounted room rest
      → Accounted (suc room) (word ∷ rest)

-- What stands behind one of the subcommands, all of it accounted for.
pub data Permitted : List String → Type 0 where
  permitted :
      (c : Subcommand) {rest : List String}
      → Among c nctl_subcommands
      → Accounted c.extra rest
      → Permitted (c.words ++ rest)

abbrev pub whole : String × Option String → String
whole (n, none) = n
whole (n, some v) = String.◌++◌ n (String.◌∷◌ "=" v)

whole-cons :
    (c : Char) (p : String × Option String) → whole (String.◌∷◌ c p.0, p.1) ≡ String.◌∷◌ c (whole p)
whole-cons c (n, none) = refl
whole-cons c (n, some v) = append.cons c n (String.◌∷◌ "=" v)

-- What `partition` found is the text, put together again.
pub whole-partition : (s : String) → whole (partition s) ≡ s
unfolding partition
whole-partition String.[] = refl
whole-partition (String.◌∷◌ c s) = elim (Bool-cases (code c == 61)) [
  | inl e ↦ rw e (rw (Char-path c "=" (ground arith), append.nil) refl)
  | inr e ↦ rw e (whole-cons c (partition s) ∙ ap (λ v. String.◌∷◌ c v) (whole-partition s))
]

behind_sound : (ws ps rest : List String) → behind ws ps ≡ some rest → ps ≡ ws ++ rest
unfolding behind
behind_sound [] ps rest h = some_inj h
behind_sound (w ∷ ws) [] rest h = cc
behind_sound (w ∷ ws) (p ∷ ps) rest h = ground (arith, eq_iff p w, behind_sound ws ps rest)

find_sound :
    (cs : List Subcommand) (ps rest : List String) (c : Subcommand)
    → find_subcommand cs ps ≡ some (c, rest)
    → Among c cs × (ps ≡ c.words ++ rest)
unfolding find_subcommand
find_sound [] ps rest c h = cc
find_sound (d ∷ cs) ps rest c h = elim (Option-cases (behind d.words ps)) [
  | inl e ↦ let i = find_sound cs ps rest c (rw (e, find_subcommand) at h) in (inr i.0, i.1)
  | inr (r, e) ↦
      let q : (d, r) ≡ (c, rest) = some_inj (rw (e, find_subcommand) at h) in
      (inl (sym (ap (λ x. x.0) q)), behind_sound d.words ps r e ∙ ap (λ x. x.0.words ++ x.1) q)
]

pub any-Among : (s : String) (ns : List String) → any (str_eq s) ns ≡ true → Among s ns
any-Among s [] h = cc
any-Among s (n ∷ ns) h = ground (arith, eq_iff s n, any-Among s ns)

-- The ways in which one token is accounted for.
abbrev Way : Subcommand → ℕ → String → ℕ × Bool → Type 0
Way c n token m =
    (Among token nctl_switches × (m ≡ (n, false)))
    ⊎ (((name : String) × (v : String) × Among name nctl_options
          × (token ≡ String.◌++◌ name (String.◌∷◌ "=" v))
          × (m ≡ (n, false)))
        ⊎ ((Among token nctl_options × (m ≡ (n, true)))
            ⊎ ((strip_prefix "-" token ≡ none) × (suc n ≤ c.extra) × (m ≡ (suc n, false)))))

-- A token that is neither a switch nor an option.
account-Way_word :
    (c : Subcommand) (n : ℕ) (token : String) (p : String × Option String) (m : ℕ × Bool)
    → is_switch p ≡ false
    → is_option p ≡ false
    → account c n token p ≡ ok m
    → (strip_prefix "-" token ≡ none) × (suc n ≤ c.extra) × (m ≡ (suc n, false))
unfolding account
account-Way_word c n token p m s q h = elim (Option-cases (strip_prefix "-" token)) [
  | inr (r, e) ↦ cc (rw (s, q, e, account) at h)
  | inl e ↦ elim (Bool-cases (ltb c.extra (suc n))) [
    | inl l ↦ cc (rw (s, q, e, l, account) at h)
    | inr l ↦ (e, ground arith, sym (ok_inj (rw (s, q, e, l, account) at h)))
  ]
]

switch_false : (name v : String) → is_switch (name, some v) ≡ false
switch_false name v = ground arith

account-Way :
    (c : Subcommand) (n : ℕ) (token : String) (p : String × Option String) (m : ℕ × Bool)
    → whole p ≡ token
    → account c n token p ≡ ok m
    → Way c n token m
unfolding account
account-Way c n token (name, none) m w h = elim (Bool-cases (is_switch (name, none))) [
  | inl s ↦ inl (
    subst (λ t. Among t nctl_switches) w (any-Among name nctl_switches (ground arith)),
    sym (ok_inj (rw (s, account) at h)),
  )
  | inr s ↦ elim (Bool-cases (is_option (name, none))) [
    | inl q ↦ inr (
        inr (
          inl (
            subst (λ t. Among t nctl_options) w (any-Among name nctl_options q),
            sym (ok_inj (rw (s, q, account) at h)),
          )))
    | inr q ↦ inr (inr (inr (account-Way_word c n token (name, none) m s q h)))
  ]
]
account-Way c n token (name, some v) m w h = elim (Bool-cases (is_option (name, some v))) [
  | inl q ↦ inr (
      inl (
        name,
        v,
        any-Among name nctl_options q,
        sym w,
        sym (ok_inj (rw (switch_false name v, q, account) at h)),
      ))
  | inr q ↦ inr (inr (inr (account-Way_word c n token (name, some v) m (switch_false name v) q h)))
]

account_all_sound :
    (c : Subcommand) (n : ℕ) (rest : List String) (u : Unit {0})
    → account_all c n false rest ≡ ok u
    → Accounted (c.extra - n) rest
unfolding account_all
account_all_sound c n [] u h = Accounted.done
account_all_sound c n (token ∷ []) u h =
    let q = succeeds _ (account c n token (partition token)) h in
    elim (account-Way c n token (partition token) q.0 (whole-partition token) q.1) [
      | inl (s, e) ↦ Accounted.switch s Accounted.done
      | inr (inl (name, v, o, t, e)) ↦ rw t (Accounted.option_with_value v o Accounted.done)
      | inr (inr (inl (o, e))) ↦ Accounted.option_at_end o
      | inr (inr (inr (d, l, e))) ↦
          subst (λ k. Accounted k (token ∷ [])) (omega arith)
            (Accounted.positional {room = c.extra - suc n} d Accounted.done)
    ]
account_all_sound c n (token ∷ next ∷ rest) u h =
    let q = succeeds _ (account c n token (partition token)) h in
    elim (account-Way c n token (partition token) q.0 (whole-partition token) q.1) [
      | inl (s, e) ↦ Accounted.switch s (
          account_all_sound c n (next ∷ rest) u
            (subst (λ m. account_all c m.0 m.1 (next ∷ rest) ≡ ok u) e q.2))
      | inr (inl (name, v, o, t, e)) ↦ rw t (
          Accounted.option_with_value v o (
            account_all_sound c n (next ∷ rest) u
              (subst (λ m. account_all c m.0 m.1 (next ∷ rest) ≡ ok u) e q.2)))
      | inr (inr (inl (o, e))) ↦ Accounted.option_then_value o (
          account_all_sound c n rest u
            (subst (λ m. account_all c m.0 m.1 (next ∷ rest) ≡ ok u) e q.2))
      | inr (inr (inr (d, l, e))) ↦
          subst (λ k. Accounted k (token ∷ next ∷ rest)) (omega arith)
            (Accounted.positional {room = c.extra - suc n} d (
              account_all_sound c (suc n) (next ∷ rest) u
                (subst (λ m. account_all c m.0 m.1 (next ∷ rest) ≡ ok u) e q.2)))
    ]

-- Whatever text is given, what `validate` accepts is the words of the text, and they are permitted.
pub validate_sound :
    (args : String) (parts : List String)
    → validate args ≡ ok parts
    → (split args ≡ some parts) × Permitted parts
unfolding validate validate_parts
validate_sound args parts h = elim (Option-cases (split args)) [
  | inl e ↦ cc (rw (e, validate) at h)
  | inr (ps, e) ↦ elim (Option-cases (find_subcommand nctl_subcommands ps)) [
    | inl f ↦ cc (rw (e, validate, f, validate_parts) at h)
    | inr ((c, rest), f) ↦
        let q =
          succeeds _ (account_all c 0 false rest) (rw (e, validate, f, validate_parts) at h) in
        let r = find_sound nctl_subcommands ps rest c f in
        let same : ps ≡ parts = ok_inj q.2 in
        (
          e ∙ ap some same,
          subst Permitted (sym r.1 ∙ same) (
              Permitted.permitted c r.0
                (subst (λ k. Accounted k rest) (omega arith) (account_all_sound c 0 rest q.0 q.1))),
        )
  ]
]
