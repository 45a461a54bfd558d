-- ===== src/Process/Written.antt =====
-- The two effects of a step on the requests of the store: none, or one request is written.
use pj_clusterintent.Prelude.{
  String, true, false, some, ◌≡◌, refl, sym, ap, ◌∙◌, ◌⊎◌, inl, inr, Bool-cases, str_eq, eq_iff,
  some_inj, Among,
}
use mathlib.Core.Path.{subst}
use pj_clusterintent.Prelude.Dict
use pj_clusterintent.Prelude.Dict.{get-put}
use pj_clusterintent.Evidence.{is_terminal}
use pj_clusterintent.Store.Model.{Request}
use pj_clusterintent.Worker.{System, is_queued}
use pj_clusterintent.Process.{Entrance, Activity, Process, request_of}
use pj_clusterintent.Process.Fair.{IsFair, IsOver}
use pj_clusterintent.Process.Handled.{is_running}
use pj_clusterintent.Process.Turns.{IsUnqueued}
use pj_clusterintent.Process.Turning.{requests, busy, queue}

module _ (d : Entrance) (p : Process) (z : System) (activity : Activity)
    (known : (rid : String)
      → request_of activity ≡ some rid
      → (x : Request) × (Dict.get rid (requests p) ≡ some x)) where
  -- The requests are what they were.
  pub same-IsFair :
      z.store.requests ≡ requests p
      → ((rid : String) → busy p d ≡ some rid → request_of activity ≡ some rid)
      → ((rid : String)
          → Among rid (queue p d)
          → Among rid z.queue
            ⊎ ((request_of activity ≡ some rid) ⊎ IsUnqueued rid z.store.requests))
      → IsFair d p z activity
  same-IsFair same frees takes = record {
    lasts = λ rid r found. (r, ap (Dict.get rid) same ∙ found);
    runs = λ rid r found run. inl (ap (Dict.get rid) (sym same) ∙ found);
    waits = λ rid r found queued. inl (ap (Dict.get rid) (sym same) ∙ found);
    frees = λ rid h. inl (frees rid h);
    takes = takes;
    known = known;
  }

  module _ (k : String) (x : Request) (put : z.store.requests ≡ Dict.put k x (requests p)) where
    pub put_lasts :
        (rid : String) (r : Request)
        → Dict.get rid (requests p) ≡ some r
        → (v : Request) × (Dict.get rid z.store.requests ≡ some v)
    put_lasts rid r found = elim (Bool-cases (str_eq k rid)) [
      | inl same ↦ (x, rw put (rw (get-put rid k x (requests p), same) refl))
      | inr other ↦ (r, rw put (rw (get-put rid k x (requests p), other) found))
    ]

    pub put_before :
        (rid : String) (r : Request)
        → Dict.get rid z.store.requests ≡ some r
        → (Dict.get rid (requests p) ≡ some r) ⊎ ((k ≡ rid) × (x ≡ r))
    put_before rid r found =
        let there : Dict.get rid (Dict.put k x (requests p)) ≡ some r = rw (sym put) found in
        elim (Bool-cases (str_eq k rid)) [
          | inl same ↦
              inr
                ((eq_iff k rid).0 same, some_inj (rw (get-put rid k x (requests p), same) at there))
          | inr other ↦ inl (rw (get-put rid k x (requests p), other) at there)
        ]

    pub put-IsOver : is_terminal x.state ≡ true → IsOver k z.store.requests
    put-IsOver over r found = elim (put_before k r found) [
      | inr (_, same) ↦ subst (λ (v : Request). is_terminal v.state ≡ true) same over
      | inl _ ↦
          let there : Dict.get k (Dict.put k x (requests p)) ≡ some r = rw (sym put) found in
          subst (λ (v : Request). is_terminal v.state ≡ true)
            (some_inj (rw (get-put k k x (requests p), (eq_iff k k).1 refl) at there)) over
    ]

    -- A request that does not wait is written.
    pub put-IsFair :
        is_queued x.state ≡ false
        → (is_running x.state ≡ true → request_of activity ≡ some k)
        → z.queue ≡ queue p d
        → ((rid : String)
            → busy p d ≡ some rid
            → (request_of activity ≡ some rid) ⊎ IsOver rid z.store.requests)
        → IsFair d p z activity
    put-IsFair unqueued run same frees = record {
      lasts = put_lasts;
      runs = λ rid r found running. elim (put_before rid r found) [
        | inl before ↦ inl before
        | inr (k_is, x_is) ↦ inr (
            run (subst (λ (v : Request). is_running v.state ≡ true) (sym x_is) running)
            ∙ ap some k_is)
      ];
      waits = λ rid r found queued. elim (put_before rid r found) [
        | inl before ↦ inl before
        | inr (k_is, x_is) ↦ cc (ap (λ (v : Request). is_queued v.state) x_is, unqueued, queued)
      ];
      frees = frees;
      takes = λ rid m. inl (rw same m);
      known = known;
    }
