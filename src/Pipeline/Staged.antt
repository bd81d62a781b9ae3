-- ===== src/Pipeline/Staged.antt =====
-- The steps of an event: what each leaves as it was, and what it needs to come to its end.
use crypto_trading_system.Base.{
  ℕ, String, ◌≡◌, refl, ◌≤◌, Bool, true, none, some, List, [], ◌∷◌, ◌++◌, arith, inl, inr, ◌⊎◌,
  Bool-cases,
}
use crypto_trading_system.Base.Dict.{insert}
use crypto_trading_system.Models.{Result, ok, raise, Result-cases}
use crypto_trading_system.Pipeline.State.{mark_processed}
use crypto_trading_system.Pipeline.Steps.{
  PipelineEvent, Answers, Run, PipelineError, PipelineStep, prepare, validate_closed_event,
  is_trading_ready, ◌>>=◌,
}
use crypto_trading_system.Pipeline.Market.{settle, ask_strategy, trade, store}

-- What holds of a step and then another: the first has raised, or the second has run on its answer.
pub bind_cases :
    {A B : Type 0} (P : Run × Result PipelineError B → Type 0) (m : PipelineStep A)
    (f : A → PipelineStep B) (r : Run)
    → ((e : PipelineError) → (m r).1 ≡ raise e → P ((m r).0, raise e))
    → ((a : A) → (m r).1 ≡ ok a → P (f a (m r).0))
    → P ((m >>= f) r)
bind_cases P m f r on_raise on_ok = elim (Result-cases (m r).1) [
  | inl (e, h) ↦ rw (h, ◌>>=◌) (on_raise e h)
  | inr (a, h) ↦ rw (h, ◌>>=◌) (on_ok a h)
]

module _ {S R X : Type 0} where
  pub prepare_keeps :
      (event : PipelineEvent) (a : Answers S R X) (r : Run)
      → (prepare event a r).0.pipeline ≡ r.pipeline
  unfolding prepare
  prepare_keeps event a r = ground arith

  pub prepare_closed :
      (event : PipelineEvent) (a : Answers S R X) (r : Run) (x : List String × Bool)
      → (prepare event a r).1 ≡ ok x
      → event.close_time ≤ a.now
  unfolding prepare validate_closed_event
  prepare_closed event a r x h = ground arith

  -- An execution that has been asked for, and what the risk engine decided on it.
  abbrev pub Executes : (R → Bool) → ℕ → Answers S R X → List ℕ → List ℕ → Type 0
  Executes approved sequence a before after =
      (after ≡ before ++ (sequence ∷ [])) × ((d : R) × ((a.judged ≡ ok d) × (approved d ≡ true)))

  settle_keeps :
      (approved : R → Bool) (event : PipelineEvent) (a : Answers S R X) (s : S) (r : Run)
      → (settle approved event a s r).0.pipeline.tracker ≡ r.pipeline.tracker
  unfolding settle
  settle_keeps approved event a s r = ground arith

  settle-Executes :
      (approved : R → Bool) (event : PipelineEvent) (a : Answers S R X) (s : S) (r : Run)
      → let after = (settle approved event a s r).0.pipeline.executed in
        (after ≡ r.pipeline.executed) ⊎ Executes approved event.sequence a r.pipeline.executed after
  unfolding settle
  settle-Executes approved event a s r = elim (Result-cases a.judged) [
    | inl (e, h) ↦ inl (ground arith)
    | inr (d, h) ↦ elim (Bool-cases (approved d)) [
      | inl good ↦ inr (ground arith, (d, (h, good)))
      | inr bad ↦ inl (ground arith)
    ]
  ]

  ask_keeps :
      (approved : R → Bool) (event : PipelineEvent) (a : Answers S R X) (r : Run)
      → (ask_strategy approved event a r).0.pipeline.tracker ≡ r.pipeline.tracker
  unfolding ask_strategy
  ask_keeps approved event a r = elim (Result-cases a.evaluated) [
    | inl (e, h) ↦ rw (h, ask_strategy) refl
    | inr (none, h) ↦ rw (h, ask_strategy) refl
    | inr (some s, h) ↦ rw (h, ask_strategy) (settle_keeps approved event a s _)
  ]

  ask-Executes :
      (approved : R → Bool) (event : PipelineEvent) (a : Answers S R X) (r : Run)
      → let after = (ask_strategy approved event a r).0.pipeline.executed in
        (after ≡ r.pipeline.executed) ⊎ Executes approved event.sequence a r.pipeline.executed after
  unfolding ask_strategy
  ask-Executes approved event a r = elim (Result-cases a.evaluated) [
    | inl (e, h) ↦ inl (rw (h, ask_strategy) refl)
    | inr (none, h) ↦ inl (rw (h, ask_strategy) refl)
    | inr (some s, h) ↦ rw (h, ask_strategy) (settle-Executes approved event a s _)
  ]

  pub trade_keeps :
      (approved : R → Bool) (event : PipelineEvent) (a : Answers S R X) (r : Run)
      → (trade approved event a r).0.pipeline.tracker ≡ r.pipeline.tracker
  unfolding trade
  trade_keeps approved event a r = ground (arith, ask_keeps approved event a r)

  pub trade-Executes :
      (approved : R → Bool) (event : PipelineEvent) (a : Answers S R X) (r : Run)
      → let after = (trade approved event a r).0.pipeline.executed in
        (after ≡ r.pipeline.executed)
        ⊎ (Executes approved event.sequence a r.pipeline.executed after
            × (is_trading_ready event.symbol r.pipeline ≡ true))
  unfolding trade
  trade-Executes approved event a r = elim (Bool-cases (is_trading_ready event.symbol r.pipeline)) [
    | inl able ↦ elim (ask-Executes approved event a r) [
      | inl same ↦ inl (rw (able, trade) same)
      | inr done ↦ inr (rw (able, trade) done, able)
    ]
    | inr unable ↦ inl (rw (unable, trade) refl)
  ]

  pub store_marks :
      (event : PipelineEvent) (a : Answers S R X) (r : Run)
      → let r' = (store event a r).0 in
        (r'.pipeline.executed ≡ r.pipeline.executed)
        × (r'.pipeline.tracker.readiness ≡ r.pipeline.tracker.readiness)
        × (((store event a r).1 ≡ ok tt)
            → r'.pipeline.tracker.last_sequences
              ≡ insert event.symbol event.sequence r.pipeline.tracker.last_sequences)
  unfolding store mark_processed
  store_marks event a r = ground arith

  pub store_raises :
      (event : PipelineEvent) (a : Answers S R X) (r : Run) (e : PipelineError)
      → (store event a r).1 ≡ raise e
      → (store event a r).0.pipeline.tracker ≡ r.pipeline.tracker
  unfolding store
  store_raises event a r e h = ground arith
