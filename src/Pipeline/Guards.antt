-- ===== src/Pipeline/Guards.antt =====
-- What guards an execution and the sequence numbers of the market pipeline.
use crypto_trading_system.Base.{
  ℕ, String, ◌≡◌, subst, refl, ap, ◌∙◌, ◌≤◌, ◌<◌, Bool, true, false, List, [], ◌∷◌, ◌++◌, arith,
  inl, inr, ◌⊎◌, leb, Bool-cases, ◌&&◌,
}
use crypto_trading_system.Models.{Result, ok, raise}
use crypto_trading_system.Pipeline.State.{is_ready, last_sequence, ignored}
use crypto_trading_system.Pipeline.Steps.{
  PipelineEvent, MarketPipeline, Answers, Outcome, Run, PipelineError, prepare, observe_market,
  is_trading_ready, ◌>>◌, return,
}
use crypto_trading_system.Pipeline.Market.{
  trade, store, finish_event, follow_up, run_event, answer, give_up, process_market_event,
}
use crypto_trading_system.Pipeline.Staged.{
  bind_cases, prepare_keeps, prepare_closed, Executes, trade_keeps, trade-Executes, store_marks,
}

and_left : (a b : Bool) → (a && b) ≡ true → b ≡ true
and_left a b h = ground arith

module _ {S R X : Type 0} where
  -- What holds of the executions that were asked for, from `before` to the state of `p`.
  abbrev Guarded : (R → Bool) → PipelineEvent → Answers S R X → List ℕ → MarketPipeline → Type 0
  Guarded approved event a before p =
      (p.executed ≡ before)
      ⊎ (Executes approved event.sequence a before p.executed
          × (is_ready event.symbol p.tracker.readiness ≡ true))

  still-Guarded :
      (approved : R → Bool) (event : PipelineEvent) (a : Answers S R X) (before : List ℕ)
      (p q : MarketPipeline)
      → q.executed ≡ p.executed
      → q.tracker.readiness ≡ p.tracker.readiness
      → Guarded approved event a before p
      → Guarded approved event a before q
  still-Guarded approved event a before p q e f (inl same) = inl (e ∙ same)
  still-Guarded approved event a before p q e f (inr ((asked, judged), able)) =
      inr ((e ∙ asked, judged), ap (is_ready event.symbol) f ∙ able)

  trade-Guarded :
      (approved : R → Bool) (event : PipelineEvent) (a : Answers S R X) (r : Run)
      → Guarded approved event a r.pipeline.executed (trade approved event a r).0.pipeline
  unfolding is_trading_ready
  trade-Guarded approved event a r = elim (trade-Executes approved event a r) [
    | inl same ↦ inl same
    | inr (done, able) ↦ inr (
      done,
      ap (λ t. is_ready event.symbol t.readiness) (trade_keeps approved event a r)
          ∙ and_left _ _ able,
    )
  ]

  store-Guarded :
      (approved : R → Bool) (event : PipelineEvent) (a : Answers S R X) (before : List ℕ) (r : Run)
      → Guarded approved event a before r.pipeline
      → Guarded approved event a before (store event a r).0.pipeline
  store-Guarded approved event a before r g =
      let (same, kept, _) = store_marks event a r in
      still-Guarded approved event a before r.pipeline (store event a r).0.pipeline same kept g

  finish_event-Guarded :
      (approved : R → Bool) (event : PipelineEvent) (a : Answers S R X) (r : Run)
      → Guarded approved event a r.pipeline.executed (finish_event approved event a r).0.pipeline
  unfolding finish_event
  finish_event-Guarded approved event a r =
      let g = trade-Guarded approved event a r in
      let r2 = (trade approved event a r).0 in
      let g2 = store-Guarded approved event a r.pipeline.executed r2 g in
      let P = λ (o : Run × Result PipelineError (Outcome S R X)).
        Guarded approved event a r.pipeline.executed o.0.pipeline in
      bind_cases P (trade approved event a) (λ o. store event a >> return o) r (λ e h. g)
        (λ o h. bind_cases P (store event a) (λ _. return o) r2 (λ e k. g2) (λ u k. g2))

  follow-Guarded :
      (approved : R → Bool) (event : PipelineEvent) (a : Answers S R X) (names : List String)
      (has_regime : Bool) (r : Run)
      → Guarded approved event a r.pipeline.executed
          (follow_up approved event a names has_regime r).0.pipeline
  unfolding follow_up observe_market
  follow-Guarded approved event a names has_regime r = finish_event-Guarded approved event a _

  run_event-Guarded :
      (approved : R → Bool) (event : PipelineEvent) (a : Answers S R X) (r : Run)
      → let p = (run_event approved event a r).0.pipeline in
        (p.executed ≡ r.pipeline.executed)
        ⊎ (Guarded approved event a r.pipeline.executed p × (event.close_time ≤ a.now))
  unfolding run_event
  run_event-Guarded approved event a r =
      let same = ap (λ p. p.executed) (prepare_keeps event a r) in
      bind_cases
        (λ o.
          (o.0.pipeline.executed ≡ r.pipeline.executed)
          ⊎ (Guarded approved event a r.pipeline.executed o.0.pipeline
              × (event.close_time ≤ a.now)))
        (prepare event a) (λ o. follow_up approved event a o.0 o.1) r (λ e h. inl same)
        (λ o h. inr (
          subst
              (λ before.
                Guarded approved event a before
                  (follow_up approved event a o.0 o.1 (prepare event a r).0).0.pipeline)
              same (follow-Guarded approved event a o.0 o.1 (prepare event a r).0),
          prepare_closed event a r o h,
        ))

  answer_keeps :
      (event : PipelineEvent) (a : Answers S R X) (o : Run × Result PipelineError (Outcome S R X))
      → ((answer event a o).0.executed ≡ o.0.pipeline.executed)
        × ((answer event a o).0.tracker.readiness ≡ o.0.pipeline.tracker.readiness)
  unfolding answer give_up
  answer_keeps event a (r, ok x) = (refl, refl)
  answer_keeps event a (r, raise e) = ground arith

  -- The guard of an execution, in full.
  abbrev pub IsGuarded :
      (R → Bool) → PipelineEvent → Answers S R X → MarketPipeline → MarketPipeline → Type 0
  IsGuarded approved event a p p' =
      (p'.executed ≡ p.executed ++ (event.sequence ∷ []))
      × (last_sequence event.symbol p.tracker < event.sequence)
      × (event.close_time ≤ a.now)
      × (is_ready event.symbol p'.tracker.readiness ≡ true)
      × ((d : R) × ((a.judged ≡ ok d) × (approved d ≡ true)))

  answer-IsGuarded :
      (approved : R → Bool) (event : PipelineEvent) (a : Answers S R X) (p : MarketPipeline)
      (o : Run × Result PipelineError (Outcome S R X))
      → leb event.sequence (last_sequence event.symbol p.tracker) ≡ false
      → ((o.0.pipeline.executed ≡ p.executed)
          ⊎ (Guarded approved event a p.executed o.0.pipeline × (event.close_time ≤ a.now)))
      → ((answer event a o).0.executed ≡ p.executed)
        ⊎ IsGuarded approved event a p (answer event a o).0
  answer-IsGuarded approved event a p o newer (inl same) = inl ((answer_keeps event a o).0 ∙ same)
  answer-IsGuarded approved event a p o newer (inr (inl same, closed)) =
      inl ((answer_keeps event a o).0 ∙ same)
  answer-IsGuarded approved event a p o newer (inr (inr ((asked, judged), able), closed)) =
      let (same, kept) = answer_keeps event a o in
      inr (same ∙ asked, ground arith, closed, ap (is_ready event.symbol) kept ∙ able, judged)

  pub process_newer :
      (approved : R → Bool) (event : PipelineEvent) (a : Answers S R X) (p : MarketPipeline)
      → leb event.sequence (last_sequence event.symbol p.tracker) ≡ false
      → process_market_event approved event a p
        ≡ answer event a (run_event approved event a (record { pipeline = p; stages = [] }))
  unfolding process_market_event
  process_newer approved event a p h = rw h refl

  pub process_older :
      (approved : R → Bool) (event : PipelineEvent) (a : Answers S R X) (p : MarketPipeline)
      → leb event.sequence (last_sequence event.symbol p.tracker) ≡ true
      → ((process_market_event approved event a p).0 ≡ p)
        × ((process_market_event approved event a p).1.status ≡ ignored)
  unfolding process_market_event
  process_older approved event a p h = rw h (refl, refl)

  -- An event makes the pipeline ask for at most one execution, that of its own sequence; and it
  -- asks (`IsGuarded`) only if the sequence is newer than the last one processed of the symbol, the
  -- candle is closed, the symbol is ready by the readiness that the event leaves, and the risk
  -- engine answered with a decision that approves.
  pub process_market_event-IsGuarded :
      (approved : R → Bool) (event : PipelineEvent) (a : Answers S R X) (p : MarketPipeline)
      → let p' = (process_market_event approved event a p).0 in
        (p'.executed ≡ p.executed) ⊎ IsGuarded approved event a p p'
  process_market_event-IsGuarded approved event a p =
      elim (Bool-cases (leb event.sequence (last_sequence event.symbol p.tracker))) [
        | inl older ↦ inl (ap (λ q. q.executed) (process_older approved event a p older).0)
        | inr newer ↦ rw (process_newer approved event a p newer) (
            answer-IsGuarded approved event a p _ newer
              (run_event-Guarded approved event a (record { pipeline = p; stages = [] })))
      ]
