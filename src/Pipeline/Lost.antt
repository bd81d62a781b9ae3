-- ===== src/Pipeline/Lost.antt =====
-- The sequence numbers that an event leaves, in memory and in the saved checkpoints, and what a restart
-- makes of an event that failed.
use crypto_trading_system.Base.{
  ℕ, String, ◌≡◌, ◌=ₛ◌, eq_iff, eq_refl, subst, refl, sym, ap, ◌∙◌, Bool, true, false, none, some,
  [], ◌∷◌, arith, if◌then◌else◌, leb, Bool-cases, inl, inr,
}
use crypto_trading_system.Base.Dict.{Dict, lookup, insert, lookup-insert, KeysDistinct}
use crypto_trading_system.Models.{Result, ok, raise}
use crypto_trading_system.Pipeline.State.{
  PipelineStateTracker, last_sequence, mark_processed, PipelineStatus, processed, ignored,
  status_warmup, failed,
}
use crypto_trading_system.Pipeline.Steps.{
  PipelineEvent, MarketPipeline, Answers, Outcome, Run, PipelineError, prepare, observe_market,
  ◌>>◌, return, restore_checkpoint,
}
use crypto_trading_system.Pipeline.Market.{
  trade, store, finish_event, follow_up, run_event, answer, give_up, process_market_event,
}
use crypto_trading_system.Pipeline.Staged.{
  bind_cases, prepare_keeps, trade_keeps, store_marks, store_raises,
}
use crypto_trading_system.Pipeline.Guards.{process_newer, process_older}

-- Whether an event with this status counts as processed.
abbrev pub advances : PipelineStatus → Bool
advances processed = true
advances status_warmup = true
advances ignored = false
advances failed = false

-- An answer leaves the sequences marked, an exception leaves them as they were.
abbrev Marks : {A : Type 0} → PipelineEvent → Dict ℕ → Run × Result PipelineError A → Type 0
Marks event before (r, ok _) =
    r.pipeline.tracker.last_sequences ≡ insert event.symbol event.sequence before
Marks event before (r, raise _) = r.pipeline.tracker.last_sequences ≡ before

-- `restore_checkpoint` leaves what the checkpoints say of a symbol, and of another what was known.
restore_unknown :
    (k : String) (d : Dict ℕ) (p : MarketPipeline)
    → lookup k d ≡ none
    → lookup k (restore_checkpoint d p).tracker.last_sequences ≡ lookup k p.tracker.last_sequences
unfolding restore_checkpoint mark_processed lookup
restore_unknown k [] p h = refl
restore_unknown k ((j, v) ∷ d) p h = ground (
  arith,
  eq_iff j k,
  lookup-insert j k v p.tracker.last_sequences,
  restore_unknown k d (record p { tracker = mark_processed j v p.tracker }),
)

restore_known :
    (k : String) (v : ℕ) (d : Dict ℕ) (p : MarketPipeline)
    → KeysDistinct d
    → lookup k d ≡ some v
    → lookup k (restore_checkpoint d p).tracker.last_sequences ≡ some v
unfolding restore_checkpoint mark_processed lookup
restore_known k v [] p n h = absurd (ground arith)
restore_known k v ((j, w) ∷ d) p n h = elim (Bool-cases (j =ₛ k)) [
  | inl same ↦
      let rest = restore_unknown k d (record p { tracker = mark_processed j w p.tracker }) in
      ground (arith, eq_iff j k, lookup-insert j k w p.tracker.last_sequences, rest)
  | inr other ↦
      let rest = restore_known k v d (record p { tracker = mark_processed j w p.tracker }) n.1 in
      ground (arith, rest)
]

known_older :
    (k : String) (n : ℕ) (t : PipelineStateTracker)
    → lookup k t.last_sequences ≡ some n
    → leb n (last_sequence k t) ≡ true
unfolding last_sequence
known_older k n t h = ground arith

still_newer :
    (k : String) (n : ℕ) (t t' : PipelineStateTracker)
    → t'.last_sequences ≡ t.last_sequences
    → leb n (last_sequence k t) ≡ false
    → leb n (last_sequence k t') ≡ false
unfolding last_sequence
still_newer k n t t' e h = rw e h

module _ {S R X : Type 0} where
  finish_event-Marks :
      (approved : R → Bool) (event : PipelineEvent) (a : Answers S R X) (r : Run)
      → Marks event r.pipeline.tracker.last_sequences (finish_event approved event a r)
  unfolding finish_event
  finish_event-Marks approved event a r =
      let before = r.pipeline.tracker.last_sequences in
      let kept = ap (λ t. t.last_sequences) (trade_keeps approved event a r) in
      let r2 = (trade approved event a r).0 in
      bind_cases (Marks event before) (trade approved event a) (λ o. store event a >> return o) r
        (λ e h. kept)
        (λ o h.
          bind_cases (Marks event before) (store event a) (λ _. return o) r2
            (λ e k. ap (λ t. t.last_sequences) (store_raises event a r2 e k) ∙ kept)
            (λ u k. (store_marks event a r2).2 k ∙ ap (insert event.symbol event.sequence) kept))

  run_event-Marks :
      (approved : R → Bool) (event : PipelineEvent) (a : Answers S R X) (r : Run)
      → Marks event r.pipeline.tracker.last_sequences (run_event approved event a r)
  unfolding run_event follow_up observe_market
  run_event-Marks approved event a r =
      let same = ap (λ p. p.tracker.last_sequences) (prepare_keeps event a r) in
      bind_cases (Marks event r.pipeline.tracker.last_sequences) (prepare event a)
        (λ o. follow_up approved event a o.0 o.1) r (λ e h. same)
        (λ o h.
          subst
            (λ before.
              Marks event before (follow_up approved event a o.0 o.1 (prepare event a r).0))
            same (finish_event-Marks approved event a _))

  answer-Marks :
      (event : PipelineEvent) (a : Answers S R X) (before : Dict ℕ)
      (o : Run × Result PipelineError (Outcome S R X))
      → Marks event before o
      → let (p', result) = answer event a o in
        p'.tracker.last_sequences
        ≡ (if advances result.status then insert event.symbol event.sequence before else before)
  unfolding answer give_up
  answer-Marks event a before (r, raise e) h = ground arith
  answer-Marks event a before (r, ok x) h = ground arith

  -- An event marks its sequence as the last one of its symbol if it is processed, in warm-up or not;
  -- if it is ignored or if any stage fails, the remembered sequences are as before.
  pub process_market_event-last_sequences :
      (approved : R → Bool) (event : PipelineEvent) (a : Answers S R X) (p : MarketPipeline)
      → let (p', result) = process_market_event approved event a p in
        p'.tracker.last_sequences ≡ (
          if advances result.status
          then insert event.symbol event.sequence p.tracker.last_sequences
          else p.tracker.last_sequences)
  process_market_event-last_sequences approved event a p =
      elim (Bool-cases (leb event.sequence (last_sequence event.symbol p.tracker))) [
        | inl older ↦ (let (same, s) = process_older approved event a p older in ground arith)
        | inr newer ↦
            rw (process_newer approved event a p newer)
              (answer-Marks event a p.tracker.last_sequences _ (run_event-Marks approved event a _))
      ]

  failed_checkpoint :
      (event : PipelineEvent) (a : Answers S R X) (o : Run × Result PipelineError (Outcome S R X))
      → (answer event a o).1.status ≡ failed
      → a.checkpointed_after ≡ ok tt
      → lookup event.symbol (answer event a o).0.checkpoints ≡ some event.sequence
  unfolding answer give_up
  failed_checkpoint event a (r, ok x) h saved = absurd (ground arith)
  failed_checkpoint event a (r, raise e) h saved = ground (
    arith,
    lookup-insert event.symbol event.symbol event.sequence r.pipeline.checkpoints,
    eq_refl event.symbol,
  )

  -- An event that fails and whose checkpoint is written all the same is lost at a restart: any pipeline
  -- that restores the checkpoints ignores the event, while the one that failed would process it again.
  pub failed_event_lost :
      (approved : R → Bool) (event : PipelineEvent) (a : Answers S R X) (p : MarketPipeline)
      → let (p', result) = process_market_event approved event a p in
        result.status ≡ failed
        → a.checkpointed_after ≡ ok tt
        → KeysDistinct p'.checkpoints
        → ((b : Answers S R X) (q : MarketPipeline)
            → (process_market_event approved event b (restore_checkpoint p'.checkpoints q)).1.status
              ≡ ignored)
          × (leb event.sequence (last_sequence event.symbol p'.tracker) ≡ false)
  failed_event_lost approved event a p h saved distinct =
      elim (Bool-cases (leb event.sequence (last_sequence event.symbol p.tracker))) [
        | inl older ↦ absurd (not_failed (process_older approved event a p older).1 h)
        | inr newer ↦
            (let (p', result) = process_market_event approved event a p in
              let same = process_market_event-last_sequences approved event a p in
              let written =
                subst
                  (λ o.
                    o.1.status ≡ failed → lookup event.symbol o.0.checkpoints ≡ some event.sequence)
                  (sym (process_newer approved event a p newer))
                  (λ f. failed_checkpoint event a _ f saved) h in
              (
                λ b q.
                    (process_older approved event b (restore_checkpoint p'.checkpoints q) (
                      known_older event.symbol event.sequence _ (
                        restore_known event.symbol event.sequence p'.checkpoints q distinct
                          written))).1,
                still_newer event.symbol event.sequence p.tracker p'.tracker
                    (unmarked result.status _ _ h same) newer,
              ))
      ]
    where
      not_failed : {s : PipelineStatus} → s ≡ ignored → s ≡ failed → ⊥
      not_failed e f = ground arith

      unmarked :
          (s : PipelineStatus) {after : Dict ℕ} (marked before : Dict ℕ)
          → s ≡ failed
          → after ≡ (if advances s then marked else before)
          → after ≡ before
      unmarked s marked before f e = ground arith
