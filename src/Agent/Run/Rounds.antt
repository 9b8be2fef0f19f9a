-- ===== src/Agent/Run/Rounds.antt =====
-- The main loop: when it goes on, when it ends, and with what.
use jetstack_secure.Prelude.{
  ◌≡◌, refl, ap, sym, ◌∙◌, subst, true, false, ◌||◌, Option, none, some, List, [], ◌∷◌, ◌++◌, ◌⊎◌,
  inl, inr, Bool-cases,
}
use jetstack_secure.Prelude.Lists.{any}
use jetstack_secure.Api.{DataReading}
use jetstack_secure.Clients.{Client}
use jetstack_secure.Agent.Config.{CombinedConfig}
use jetstack_secure.Agent.Gather.{Backoff, RoundError, options_of, gather_and_output_data}
use jetstack_secure.Agent.Gather.Sent.{gather_and_output_data-keeps}
use jetstack_secure.Agent.Run.{Turn, Outcome, next_turn, run_loop}

Outcome-cases :
    (o : Outcome)
    → (o ≡ Outcome.running) ⊎ ((result : Option RoundError) × (o ≡ Outcome.finished result))
Outcome-cases Outcome.running = inl refl
Outcome-cases (Outcome.finished result) = inr (result, refl)

module _ {D : Type 0} (backoff : Backoff) (config : CombinedConfig) (client : Client D) where
  -- The turns lead from one state of the client to the other, each without an error or an end.
  pub data Completed (after : client.State) : List (Turn D) → client.State → Type 0 where
    no_turn : Completed after [] after
    turned :
        {s : client.State} (turn : Turn D) (turns : List (Turn D)) (s' : client.State)
        → gather_and_output_data backoff config client turn.inputs s ≡ (none, s')
        → config.one_shot || turn.is_done ≡ false
        → Completed after turns s'
        → Completed after (turn ∷ turns) s

  -- The turn that ends the loop.
  pub data Ends (turn : Turn D) (s after : client.State) : Option RoundError → Type 0 where
    failed :
        (e : RoundError)
        → gather_and_output_data backoff config client turn.inputs s ≡ (some e, after)
        → Ends turn s after (some e)
    stopped :
        gather_and_output_data backoff config client turn.inputs s ≡ (none, after)
        → config.one_shot || turn.is_done ≡ true
        → Ends turn s after none

  pub record Ended (turns : List (Turn D)) (s after : client.State) (result : Option RoundError)
      : Type 0 where
    pub before : List (Turn D)
    pub last : Turn D
    pub rest : List (Turn D)
    pub state : client.State
    pub are_turns : turns ≡ before ++ last ∷ rest
    pub is_completed : Completed state before s
    pub is_end : Ends last state after result

  Step-cases :
      (r : Option RoundError × client.State)
      → ((e : RoundError) × (s : client.State) × (r ≡ (some e, s)))
        ⊎ ((s : client.State) × (r ≡ (none, s)))
  Step-cases (some e, s) = inl (e, s, refl)
  Step-cases (none, s) = inr (s, refl)

  run_loop_failed :
      (turn : Turn D) (turns : List (Turn D)) (s s' : client.State) (e : RoundError)
      → gather_and_output_data backoff config client turn.inputs s ≡ (some e, s')
      → run_loop backoff config client (turn ∷ turns) s ≡ (Outcome.finished (some e), s')
  unfolding run_loop
  run_loop_failed turn turns s s' e ran =
      ap (next_turn (config.one_shot || turn.is_done) (run_loop backoff config client turns)) ran

  run_loop_stopped :
      (turn : Turn D) (turns : List (Turn D)) (s s' : client.State)
      → gather_and_output_data backoff config client turn.inputs s ≡ (none, s')
      → config.one_shot || turn.is_done ≡ true
      → run_loop backoff config client (turn ∷ turns) s ≡ (Outcome.finished none, s')
  unfolding run_loop
  run_loop_stopped turn turns s s' ran ends =
      ap (next_turn (config.one_shot || turn.is_done) (run_loop backoff config client turns)) ran
      ∙ ap (λ b. next_turn b (run_loop backoff config client turns) (none, s')) ends

  run_loop_goes_on :
      (turn : Turn D) (turns : List (Turn D)) (s s' : client.State)
      → gather_and_output_data backoff config client turn.inputs s ≡ (none, s')
      → config.one_shot || turn.is_done ≡ false
      → run_loop backoff config client (turn ∷ turns) s ≡ run_loop backoff config client turns s'
  unfolding run_loop
  run_loop_goes_on turn turns s s' ran goes =
      ap (next_turn (config.one_shot || turn.is_done) (run_loop backoff config client turns)) ran
      ∙ ap (λ b. next_turn b (run_loop backoff config client turns) (none, s')) goes

  Ended-there :
      {s : client.State} (turn : Turn D) (turns : List (Turn D)) (s' after : client.State)
      (result : Option RoundError)
      → gather_and_output_data backoff config client turn.inputs s ≡ (none, s')
      → config.one_shot || turn.is_done ≡ false
      → Ended turns s' after result
      → Ended (turn ∷ turns) s after result
  Ended-there turn turns s' after result ran goes ended = record {
    before = turn ∷ ended.before;
    last = ended.last;
    rest = ended.rest;
    state = ended.state;
    are_turns = ap (λ (ts : List (Turn D)). turn ∷ ts) ended.are_turns;
    is_completed = turned turn ended.before s' ran goes ended.is_completed;
    is_end = ended.is_end;
  }

  -- What the loop does with the turns it is given: it completes them all and runs, or it completes some
  -- and ends with the next one.
  pub data Ran (turns : List (Turn D)) (s after : client.State) : Outcome → Type 0 where
    runs : Completed after turns s → Ran turns s after Outcome.running
    ends :
        (result : Option RoundError)
        → Ended turns s after result
        → Ran turns s after (Outcome.finished result)

  Ran-there :
      {s : client.State} (turn : Turn D) (turns : List (Turn D)) (s' after : client.State)
      {o : Outcome}
      → gather_and_output_data backoff config client turn.inputs s ≡ (none, s')
      → config.one_shot || turn.is_done ≡ false
      → Ran turns s' after o
      → Ran (turn ∷ turns) s after o
  Ran-there turn turns s' after ran goes (runs c) = runs (turned turn turns s' ran goes c)
  Ran-there turn turns s' after ran goes (ends result e) =
      ends result (Ended-there turn turns s' after result ran goes e)

  Ends-Ran :
      (turn : Turn D) (turns : List (Turn D)) (s s' : client.State) (result : Option RoundError)
      → Ends turn s s' result
      → Ran (turn ∷ turns) s s' (Outcome.finished result)
  Ends-Ran turn turns s s' result e = ends result (record {
    before = [];
    last = turn;
    rest = turns;
    state = s;
    are_turns = refl;
    is_completed = no_turn;
    is_end = e;
  })

  abbrev IsRan : List (Turn D) → client.State → Outcome × client.State → Type 0
  IsRan turns s (o, after) = Ran turns s after o

  -- The loop goes through its turns until a round has an error, and then ends with it; or one round alone
  -- is asked for or the context is done after a round, and then it ends with nil.
  pub run_loop-Ran :
      (turns : List (Turn D)) (s : client.State)
      → Ran turns s
          (run_loop backoff config client turns s).1
          (run_loop backoff config client turns s).0
  unfolding run_loop
  run_loop-Ran [] s = runs no_turn
  run_loop-Ran (turn ∷ turns) s =
      elim (Step-cases (gather_and_output_data backoff config client turn.inputs s)) [
        | inl (e, s', ran) ↦
            subst (IsRan (turn ∷ turns) s) (sym (run_loop_failed turn turns s s' e ran))
              (Ends-Ran turn turns s s' (some e) (failed e ran))
        | inr (s', ran) ↦ elim (Bool-cases (config.one_shot || turn.is_done)) [
          | inl over ↦
              subst (IsRan (turn ∷ turns) s) (sym (run_loop_stopped turn turns s s' ran over))
                (Ends-Ran turn turns s s' none (stopped ran over))
          | inr goes ↦
              subst (IsRan (turn ∷ turns) s) (sym (run_loop_goes_on turn turns s s' ran goes))
                (Ran-there turn turns s' _ ran goes (run_loop-Ran turns s'))
        ]
      ]

  Completed-goes :
      {after : client.State} (turns : List (Turn D)) {s : client.State}
      → Completed after turns s
      → any (λ (turn : Turn D). config.one_shot || turn.is_done) turns ≡ false
  Completed-goes [] no_turn = refl
  Completed-goes (turn ∷ turns) (turned _ _ s' ran goes more) = rw goes (Completed-goes turns more)

  Ran-Completed :
      {s after : client.State} (turns : List (Turn D)) {o : Outcome}
      → Ran turns s after o
      → o ≡ Outcome.running
      → Completed after turns s
  Ran-Completed turns (runs c) h = c
  Ran-Completed turns (ends result e) h = cc

  -- The loop ends, at the latest after the first turn at whose end the context is done, and after the
  -- first one where one round alone is asked for.
  pub run_loop_ends :
      (turns : List (Turn D)) (s : client.State)
      → any (λ (turn : Turn D). config.one_shot || turn.is_done) turns ≡ true
      → (result : Option RoundError) × ((run_loop backoff config client turns s).0
          ≡ Outcome.finished result)
  run_loop_ends turns s h = elim (Outcome-cases (run_loop backoff config client turns s).0) [
    | inl on ↦ let goes = Completed-goes turns (Ran-Completed turns (run_loop-Ran turns s) on) in cc
    | inr over ↦ over
  ]

  gather_and_output_data-next :
      (P : client.State → Type 0) (turn : Turn D) (s s' : client.State) (e : Option RoundError)
      → ((rs : List (DataReading D)) (s : client.State)
          → P s
          → P (client.post_data_readings_with_options rs (options_of config) s).1)
      → gather_and_output_data backoff config client turn.inputs s ≡ (e, s')
      → P s
      → P s'
  gather_and_output_data-next P turn s s' e keeps ran p =
      subst (λ (r : Option RoundError × client.State). P r.1) ran
        (gather_and_output_data-keeps backoff config client P turn.inputs s keeps p)

  -- What every post keeps of the client, with the options of the configuration, holds of it after any
  -- turns of the loop.
  pub run_loop-keeps :
      (P : client.State → Type 0) (turns : List (Turn D)) (s : client.State)
      → ((rs : List (DataReading D)) (s : client.State)
          → P s
          → P (client.post_data_readings_with_options rs (options_of config) s).1)
      → P s
      → P (run_loop backoff config client turns s).1
  unfolding run_loop
  run_loop-keeps P [] s keeps p = p
  run_loop-keeps P (turn ∷ turns) s keeps p =
      elim (Step-cases (gather_and_output_data backoff config client turn.inputs s)) [
        | inl (e, s', ran) ↦
            subst (λ (r : Outcome × client.State). P r.1)
              (sym (run_loop_failed turn turns s s' e ran))
              (gather_and_output_data-next P turn s s' (some e) keeps ran p)
        | inr (s', ran) ↦
            let kept = gather_and_output_data-next P turn s s' none keeps ran p in
            elim (Bool-cases (config.one_shot || turn.is_done)) [
              | inl over ↦
                  subst (λ (r : Outcome × client.State). P r.1)
                    (sym (run_loop_stopped turn turns s s' ran over)) kept
              | inr goes ↦
                  subst (λ (r : Outcome × client.State). P r.1)
                    (sym (run_loop_goes_on turn turns s s' ran goes))
                    (run_loop-keeps P turns s' keeps kept)
            ]
      ]
