-- ===== src/Agent/Gather/Sent.antt =====
-- What a round has sent when it ends, and what it leaves of the client.
use jetstack_secure.Prelude.{
  String, ◌≡◌, refl, ap, sym, ◌∙◌, subst, Option, none, some, List, ◌⊎◌, inl, inr,
}
use jetstack_secure.Prelude.Results.{ok, err, Result-cases}
use jetstack_secure.Api.{DataReading}
use jetstack_secure.Clients.{Client}
use jetstack_secure.Agent.Config.{CombinedConfig}
use jetstack_secure.Agent.Gather.{
  Attempts, Backoff, Inputs, RoundError, options_of, post_failed, post_data, readings_of,
  upload_failed, gather_and_output_data,
}

-- Attempts that failed lead from one state to the other.
pub data Retried {S : Type 0} (operation : S → Option String × S) (end : S) : S → Type 0 where
  first : Retried operation end end
  later :
      {s : S} (s' : S) (e : String)
      → operation s ≡ (some e, s')
      → Retried operation end s'
      → Retried operation end s

module _ {S : Type 0} (operation : S → Option String × S) where
  -- The last attempt, which decides.
  Attempts-last :
      (result : Option String × S) {s : S}
      → Attempts operation result s
      → (s' : S) × Retried operation s' s
        × ((operation s' ≡ (none, result.1)) × (result.0 ≡ none)
            ⊎ (e : String) × (reported : String) × (operation s' ≡ (some e, result.1))
              × (result.0 ≡ some reported))
  Attempts-last result {s} (Attempts.succeeded s' ran same) = (
    s,
    Retried.first,
    inl (
      ran ∙ ap (λ (r : Option String × S). (none, r.1)) (sym same),
      ap (λ (r : Option String × S). r.0) same,
    ),
  )
  Attempts-last result {s} (Attempts.gave_up s' e reported ran same) = (
    s,
    Retried.first,
    inr (
      e,
      reported,
      ran ∙ ap (λ (r : Option String × S). (some e, r.1)) (sym same),
      ap (λ (r : Option String × S). r.0) same,
    ),
  )
  Attempts-last result {s} (Attempts.again s' e ran more) =
      let (t, retried, decided) = Attempts-last result more in
      (t, Retried.later s' e ran retried, decided)

  Attempts-keeps :
      (P : S → Type 0) (result : Option String × S) {s : S}
      → ((s : S) → P s → P (operation s).1)
      → Attempts operation result s
      → P s
      → P result.1
  Attempts-keeps P result {s} keeps (Attempts.succeeded s' ran same) p =
      subst P (ap (λ (r : Option String × S). r.1) (ran ∙ sym same)) (keeps s p)
  Attempts-keeps P result {s} keeps (Attempts.gave_up s' e reported ran same) p =
      subst P
        (ap (λ (r : Option String × S). r.1) ran ∙ ap (λ (r : Option String × S). r.1) (sym same))
        (keeps s p)
  Attempts-keeps P result {s} keeps (Attempts.again s' e ran more) p =
      Attempts-keeps P result keeps more
        (subst P (ap (λ (r : Option String × S). r.1) ran) (keeps s p))

post_failed_ok :
    {S : Type 0} (r : Option String × S) (t : S) → post_failed r ≡ (none, t) → r ≡ (none, t)
unfolding post_failed
post_failed_ok (none, s) t h = h
post_failed_ok (some e, s) t h = cc

post_failed-state : {S : Type 0} (r : Option String × S) → (post_failed r).1 ≡ r.1
unfolding post_failed
post_failed-state (none, s) = refl
post_failed-state (some e, s) = refl

upload_failed-state : {S : Type 0} (r : Option String × S) → (upload_failed r).1 ≡ r.1
unfolding upload_failed
upload_failed-state (none, s) = refl
upload_failed-state (some e, s) = refl

upload_failed-cases :
    {S : Type 0} (r : Option String × S)
    → ((r.0 ≡ none) × (upload_failed r ≡ (none, r.1)))
      ⊎ ((e : String) × (r.0 ≡ some e) × (upload_failed r ≡ (some (RoundError.upload e), r.1)))
unfolding upload_failed
upload_failed-cases (none, s) = inl (refl, refl)
upload_failed-cases (some e, s) = inr (e, refl, refl)

-- What was sent: the readings, to a client that had refused them in each attempt before.
pub record IsSent {D : Type 0} (config : CombinedConfig) (client : Client D) (inputs : Inputs D)
    (before after : client.State) : Type 0 where
  pub readings : List (DataReading D)
  pub state : client.State
  pub are_readings : readings_of config inputs ≡ ok readings
  pub is_retried : Retried (post_data config client readings) state before
  pub is_accepted :
      client.post_data_readings_with_options readings (options_of config) state ≡ (none, after)

module _ {D : Type 0} (backoff : Backoff) (config : CombinedConfig) (client : Client D) where
  attempts :
      (readings : List (DataReading D)) (s : client.State)
      → Attempts
          (post_data config client readings)
          (backoff.retry (post_data config client readings) s)
          s
  attempts readings s = backoff.retry_lem (post_data config client readings) s

  posted-IsSent :
      (inputs : Inputs D) (readings : List (DataReading D)) (s : client.State)
      (result : Option String × client.State)
      → readings_of config inputs ≡ ok readings
      → Attempts (post_data config client readings) result s
      → result.0 ≡ none
      → IsSent config client inputs s result.1
  unfolding post_data
  posted-IsSent inputs readings s result found tries h =
      let (s', retried, decided) = Attempts-last (post_data config client readings) result tries in
      elim decided [
        | inl (ran, e) ↦ record {
          readings = readings;
          state = s';
          are_readings = found;
          is_retried = retried;
          is_accepted = post_failed_ok _ result.1 ran;
        }
        | inr (e, reported, ran, same) ↦ cc
      ]

  gather_and_output_data_ok :
      (inputs : Inputs D) (s : client.State) (readings : List (DataReading D))
      → readings_of config inputs ≡ ok readings
      → gather_and_output_data backoff config client inputs s
        ≡ upload_failed (backoff.retry (post_data config client readings) s)
  unfolding gather_and_output_data upload_failed
  gather_and_output_data_ok inputs s readings found = rw (found, gather_and_output_data) refl

  gather_and_output_data_err :
      (inputs : Inputs D) (s : client.State) (e : RoundError)
      → readings_of config inputs ≡ err e
      → gather_and_output_data backoff config client inputs s ≡ (some e, s)
  unfolding gather_and_output_data
  gather_and_output_data_err inputs s e failed = rw (failed, gather_and_output_data) refl

  -- A round without an error has gathered readings, and the last attempt to post them, after others that
  -- failed, was accepted by the client.
  pub gather_and_output_data-IsSent :
      (inputs : Inputs D) (s : client.State)
      → (gather_and_output_data backoff config client inputs s).0 ≡ none
      → IsSent config client inputs s (gather_and_output_data backoff config client inputs s).1
  gather_and_output_data-IsSent inputs s h = elim (Result-cases (readings_of config inputs)) [
    | inr (e, failed) ↦ let ran = gather_and_output_data_err inputs s e failed in cc
    | inl (readings, found) ↦
        let result = backoff.retry (post_data config client readings) s in
        let ran = gather_and_output_data_ok inputs s readings found in
        elim (upload_failed-cases result) [
          | inr (e, refused, outcome) ↦ cc
          | inl (accepted, outcome) ↦
              subst (λ (r : Option RoundError × client.State). IsSent config client inputs s r.1)
                (sym (ran ∙ outcome))
                (posted-IsSent inputs readings s result found (attempts readings s) accepted)
        ]
  ]

  -- What every post keeps of the client, each round keeps.
  pub gather_and_output_data-keeps :
      (P : client.State → Type 0) (inputs : Inputs D) (s : client.State)
      → ((rs : List (DataReading D)) (s : client.State)
          → P s
          → P (client.post_data_readings_with_options rs (options_of config) s).1)
      → P s
      → P (gather_and_output_data backoff config client inputs s).1
  unfolding post_data
  gather_and_output_data-keeps P inputs s keeps p =
      elim (Result-cases (readings_of config inputs)) [
        | inr (e, failed) ↦
            subst (λ (r : Option RoundError × client.State). P r.1)
              (sym (gather_and_output_data_err inputs s e failed)) p
        | inl (readings, found) ↦
            let result = backoff.retry (post_data config client readings) s in
            let kept : P result.1 =
              Attempts-keeps (post_data config client readings) P result
                (λ s q. subst P (sym (post_failed-state _)) (keeps readings s q))
                (attempts readings s) p in
            subst (λ (r : Option RoundError × client.State). P r.1)
              (sym (gather_and_output_data_ok inputs s readings found))
              (subst P (sym (upload_failed-state result)) kept)
      ]
