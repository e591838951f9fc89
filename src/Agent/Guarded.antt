-- ===== src/Agent/Guarded.antt =====
-- Which procedures the agent lets the library instrument.
use ntrace.Base.{
  ℕ, ◌+◌, ◌*◌, ◌^◌, ◌≤◌, ◌<◌, ◌≡◌, ◌⊎◌, inl, inr, refl, sym, subst, Bool, true, false, ◌&&◌, ◌||◌,
  Option, none, some, List, [], ◌∷◌, map, All, ltb, ◌==◌, arith, Bool-cases,
}
use ntrace.Agent.{Status, is_success}
use ntrace.Agent.Pointers.{Modules, check_procedure_pointers}
use ntrace.Agent.Control.{
  Device, Fbt, first_entries, InstrumentRequest, add_instrumentation, offset_of_procedure,
  size_of_instrument_response, Answer, has_event_sink, instrument_checked,
  instrument_procedure_ioctl,
}
use ntrace.Agent.Checked.{Image, image_of, Inside}
use ntrace.Agent.Verdict.{check_procedure_pointers-Judges}

both : (P Q : ℕ → Type 0) (ps : List ℕ) → All P ps → All Q ps → All (λ p. P p × Q p) ps
both P Q [] h k = tt
both P Q (p ∷ ps) h k = ((h.0, k.0), both P Q ps h.1 k.1)

-- Whether the lengths of the buffers are too small for a request.
is_short : InstrumentRequest → ℕ → ℕ → Bool
is_short r input_length output_length =
    ltb input_length (offset_of_procedure 0)
    || ltb output_length size_of_instrument_response
    || ltb input_length (offset_of_procedure r.procedure_count)

is_short-bounded :
    (r : InstrumentRequest) (input_length output_length : ℕ)
    → is_short r input_length output_length ≡ false
    → 8 + r.procedure_count * 4 < 2 ^ 32
    → 8 + r.procedure_count * 4 ≤ input_length
unfolding is_short offset_of_procedure
is_short-bounded r input_length output_length h b = ground (arith, h, b)

module _ (modules : Modules) (fbt : Fbt) (d : Device) where
  -- The request is refused: nothing happens to the device.
  pub record Refused (a : Answer) : Type 0 where
    pub unchanged : a.device ≡ d
    pub failed : is_success a.status ≡ false

  -- The library has got the procedures of the request, and its state is the only change.
  pub record Handed (r : InstrumentRequest) (input_length : ℕ) (a : Answer) : Type 0 where
    pub procedures :
        All
          (λ p. (modules.system_range_start ≤ p) × Inside p (map image_of modules.query.1))
          (first_entries r.procedure_count r.procedures)
    pub bounded : 8 + r.procedure_count * 4 < 2 ^ 32 → 8 + r.procedure_count * 4 ≤ input_length
    pub reported :
        r.action ≡ add_instrumentation
        → has_event_sink d ≡ true
        → All (λ p. Inside p a.images) (first_entries r.procedure_count r.procedures)
    pub device : a.device ≡ record d {
      fbt =
          (fbt.instrument_procedure r.action
            (first_entries r.procedure_count r.procedures)
            d.fbt).2;
    }

  module _ (r : InstrumentRequest) where
    abbrev checked : Status × Option ℕ × List Image
    checked =
        check_procedure_pointers modules (first_entries r.procedure_count r.procedures)
          ((r.action == add_instrumentation) && has_event_sink d)

    instrument_checked-fails :
        is_success checked.0 ≡ false → Refused (instrument_checked modules fbt r d)
    unfolding instrument_checked is_success
    instrument_checked-fails h = record {
      unchanged = ground (arith, h);
      failed = ground (arith, h);
    }

    instrument_checked-hands :
        is_success checked.0 ≡ true
        → let a = instrument_checked modules fbt r d in
          (a.images ≡ checked.2)
          × (a.device ≡ record d {
            fbt =
                (fbt.instrument_procedure r.action
                  (first_entries r.procedure_count r.procedures)
                  d.fbt).2;
          })
    unfolding instrument_checked
    instrument_checked-hands h = (ground (arith, h), ground (arith, h))

    instrument_checked-Handed :
        (input_length : ℕ)
        → is_success checked.0 ≡ true
        → (8 + r.procedure_count * 4 < 2 ^ 32 → 8 + r.procedure_count * 4 ≤ input_length)
        → Handed r input_length (instrument_checked modules fbt r d)
    instrument_checked-Handed input_length h b =
        let ps = first_entries r.procedure_count r.procedures in
        let judged = check_procedure_pointers-Judges modules ps _ in
        let (images, device) = instrument_checked-hands h in
        record {
          procedures = both _ _ ps (judged.above h) (judged.inside h);
          bounded = b;
          reported = λ a s.
              subst (λ x. All (λ p. Inside p x) ps) (sym images)
                (judged.reported h (ground (arith, a, s)));
          device = device;
        }

  -- Whatever a client asks for: JpkfagpInstrumentProcedureIoctl fails without a change, or it hands a
  -- request to the library whose procedures are all in the system range and inside modules that are
  -- loaded, whose array lies within the buffer unless its size overflows, and whose images have been
  -- reported to the event sink when procedures are added; then nothing but the state of the library
  -- changes.
  pub instrument_procedure_ioctl-Guarded :
      (request : Option InstrumentRequest) (input_length output_length : ℕ)
      → let a = instrument_procedure_ioctl modules fbt request input_length output_length d in
        Refused a ⊎ ((r : InstrumentRequest) × ((request ≡ some r) × Handed r input_length a))
  unfolding instrument_procedure_ioctl is_success is_short
  instrument_procedure_ioctl-Guarded none input_length output_length =
      inl (record { unchanged = refl; failed = refl })
  instrument_procedure_ioctl-Guarded (some r) input_length output_length =
      let a = instrument_procedure_ioctl modules fbt (some r) input_length output_length d in
      elim (Bool-cases (is_short r input_length output_length)) [
        | inl h ↦ inl (record { unchanged = ground (arith, h); failed = ground (arith, h) })
        | inr h ↦
            let e : a ≡ instrument_checked modules fbt r d = ground (arith, h) in
            elim (Bool-cases (is_success (checked r).0)) [
              | inr f ↦ inl (subst Refused (sym e) (instrument_checked-fails r f))
              | inl f ↦ inr (
                r,
                (
                  refl,
                  subst (Handed r input_length) (sym e) (
                      instrument_checked-Handed r input_length f
                        (is_short-bounded r input_length output_length h)),
                ),
              )
            ]
      ]
