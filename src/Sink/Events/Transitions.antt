-- ===== src/Sink/Events/Transitions.antt =====
-- What the callbacks for procedures leave in the buffers.
use ntrace.Base.{
  ℕ, ◌+◌, ◌*◌, ◌/◌, ◌%◌, ◌^◌, ◌≤◌, ◌<◌, ◌≡◌, ◌⊎◌, refl, ◌∙◌, some, none, List, ◌++◌, arith,
  Option-cases, inl, inr,
}
use ntrace.Base.Bytes.{
  Memory, store, store_inside, store_before, store_after, read_u64, u64_bytes, u32_bytes,
}
use ntrace.Format.{Transition, transition_at, transition_entry, transition_exit, transition_unwind}
use ntrace.Sink.Events.{
  put_transition, Moment, Dropped, on_procedure_entry, on_procedure_exit, on_procedure_unwind,
}

put_transition-bytes :
    (m : Memory) (a x y z : ℕ)
    → x < 2 ^ 64
    → y < 2 ^ 32
    → z < 2 ^ 32
    → transition_at (store m a (u64_bytes x ++ (u32_bytes y ++ u32_bytes z))) a
      ≡ record { type = x % 4; timestamp = x / 16; procedure = y; info = z }
unfolding transition_at
put_transition-bytes m a x y z hx hy hz =
    let b : List ℕ = u64_bytes x ++ (u32_bytes y ++ u32_bytes z) in
    ground (
      arith,
      store_inside m a b a 0,
      store_inside m a b (a + 1) 1,
      store_inside m a b (a + 2) 2,
      store_inside m a b (a + 3) 3,
      store_inside m a b (a + 4) 4,
      store_inside m a b (a + 4 + 1) 5,
      store_inside m a b (a + 4 + 2) 6,
      store_inside m a b (a + 4 + 3) 7,
      store_inside m a b (a + 8) 8,
      store_inside m a b (a + 8 + 1) 9,
      store_inside m a b (a + 8 + 2) 10,
      store_inside m a b (a + 8 + 3) 11,
      store_inside m a b (a + 12) 12,
      store_inside m a b (a + 12 + 1) 13,
      store_inside m a b (a + 12 + 2) 14,
      store_inside m a b (a + 12 + 3) 15,
    )

-- The memory has a transition at an address, and what was elsewhere.
pub record Holds (m m' : Memory) (a : ℕ) (t : Transition) : Type 0 where
  pub transition : transition_at m' a ≡ t
  pub before : (i : ℕ) → i < a → m' i ≡ m i
  pub behind : (i : ℕ) → a + 16 ≤ i → m' i ≡ m i

pub put_transition-Holds :
    (m : Memory) (a : ℕ) (t : Transition)
    → t.type < 4
    → t.timestamp < 2 ^ 60
    → t.procedure < 2 ^ 32
    → t.info < 2 ^ 32
    → Holds m (put_transition m a t) a t
unfolding put_transition
put_transition-Holds m a t h s p i =
    let x = t.type % 4 + 4 * (read_u64 m a / 4 % 4) + 16 * (t.timestamp % 2 ^ 60) in
    let b : List ℕ = u64_bytes x ++ (u32_bytes t.procedure ++ u32_bytes t.info) in
    record {
      transition = put_transition-bytes m a x t.procedure t.info (omega arith) p i ∙ ground arith;
      before = λ j k. store_before m a b j k;
      behind = λ j k. store_after m a b j k;
    }

pub data Kind : Type 0 where
  on_entry on_exit on_unwind : Kind

-- The callback of a kind of event, and the transition that it is to record.
unfoldable pub callback : Kind → Moment → ℕ → Memory × Dropped → Memory × Dropped
callback on_entry = on_procedure_entry
callback on_exit = on_procedure_exit
callback on_unwind = on_procedure_unwind

unfoldable pub type_of : Kind → ℕ
type_of on_entry = transition_entry
type_of on_exit = transition_exit
type_of on_unwind = transition_unwind

abbrev pub transition_of : Kind → Moment → ℕ → Transition
transition_of k at info = record {
  type = type_of k;
  timestamp = at.time;
  procedure = at.procedure;
  info = info;
}

-- How many events of a kind were lost.
unfoldable pub lost : Kind → Dropped → ℕ
lost on_entry d = d.entry_events
lost on_exit d = d.exit_events
lost on_unwind d = d.unwind_events

-- The event is recorded where the buffer is, or it is counted as lost, and nothing else happens.
abbrev pub Reacts : Kind → Moment → ℕ → Memory → Dropped → Memory × Dropped → Type 0
Reacts k at info m d (m', d') =
    ((a : ℕ) × (at.buffer ≡ some a) × Holds m m' a (transition_of k at info) × (d' ≡ d))
    ⊎ ((at.buffer ≡ none)
        × (m' ≡ m)
        × (lost k d' ≡ (lost k d + 1) % 2 ^ 32)
        × (d'.image_info_events ≡ d.image_info_events))

-- Each of the three callbacks for procedures, with values in range: if there is a buffer, the reader
-- finds there the transition with the kind, the time and the procedure of the event and the word
-- that comes with it, all other memory stays, and nothing is counted; if there is none, the memory
-- stays and the event is counted as lost, under its own kind.
pub callback-Reacts :
    (k : Kind) (at : Moment) (info : ℕ) (m : Memory) (d : Dropped)
    → at.time < 2 ^ 60
    → at.procedure < 2 ^ 32
    → info < 2 ^ 32
    → Reacts k at info m d (callback k at info (m, d))
unfolding callback type_of lost on_procedure_entry on_procedure_exit on_procedure_unwind
callback-Reacts on_entry at info m d t p i = elim (Option-cases at.buffer) [
  | inl e ↦ rw e (inr (refl, refl, refl, refl))
  | inr (a, e) ↦ rw e (
      inl (
        a,
        refl,
        put_transition-Holds m a (transition_of on_entry at info) (omega arith) t p i,
        refl,
      ))
]
callback-Reacts on_exit at info m d t p i = elim (Option-cases at.buffer) [
  | inl e ↦ rw e (inr (refl, refl, refl, refl))
  | inr (a, e) ↦ rw e (
      inl (
        a,
        refl,
        put_transition-Holds m a (transition_of on_exit at info) (omega arith) t p i,
        refl,
      ))
]
callback-Reacts on_unwind at info m d t p i = elim (Option-cases at.buffer) [
  | inl e ↦ rw e (inr (refl, refl, refl, refl))
  | inr (a, e) ↦ rw e (
      inl (
        a,
        refl,
        put_transition-Holds m a (transition_of on_unwind at info) (omega arith) t p i,
        refl,
      ))
]
