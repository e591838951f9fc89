-- ===== src/Tests/BufferRuns.antt =====
-- Two buffers of 16 bytes and two threads.
use ntrace.Base.{ℕ, ◌+◌, ◌^◌, ◌<◌, ◌≡◌, refl, arith, true, false, some, none, List, [], ◌∷◌, update}
use ntrace.Buffers.{
  Buffer, Pool, Caller, identity, initialize, initialize_from, write_event, get_buffer, find_buffer,
  fresh_buffer, room, use_up, acquire, Status, success, process_buffers, collect_or,
  process_flushed, process_all, Wait, signalled, Collected, teardown,
}
use ntrace.Buffers.Steps.{System, Threads, Reach}
use ntrace.Buffers.Ownership.{Owned, Reach-Owned}
use ntrace.Buffers.Stream.{Streams, Reach-Streams}
use ntrace.Buffers.Initial.{started, initialize-Owned}
use ntrace.Buffers.Paths.{Wrote, write_event-Wrote}
use ntrace.Buffers.Processing.{woken, done, Outcome, process_buffers-Outcome, teardown-path}
use ntrace.Buffers.Slist.{Links, Chain, Reversed, reverse_slist, reverse_slist-Reversed}
use ntrace.Buffers.Allocate.{allocate, allocated}

abbrev caller : ℕ → Caller
caller t = record { thread = t; process_id = 4; thread_id = t + 8; thread_address = 0 }

different : (t u : ℕ) → identity (caller t) ≡ identity (caller u) → t ≡ u
unfolding identity
different t u e = ground (arith, e)

abbrev threads : Threads
threads = record { caller = caller; numbered = λ t. refl; distinct = different }

abbrev blob : ℕ → Buffer
blob b = record {
  client = record { process_id = 0; thread_id = 0 };
  buffer_size = 0;
  used_size = 0;
  content = λ a. 0;
}

abbrev fresh : System
fresh = started (initialize 2 16 blob)

initialize-Owned_example : Owned threads 2 fresh × Streams threads fresh
initialize-Owned_example = initialize-Owned threads 2 16 blob

abbrev event : List ℕ
event = 1 ∷ 2 ∷ 3 ∷ []

fresh-small : fresh.pool.buffer_size < 2 ^ 32
unfolding initialize initialize_from
fresh-small = omega arith

wrote : Wrote threads 2 0 event fresh (write_event (threads.caller 0) event fresh.pool)
wrote = write_event-Wrote threads 2 0 event fresh (initialize-Owned threads 2 16 blob).0 fresh-small

write_event-Wrote_example :
    Wrote threads 2 0 event fresh (write_event (threads.caller 0) event fresh.pool)
write_event-Wrote_example =
    write_event-Wrote threads 2 0 event fresh (initialize-Owned threads 2 16 blob).0 fresh-small

abbrev after : System
after = record fresh {
  pool = (write_event (threads.caller 0) event fresh.pool).1;
  written = wrote.written;
}

Reach-Owned_example : Owned threads 2 after
Reach-Owned_example = Reach-Owned threads 2 wrote.path (initialize-Owned threads 2 16 blob).0

Reach-Streams_example : Owned threads 2 after × Streams threads after
Reach-Streams_example =
    Reach-Streams threads 2 wrote.path (initialize-Owned threads 2 16 blob).0
      (initialize-Owned threads 2 16 blob).1

-- The thread exits, and the collector is woken.
abbrev exited : System
exited = record after { pool = teardown 0 after.pool }

abbrev pass : Collected
pass = process_flushed exited.pool

exited-collects : process_buffers (signalled exited.pool false ∷ []) false after.pool ≡ some pass
unfolding process_buffers collect_or initialize write_event get_buffer find_buffer fresh_buffer
    acquire use_up teardown initialize_from ntrace.Buffers.retire
exited-collects = refl

process_buffers-Outcome_example : (s : System) × Reach threads after s × Outcome threads s pass
process_buffers-Outcome_example =
    process_buffers-Outcome threads 2 (signalled exited.pool false ∷ []) false after pass
      (woken exited exited.pool false [] (teardown-path threads 0 after) refl refl done) refl
      (Reach-Owned threads 2 wrote.path (initialize-Owned threads 2 16 blob).0) exited-collects

abbrev links : Links
links = update (update (λ i. none) 5 (some 3)) 3 (some 8)

chained : Chain links (5 ∷ 3 ∷ 8 ∷ []) (some 5)
unfolding Chain
chained = (refl, (refl, (refl, refl)))

reverse_slist-Reversed_example :
    Reversed links (5 ∷ 3 ∷ 8 ∷ []) (8 ∷ 3 ∷ 5 ∷ []) (reverse_slist 3 links (some 5))
reverse_slist-Reversed_example =
    reverse_slist-Reversed (5 ∷ 3 ∷ 8 ∷ []) 3 links (some 5) (omega arith) (λ b. ground arith)
      chained

allocates : allocate 24 512 (λ n. true) 4 4096 ≡ allocated 16992
unfolding allocate
allocates = refl
