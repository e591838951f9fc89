-- ===== src/RoundTrip/Session.antt =====
-- A session of the sink from JpkfagpCreateDefaultEventSink on, read by JptrcrOpenFile.
use ntrace.Base.{
  ℕ, ◌+◌, ◌-◌, ◌≤◌, ◌<◌, ◌≡◌, refl, ap, ◌∙◌, true, false, some, none, List, [], ◌∷◌, length, arith,
  All,
}
use ntrace.Base.Bytes.{Memory}
use ntrace.Base.Table.{Hashtable}
use ntrace.Format.{ChunkHeader, ClientId, size_of_file_header, file_header_at}
use ntrace.Format.Layout.{IsSound, HoldsChunks, Run-HoldsChunks}
use ntrace.Reader.{Hr, Os, View}
use ntrace.Reader.Map.Window.{MapsViews, IsOn, map_at-Maps}
use ntrace.Reader.Header.{read_file_header, read_file_header-mapped, check_header-s_ok}
use ntrace.Reader.Modules.{LoadedModule}
use ntrace.Reader.Inventory.{
  File, Surroundings, Opening, prepare, open_file, perform_file_inventory, walk,
}
use ntrace.Reader.Inventory.Registered.{appended, Succeeds, walk-Registers}
use ntrace.Sink.{Zw, Sink, status_success}
use ntrace.Sink.Flush.{create_default_event_sink}
use ntrace.Sink.Laid.{Writes}
use ntrace.RoundTrip.{Event, session, Entry, offsets_of, buffers}
use ntrace.RoundTrip.Log.{Logged, Stands}
use ntrace.RoundTrip.Logging.{
  IsEvent, contents, session-Logged, created, create-created, created-Logged,
}

length-HoldsChunks :
    (m : Memory) (size offset : ℕ) (hs : List ChunkHeader)
    → HoldsChunks m size offset hs
    → All IsSound hs
    → length hs ≤ size - offset
length-HoldsChunks m size offset [] c s = omega arith
length-HoldsChunks m size offset (x ∷ hs) c s =
    omega (arith, c.0, s.0.whole, length-HoldsChunks m size (offset + x.size) hs c.2 s.1)

-- Each step of JptrcrOpenFile before the first mapping succeeds.
pub record Opens (o : Opening) : Type 0 where
  pub create_file : o.create_file ≡ none
  pub on_disk : o.on_disk ≡ true
  pub get_file_size : o.get_file_size ≡ none
  pub create_file_mapping : o.create_file_mapping ≡ none
  pub malloc : o.malloc ≡ true
  pub modules_table : o.modules_table ≡ true
  pub clients_table : o.clients_table ≡ true
  pub sym_initialize : o.sym_initialize ≡ none

prepare-s_ok : (o : Opening) (size : ℕ) → Opens o → 0 < size → prepare o size ≡ Hr.s_ok
unfolding prepare
prepare-s_ok o size h p =
    rw
      (
        h.create_file, h.on_disk, h.get_file_size, h.create_file_mapping, h.malloc, h.modules_table,
        h.clients_table, h.sym_initialize,
      )
      (ground arith)

module _ (os : Os) (clients : Hashtable ClientId (List ℕ)) (modules : Hashtable ℕ LoadedModule)
    (around : Surroundings) (succeeds : Succeeds around) (system : MapsViews os) (opening : Opening)
    (ready : Opens opening) where
  -- The file that a reader has opened: for each client, where its buffers stand.
  pub record Opened (m : Memory) (size : ℕ) (log : List Entry) : Type 0 where
    pub file : File clients modules
    pub opens : open_file os clients modules around opening m size ≡ some (Hr.s_ok, file)
    pub window : IsOn m size file.view
    pub entries :
        (c : ClientId) → clients.get file.clients_table c ≡ appended none (offsets_of c log)

  unopened : Memory → ℕ → View
  unopened m size = record {
    content = m;
    file_size = size;
    mapped = false;
    offset = 0;
    map_index = 0;
  }

  opened : View → File clients modules
  opened w = record { view = w; clients_table = clients.empty; modules_table = modules.empty }

  open_file-supported :
      (m : Memory) (size : ℕ) (w : View)
      → 0 < size
      → read_file_header os (unopened m size) ≡ (Hr.s_ok, w)
      → open_file os clients modules around opening m size
        ≡ walk os clients modules around (w.file_size + 1) size_of_file_header (opened w)
  unfolding open_file unopened opened perform_file_inventory
  open_file-supported m size w h a = ground (arith, a, prepare-s_ok opening size ready h)

  Logged-Opened : (s : Sink) (log : List Entry) → Logged s log → Opened s.content s.file_size log
  unfolding unopened opened
  Logged-Opened s log l =
      let v = unopened s.content s.file_size in
      let (p, w, e, r) =
        map_at-Maps os v 0 system.0 system.1 (record { window = λ q. absurd (ground arith) })
          l.some_bytes in
      let on : IsOn s.content s.file_size w = record {
        content = r.same.content;
        file_size = r.same.file_size;
        consistent = r.consistent;
      } in
      let accepted : read_file_header os v ≡ (Hr.s_ok, w) =
        read_file_header-mapped os v w p e
        ∙ ap (λ h. (h, w))
            (rw (r.refers, r.same.content)
              ((check_header-s_ok (file_header_at s.content 0)).1 l.header)) in
      let holds : HoldsChunks s.content s.file_size size_of_file_header l.headers =
        Run-HoldsChunks s.content s.file_size size_of_file_header s.file_position l.headers
          l.laid.run l.laid.inside in
      let (g, t, u) =
        walk-Registers os clients modules around succeeds system s.content s.file_size
          (w.file_size + 1) size_of_file_header l.headers (opened w) on holds l.laid.sound
          (omega (
            arith,
            on.file_size,
            length-HoldsChunks s.content s.file_size size_of_file_header l.headers holds
                l.laid.sound,
          )) in
      record {
        file = g;
        opens = open_file-supported s.content s.file_size w l.some_bytes accepted ∙ t;
        window = u.window;
        entries = λ c. u.entries c ∙ rw (clients.get-empty c, l.offsets c) refl;
      }

  module _ (zw : Zw) (works : Writes zw) where
    -- What a session leaves: a sink that was created, a log of its buffers, each of which stands in the file where the log
    -- says, and a file that opens with, for each client, the offsets that the log has for it.
    pub record ReadsBack (empty_file : Memory) (events : List Event) : Type 0 where
      pub sink : Sink
      pub creates :
          create_default_event_sink zw status_success true empty_file ≡ (status_success, some sink)
      pub log : List Entry
      pub complete : contents log ≡ buffers events
      pub stands : All (Stands (session zw events sink)) log
      pub opened : Opened (session zw events sink).content (session zw events sink).file_size log

    -- Suppose that the buffers handed to a new sink hold one or more whole transitions, and fit into a
    -- segment together with their chunk and client header; that the ids of their threads are numbers of
    -- 32 bits; that every image event handed to it is an image chunk with a reserved field of 0 and a
    -- size that is that of its bytes, more than its header, aligned, and at most a segment, which the
    -- code does not ensure; that the writes succeed; and that on the reader's side the file can be
    -- opened and mapped, the system maps and unmaps views, and all allocations and path conversions
    -- succeed. Then there is a log of exactly these buffers, in order, each of which stands whole in
    -- the file, as the chunk of its client, where the log says; JptrcrOpenFile opens the file of the
    -- session; and what it registers for a client are the offsets in the log of the buffers of that
    -- client, in order, and none for other clients.
    pub session-ReadsBack :
        (empty_file : Memory) (events : List Event)
        → All IsEvent events
        → ReadsBack empty_file events
    session-ReadsBack empty_file events h =
        let (log, l, e) =
          session-Logged zw works events (created zw works empty_file) []
            (created-Logged zw works empty_file) h in
        record {
          sink = created zw works empty_file;
          creates = create-created zw works empty_file;
          log = log;
          complete = e;
          stands = l.kept;
          opened = Logged-Opened (session zw events (created zw works empty_file)) log l;
        }
