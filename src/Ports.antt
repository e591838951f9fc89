-- ===== src/Ports.antt =====
-- Jpufbt/jpqlpc, the ports by which a client and the agent of a process exchange messages: port.c and
-- transfer.c. A port is a block of shared memory for one message, and a pair of events.
use ntrace.Base.{
  ℕ, ◌+◌, ◌-◌, ◌%◌, ◌^◌, ◌≤◌, ◌≡◌, Bool, true, false, not, ◌&&◌, ◌||◌, Option, none, some, List,
  ltb, leb, ◌==◌, if◌then◌else◌, arith,
}

pub data Status : Type 0 where
  success alerted timeout : Status
  invalid_parameter no_memory name_collision invalid_operation : Status
  cannot_create_port cannot_map_port cannot_create_evpair : Status

unfoldable pub is_success : Status → Bool
is_success success = true
is_success _ = false

-- JPQLPC_PORT, with the address of its shared memory.
pub record Port : Type 0 where
  pub is_server : Bool
  pub initial_receive_done : Bool
  pub base : ℕ
  pub size : ℕ

-- What a process has open: blocks, handles and views.
pub record Ledger : Type 0 where
  pub blocks : ℕ
  pub handles : ℕ
  pub views : ℕ

-- What creating a port asks of the system: the allocation granularity; malloc; CreateFileMapping and the
-- two calls of CreateEvent, each with whether the object existed before; and MapViewOfFile, with the
-- address.
pub record System : Type 0 where
  pub granularity : ℕ
  pub has_block : Bool
  pub mapping : Option Bool
  pub view : Option ℕ
  pub host : Option Bool
  pub peer : Option Bool

-- JPQLPC_MAX_PORT_NAME_CCH
abbrev max_port_name : ℕ
max_port_name = 100

-- JpqlpcClosePort, for a port of which a mapping, a view and so many events have been got.
unfoldable pub close_port : Bool → Bool → ℕ → Ledger → Ledger
close_port has_mapping has_view events l = record {
  blocks = l.blocks - 1;
  handles = l.handles - events - (if has_mapping then 1 else 0);
  views = if has_view then l.views - 1 else l.views;
}

-- The events of JpqlpcCreatePort; an event that existed before a new section is a collision of names.
unfoldable pub create_events : System → Port → Bool → Ledger → Status × Option Port × Ledger
unfolding close_port
create_events s port opened l =
    let one = record l { handles = l.handles + 1 } in
    let two = record l { handles = l.handles + 2 } in
    elim s.host [
      | none ↦ (cannot_create_evpair, none, close_port true true 0 l)
      | some host_existed ↦
          if host_existed && not opened
          then (name_collision, none, close_port true true 1 one)
          else elim s.peer [
            | none ↦ (cannot_create_evpair, none, close_port true true 1 one)
            | some peer_existed ↦
                if peer_existed && not opened
                then (name_collision, none, close_port true true 2 two)
                else (success, some port, two)
          ]
    ]

-- JpqlpcCreatePort, with pointers for its results; an existing section makes the port one of a client.
unfoldable pub create_port : System → ℕ → ℕ → Ledger → Status × Option Port × Ledger
unfolding create_events close_port
create_port s name_length size l =
    let l1 = record l { blocks = l.blocks + 1 } in
    let l2 = record l1 { handles = l.handles + 1 } in
    let l3 = record l2 { views = l.views + 1 } in
    if size == 0 || not (size % s.granularity == 0)
    then (invalid_parameter, none, l)
    else if name_length == 0 || leb max_port_name name_length
    then (invalid_parameter, none, l)
    else if not s.has_block
    then (no_memory, none, l)
    else elim s.mapping [
      | none ↦ (cannot_create_port, none, close_port false false 0 l1)
      | some existed ↦ elim s.view [
        | none ↦ (cannot_map_port, none, close_port true false 0 l2)
        | some base ↦
            create_events s
              (record {
                is_server = not existed;
                initial_receive_done = false;
                base = base;
                size = size;
              })
              existed l3
      ]
    ]

-- A port that cannot be created leaves nothing open.
pub create_port_fails :
    (s : System) (name_length size : ℕ) (l : Ledger)
    → is_success (create_port s name_length size l).0 ≡ false
    → let l' = (create_port s name_length size l).2 in
      (l'.blocks ≡ l.blocks) × (l'.handles ≡ l.handles) × (l'.views ≡ l.views)
unfolding create_port create_events close_port is_success
create_port_fails s name_length size l h = (ground (arith, h), ground (arith, h), ground (arith, h))

-- JPQLPC_MESSAGE, with its address. The sizes are ULONGs.
pub record Message : Type 0 where
  pub address : ℕ
  pub total_size : ℕ
  pub payload_size : ℕ
  pub content : List ℕ

abbrev size_of_message : ℕ
size_of_message = 12

-- How the wait for the peer ends.
pub data Wait : Type 0 where
  wait_ends wait_alerted wait_timeout : Wait

unfoldable pub status_of_wait : Wait → Status
status_of_wait wait_ends = success
status_of_wait wait_alerted = alerted
status_of_wait wait_timeout = timeout

-- JpqlpcSendReceive up to the signal: the status of a refusal, or the message in the shared memory.
-- `shared` is the message that is there.
unfoldable pub send : Port → Message → Message → Option Status × Message
send port m shared =
    if port.is_server && not port.initial_receive_done
    then (some invalid_operation, shared)
    else if ltb port.base m.address && ltb m.address (port.base + port.size)
    then (some invalid_parameter, shared)
    else if ltb shared.total_size m.total_size
        || ltb m.total_size ((size_of_message + m.payload_size) % 2 ^ 32)
    then (some invalid_parameter, shared)
    else if m.address == port.base
    then (if shared.total_size == port.size then (none, m) else (some invalid_parameter, shared))
    else (none, record m { address = port.base; total_size = port.size })

-- JpqlpcSendReceive: `wait` is how the wait ends, and `reply` what stands in the shared memory then.
unfoldable pub send_receive :
    Port → Message → Message → Wait → Message → Status × Option Message × Message
unfolding send status_of_wait
send_receive port m shared wait reply =
    let (refused, sent) = send port m shared in
    elim refused [
      | some status ↦ (status, none, sent)
      | none ↦ elim wait [
        | wait_ends ↦ (success, some reply, reply)
        | w ↦ (status_of_wait w, none, sent)
      ]
    ]

-- JpqlpcReceive: a server's first wait, alerted or not.
unfoldable pub receive : Port → Bool → Message → Status × Option Message × Port
receive port is_alerted shared =
    if not port.is_server
    then (invalid_parameter, none, port)
    else if port.initial_receive_done
    then (invalid_operation, none, port)
    else (
      if is_alerted then alerted else success,
      some shared,
      record port { initial_receive_done = true },
    )

-- A message that is sent lies within the shared memory, which keeps its size.
pub send_within :
    (port : Port) (m shared : Message)
    → shared.total_size ≡ port.size
    → (m.address ≡ port.base → m.total_size ≡ shared.total_size)
    → (send port m shared).0 ≡ none
    → (m.total_size ≤ port.size) × ((send port m shared).1.total_size ≡ port.size)
unfolding send
send_within port m shared e f h = (ground (arith, e, h), ground (arith, e, f, h))
