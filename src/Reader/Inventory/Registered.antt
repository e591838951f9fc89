-- ===== src/Reader/Inventory/Registered.antt =====
-- Which chunks the inventory registers for which client.
use ntrace.Base.{
  ℕ, zero, suc, ◌+◌, ◌<◌, ◌≡◌, refl, ap, subst, ◌∙◌, ◌≢◌, ◌↔◌, inl, inr, true, ◌&&◌, Option, some,
  none, List, [], ◌∷◌, ◌++◌, ◌==◌, if◌then◌else◌, arith, All, length, append_assoc, Bool-cases,
  Option-cases,
}
use ntrace.Base.Bytes.{Memory}
use ntrace.Base.Table.{Hashtable}
use ntrace.Format.{ClientId, ChunkHeader, chunk_header_at, client_at, chunk_type_trace_buffer}
use ntrace.Format.Layout.{HoldsChunks, IsSound}
use ntrace.Reader.{Hr, Os, View, Pointer, target}
use ntrace.Reader.Map.Window.{IsOn, MapsViews, map_at-Maps, map_at-ends}
use ntrace.Reader.Clients.{equals_client, register_trace_buffer_client, Mallocs}
use ntrace.Reader.Modules.{LoadedModule, load_module}
use ntrace.Reader.Inventory.{File, Surroundings, check_chunk, take_chunk, visit, walk}
use ntrace.Reader.Inventory.Chunks.{walk-mapped, walk-eof, IsOn-visit}

-- The offsets of the trace chunks of a client, in the order of the file.
unfoldable pub trace_offsets : Memory → ClientId → ℕ → List ChunkHeader → List ℕ
trace_offsets m c offset [] = []
trace_offsets m c offset (h ∷ hs) =
    let rest = trace_offsets m c (offset + h.size) hs in
    if h.type == chunk_type_trace_buffer && equals_client (client_at m offset) c
    then offset ∷ rest
    else rest

-- The entry of a client behind further offsets; a client without chunks has none.
unfoldable pub appended : Option (List ℕ) → List ℕ → Option (List ℕ)
appended entry [] = entry
appended none (x ∷ xs) = some (x ∷ xs)
appended (some l) (x ∷ xs) = some (l ++ (x ∷ xs))

pub equals_client_iff : (a b : ClientId) → (equals_client a b ≡ true) ↔ (a ≡ b)
unfolding equals_client
equals_client_iff a b = (λ e. ground arith, λ e. ground arith)

appended-once :
    (o : Option (List ℕ)) (x : ℕ) (xs : List ℕ)
    → appended (appended o (x ∷ [])) xs ≡ appended o (x ∷ xs)
unfolding appended
appended-once none x [] = refl
appended-once none x (y ∷ ys) = refl
appended-once (some l) x [] = refl
appended-once (some l) x (y ∷ ys) = ap some (append_assoc l (x ∷ []) (y ∷ ys))

-- Memory and the symbol engine never fail.
abbrev pub Succeeds : Surroundings → Type 0
Succeeds around =
    (o : ℕ)
    → ((around.mallocs o).client ≡ true)
      × ((around.mallocs o).chunk_ref ≡ true)
      × ((around.loads o).malloc ≡ true)
      × ((around.loads o).to_wide.0 ≡ Hr.s_ok)

module _ (clients : Hashtable ClientId (List ℕ)) (mallocs : Mallocs) where
  register-s_ok :
      (t : clients.Table) (client : ClientId) (offset : ℕ)
      → mallocs.client ≡ true
      → mallocs.chunk_ref ≡ true
      → (register_trace_buffer_client clients mallocs t client offset).0 ≡ Hr.s_ok
  unfolding register_trace_buffer_client
  register-s_ok t client offset a b = ground arith

  get-register_self :
      (t : clients.Table) (client : ClientId) (offset : ℕ)
      → mallocs.client ≡ true
      → mallocs.chunk_ref ≡ true
      → clients.get (register_trace_buffer_client clients mallocs t client offset).1 client
        ≡ appended (clients.get t client) (offset ∷ [])
  unfolding register_trace_buffer_client appended
  get-register_self t client offset a b = elim (Option-cases (clients.get t client)) [
    | inl e ↦ ground (arith, clients.get-put_self (clients.put t client []).0 client (offset ∷ []))
    | inr (l, e) ↦ ground (arith, clients.get-put_self t client (l ++ (offset ∷ [])))
  ]

  get-register_ne :
      (t : clients.Table) (client c : ClientId) (offset : ℕ)
      → client ≢ c
      → clients.get (register_trace_buffer_client clients mallocs t client offset).1 c
        ≡ clients.get t c
  unfolding register_trace_buffer_client
  get-register_ne t client c offset n = elim (Option-cases (clients.get t client)) [
    | inl e ↦ ground (
      arith,
      clients.get-put_ne (clients.put t client []).0 client c (offset ∷ []) n,
      clients.get-put_ne t client c [] n,
    )
    | inr (l, e) ↦ ground (arith, clients.get-put_ne t client c (l ++ (offset ∷ [])) n)
  ]

  -- Registering adds the offset to the client's own list, and to no other.
  get-register :
      (t : clients.Table) (client c : ClientId) (offset : ℕ)
      → mallocs.client ≡ true
      → mallocs.chunk_ref ≡ true
      → clients.get (register_trace_buffer_client clients mallocs t client offset).1 c ≡ (
          if equals_client client c
          then appended (clients.get t c) (offset ∷ [])
          else clients.get t c)
  get-register t client c offset a b = elim (Bool-cases (equals_client client c)) [
    | inl e ↦
        let q = (equals_client_iff client c).0 e in
        rw e (
          subst
            (λ k.
              clients.get (register_trace_buffer_client clients mallocs t client offset).1 k
              ≡ appended (clients.get t k) (offset ∷ []))
            q (get-register_self t client offset a b))
    | inr e ↦
        rw e (
          get-register_ne t client c offset (λ q. ground (arith, (equals_client_iff client c).1 q)))
  ]

module _ (os : Os) (clients : Hashtable ClientId (List ℕ)) (modules : Hashtable ℕ LoadedModule)
    (around : Surroundings) (succeeds : Succeeds around) where
  -- A sound chunk is taken in; if it holds a trace, its client gets it.
  take_sound :
      (a offset : ℕ) (f : File clients modules) (c : ClientId)
      → IsSound (chunk_header_at f.view.content a)
      → let r = visit os clients modules around a offset f in
        (r.0 ≡ Hr.s_ok)
        × (clients.get r.1.clients_table c ≡ (
            if (chunk_header_at f.view.content a).type == chunk_type_trace_buffer
              && equals_client (client_at f.view.content a) c
            then appended (clients.get f.clients_table c) (offset ∷ [])
            else clients.get f.clients_table c))
  unfolding visit check_chunk take_chunk load_module
  take_sound a offset f c s =
      let (x, y, z, u) = succeeds offset in
      ground (
        arith,
        register-s_ok clients (around.mallocs offset) f.clients_table (client_at f.view.content a)
            offset x y,
        get-register clients (around.mallocs offset) f.clients_table (client_at f.view.content a) c
            offset x y,
      )

  take_known :
      (a offset : ℕ) (f : File clients modules) (c client : ClientId) (x : ChunkHeader)
      → chunk_header_at f.view.content a ≡ x
      → client_at f.view.content a ≡ client
      → IsSound x
      → clients.get (visit os clients modules around a offset f).1.clients_table c ≡ (
          if x.type == chunk_type_trace_buffer && equals_client client c
          then appended (clients.get f.clients_table c) (offset ∷ [])
          else clients.get f.clients_table c)
  take_known a offset f c client x q k s = rw (← q, ← k) (take_sound a offset f c (rw q s)).1

  module _ (system : MapsViews os) (m : Memory) (size : ℕ) where
    -- The table and the window behind the inventory of these chunks.
    pub record Registers (offset : ℕ) (hs : List ChunkHeader) (f g : File clients modules)
        : Type 0 where
      pub window : IsOn m size g.view
      pub entries :
          (c : ClientId)
          → clients.get g.clients_table c
            ≡ appended (clients.get f.clients_table c) (trace_offsets m c offset hs)

    continued :
        (fuel offset : ℕ) (x : ChunkHeader) (f : File clients modules) (w : View) (p : Pointer)
        (g : File clients modules)
        → let v = visit os clients modules around (target p) offset (record f { view = w }) in
          chunk_header_at w.content (target p) ≡ x
          → v.0 ≡ Hr.s_ok
          → walk os clients modules around fuel (offset + x.size) v.1 ≡ some (Hr.s_ok, g)
          → (elim v.0 [
            | Hr.s_ok ↦
                walk os clients modules around fuel
                  (offset + (chunk_header_at w.content (target p)).size)
                  v.1
            | e ↦ some (e, v.1)
          ])
            ≡ some (Hr.s_ok, g)
    continued fuel offset x f w p g q a t = ground arith

    behind :
        (offset : ℕ) (x : ChunkHeader) (hs : List ChunkHeader) (f f' : File clients modules)
        (c : ClientId)
        → clients.get f'.clients_table c ≡ (
            if x.type == chunk_type_trace_buffer && equals_client (client_at m offset) c
            then appended (clients.get f.clients_table c) (offset ∷ [])
            else clients.get f.clients_table c)
        → appended (clients.get f'.clients_table c) (trace_offsets m c (offset + x.size) hs)
          ≡ appended (clients.get f.clients_table c) (trace_offsets m c offset (x ∷ hs))
    unfolding trace_offsets
    behind offset x hs f f' c e = ground (
      arith,
      appended-once (clients.get f.clients_table c) offset (trace_offsets m c (offset + x.size) hs),
    )

    pub walk-Registers :
        (fuel offset : ℕ) (hs : List ChunkHeader) (f : File clients modules)
        → IsOn m size f.view
        → HoldsChunks m size offset hs
        → All IsSound hs
        → length hs < fuel
        → (g : File clients modules) × (walk os clients modules around fuel offset f
            ≡ some (Hr.s_ok, g))
          × Registers offset hs f g
    unfolding appended trace_offsets
    walk-Registers zero offset hs f i c s h = absurd (omega arith)
    walk-Registers (suc fuel) offset [] f i c s h = (
      f,
      walk-eof os clients modules around fuel offset f
          ((map_at-ends os f.view offset system.0 system.1).1 (rw i.file_size c)),
      record { window = i; entries = λ k. refl },
    )
    walk-Registers (suc fuel) offset (x ∷ hs) f i c s h =
        let (p, w, e, r) =
          map_at-Maps os f.view offset system.0 system.1 i.consistent (rw i.file_size c.0) in
        let f' : File clients modules = record f { view = w } in
        let v = visit os clients modules around (target p) offset f' in
        let q : chunk_header_at w.content (target p) ≡ x =
          rw (r.refers, r.same.content, i.content) c.1 in
        let a : v.0 ≡ Hr.s_ok =
          (take_sound (target p) offset f' (record { process_id = 0; thread_id = 0 })
            (rw q s.0)).0 in
        let (g, t, u) =
          walk-Registers fuel (offset + x.size) hs v.1
            (IsOn-visit os clients modules around m size f p w offset i r) c.2 s.1 (omega arith) in
        (
          g,
          rw (walk-mapped os clients modules around fuel offset f w p e)
              (continued fuel offset x f w p g q a t),
          record {
            window = u.window;
            entries = λ k.
                u.entries k
                ∙ behind offset x hs f v.1 k (
                    take_known (target p) offset f' k (client_at m offset) x q
                      (rw (r.refers, r.same.content, i.content)) s.0);
          },
        )
