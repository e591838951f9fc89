-- ===== src/Sink/Events/Images.antt =====
-- The chunks that are queued when an image is loaded.
use ntrace.Base.{
  ℕ, ◌+◌, ◌-◌, ◌*◌, ◌/◌, ◌^◌, ◌≤◌, ◌<◌, ◌≡◌, refl, true, List, [], ◌∷◌, ◌++◌, length, length-append,
  length-replicate, All, arith, replicate,
}
use ntrace.Base.Bytes.{Memory, u16_bytes, u32_bytes, u64_bytes}
use ntrace.Format.{
  chunk_header_bytes, chunk_type_image_info, ImageInfo, image_info_at, segment_size, offset_of_path,
}
use ntrace.Sink.{OutChunk, Sink}
use ntrace.Sink.Agree.{HasBytes}
use ntrace.Sink.Laid.{IsOutput, bytes_of, length-chunk_header_bytes}
use ntrace.Sink.Events.Directory.{
  debug_bytes, length-bytes_at, IsEntry, length-debug_headers, debug_bytes_lem, debug_data_size_lem,
  Directory, HasBytes-left, HasBytes-right, debug_headers-Directory,
}
use ntrace.Sink.Events.{
  DebugEntry, debug_data_size, debug_headers, debug_data, bytes_at, struct_and_path_size,
  event_size, image_chunk, size_of_debug_directory, on_image_load, Dropped,
}

length-five :
    (a b c d e : List ℕ)
    → length (a ++ (b ++ (c ++ (d ++ e))))
      ≡ length a + (length b + (length c + (length d + length e)))
length-five a b c d e = omega (
  arith,
  length-append a (b ++ (c ++ (d ++ e))),
  length-append b (c ++ (d ++ e)),
  length-append c (d ++ e),
  length-append d e,
)

module _ (pool : Memory) (load_address size : ℕ) (path : List ℕ) (debug : List DebugEntry) where
  length-rest :
      All IsEntry debug
      → length path ≤ 0x7fff
      → struct_and_path_size (length path) + debug_bytes debug + 8 ≤ segment_size
      → (event_size (length path) debug
          ≡ (struct_and_path_size (length path) + debug_bytes debug + 7) / 8 * 8)
        × (8 + length (image_chunk pool load_address size path debug).rest
            ≡ event_size (length path) debug)
  unfolding image_chunk event_size
  length-rest h p f =
      let d = debug_data_size_lem debug (omega arith) in
      let b = debug_bytes_lem debug in
      let aligned = struct_and_path_size (length path) in
      let headers = size_of_debug_directory * length debug in
      let gap =
        bytes_at pool (offset_of_path + length path) (aligned - (offset_of_path + length path)) in
      let zeros : ℕ =
        event_size (length path) debug - (aligned + headers + debug_data_size debug) in
      let total : event_size (length path) debug ≡ (aligned + debug_bytes debug + 7) / 8 * 8 =
        omega (arith, d, b) in
      (
        total,
        omega (
          arith,
          d,
          b,
          total,
          length-five path gap (debug_headers headers debug) (debug_data debug) (replicate zeros 0),
          length-bytes_at pool (offset_of_path + length path)
              (aligned - (offset_of_path + length path)),
          length-debug_headers headers debug h,
          length-replicate {A = ℕ} zeros 0,
        ),
      )

  -- What the reader finds in the chunk: the image and its debug directory.
  abbrev pub described : ImageInfo
  described = record {
    load_address = load_address;
    size = size;
    debug_directory_offset = struct_and_path_size (length path);
    debug_directory_size = size_of_debug_directory * length debug;
    debug_size = debug_bytes debug;
    path_size = length path;
  }

  image_info_at-chunk :
      (m : Memory) (a : ℕ)
      → load_address < 2 ^ 64
      → size < 2 ^ 32
      → length path ≤ 0x7fff
      → debug_bytes debug < 2 ^ 16
      → HasBytes m a (bytes_of (image_chunk pool load_address size path debug))
      → image_info_at m a ≡ described
  unfolding image_chunk image_info_at chunk_header_bytes
  image_info_at-chunk m a l s p b new = ground (
    arith,
    debug_data_size_lem debug,
    debug_bytes_lem debug,
    new 8 (a + 8),
    new 9 (a + 8 + 1),
    new 10 (a + 8 + 2),
    new 11 (a + 8 + 3),
    new 12 (a + 8 + 4),
    new 13 (a + 8 + 4 + 1),
    new 14 (a + 8 + 4 + 2),
    new 15 (a + 8 + 4 + 3),
    new 16 (a + 16),
    new 17 (a + 16 + 1),
    new 18 (a + 16 + 2),
    new 19 (a + 16 + 3),
    new 20 (a + 20),
    new 21 (a + 20 + 1),
    new 22 (a + 22),
    new 23 (a + 22 + 1),
    new 24 (a + 24),
    new 25 (a + 24 + 1),
    new 26 (a + 26),
    new 27 (a + 26 + 1),
  )

  abbrev fields : List ℕ
  fields =
      u64_bytes load_address
      ++ (u32_bytes size
          ++ (u16_bytes described.debug_directory_offset
              ++ (u16_bytes described.debug_directory_size
                  ++ (u16_bytes (described.debug_directory_size + debug_data_size debug)
                      ++ u16_bytes (length path)))))

  abbrev gap : List ℕ
  gap =
      bytes_at pool (offset_of_path + length path)
        (struct_and_path_size (length path) - (offset_of_path + length path))

  abbrev headers : List ℕ
  headers = debug_headers described.debug_directory_size debug

  abbrev zeros : List ℕ
  zeros =
      replicate
        (event_size (length path) debug
          - (struct_and_path_size (length path)
              + size_of_debug_directory * length debug
              + debug_data_size debug))
        0

  abbrev behind : List ℕ
  behind = gap ++ (headers ++ (debug_data debug ++ zeros))

  module _ (m : Memory) (a : ℕ)
      (new : HasBytes m a (bytes_of (image_chunk pool load_address size path debug))) where
    behind_fields : HasBytes m (a + offset_of_path) (path ++ behind)
    unfolding image_chunk
    behind_fields =
        let chunk = image_chunk pool load_address size path debug in
        HasBytes-right m (a + 8) (a + offset_of_path) fields (path ++ behind) (omega arith) (
          HasBytes-left m (a + 8) (fields ++ (path ++ behind)) [] (
            HasBytes-right m a (a + 8) (chunk_header_bytes chunk.header)
              ((fields ++ (path ++ behind)) ++ [])
              (omega (arith, length-chunk_header_bytes chunk.header)) new))

    at_headers :
        HasBytes m (a + described.debug_directory_offset) (headers ++ (debug_data debug ++ zeros))
    at_headers =
        HasBytes-right m (a + offset_of_path + length path) (a + described.debug_directory_offset)
          gap (headers ++ (debug_data debug ++ zeros))
          (omega (
            arith,
            length-bytes_at pool (offset_of_path + length path)
                (struct_and_path_size (length path) - (offset_of_path + length path)),
          ))
          (HasBytes-right m (a + offset_of_path) (a + offset_of_path + length path) path behind refl
            behind_fields)

    chunk-Directory :
        All IsEntry debug
        → debug_bytes debug < 2 ^ 16
        → Directory m
            (a + described.debug_directory_offset)
            (a + described.debug_directory_offset + described.debug_directory_size)
            debug
    chunk-Directory w b =
        debug_headers-Directory m debug (a + described.debug_directory_offset) _
          described.debug_directory_size w refl (omega arith)
          (omega (arith, b, debug_bytes_lem debug))
          (HasBytes-left m _ headers (debug_data debug ++ zeros) at_headers)
          (HasBytes-left m _ (debug_data debug) zeros (
            HasBytes-right m (a + described.debug_directory_offset) _ headers
              (debug_data debug ++ zeros)
              (omega (arith, length-debug_headers described.debug_directory_size debug w))
              at_headers))

  -- A chunk that may be flushed, and that describes the image wherever it stands.
  pub record Describes (c : OutChunk) : Type 0 where
    pub output : IsOutput c
    pub type : c.header.type ≡ chunk_type_image_info
    pub image_info :
        (m : Memory) (a : ℕ) → HasBytes m a (bytes_of c) → image_info_at m a ≡ described
    pub image_path :
        (m : Memory) (a : ℕ) → HasBytes m a (bytes_of c) → HasBytes m (a + offset_of_path) path
    pub debug_directory :
        (m : Memory) (a : ℕ)
        → HasBytes m a (bytes_of c)
        → Directory m
            (a + described.debug_directory_offset)
            (a + described.debug_directory_offset + described.debug_directory_size)
            debug

  -- With memory for the event, a load address of 64 and a size of 32 bits, a path of at most 0x7fff
  -- bytes, and a debug directory that has, with its data, less than 2 ^ 16 bytes, loading an image
  -- queues one chunk before those that are queued, and no event is counted as lost. The chunk may be
  -- flushed, and the reader finds in it the image's address, size and path, and at the offset that it
  -- tells the debug directory: each entry with its first 16 bytes, the size of its data, no address,
  -- and the distance from the entry to its data.
  pub on_image_load-Describes :
      (s : Sink) (d : Dropped)
      → load_address < 2 ^ 64
      → size < 2 ^ 32
      → length path ≤ 0x7fff
      → All IsEntry debug
      → debug_bytes debug < 2 ^ 16
      → (c : OutChunk) × (on_image_load true pool load_address size path debug (s, d)
          ≡ (record s { image_info_queue = c ∷ s.image_info_queue }, d))
        × Describes c
  unfolding on_image_load image_chunk
  on_image_load-Describes s d l z p h b =
      let r = length-rest h p (omega arith) in
      (
        image_chunk pool load_address size path debug,
        ground arith,
        record {
          output = record {
            reserved = refl;
            known = omega arith;
            whole = omega (arith, r.0);
            small = omega (arith, r.0);
            aligned = omega (arith, r.0);
            counted = omega (arith, r.1);
          };
          type = refl;
          image_info = λ m a new. image_info_at-chunk m a l z p b new;
          image_path =
              λ m a new. HasBytes-left m (a + offset_of_path) path behind (behind_fields m a new);
          debug_directory = λ m a new. chunk-Directory m a new h b;
        },
      )
