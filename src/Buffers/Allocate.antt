-- ===== src/Buffers/Allocate.antt =====
-- The size of the blob of Jpfbt/jpfbt/buffer.c that holds the global state and the buffers behind it.
use ntrace.Base.{ℕ, ◌+◌, ◌*◌, ◌%◌, ◌^◌, Bool, ltb, if◌then◌else◌}

pub data Allocation : Type 0 where
  allocated : ℕ → Allocation
  no_memory invalid_parameter : Allocation

-- BufferStructSize; `buffer_offset` is the offset of the field Buffer.
unfoldable pub struct_size : ℕ → ℕ → ℕ
struct_size buffer_offset buffer_size = (buffer_offset + buffer_size) % 2 ^ 32

-- JpfbtpAllocateGlobalStateAndBuffers: the product is one of ULONGs. `global_size` is the size of
-- JPFBT_GLOBAL_DATA, and `available` tells of which sizes the allocator has memory.
unfoldable pub allocate : ℕ → ℕ → (ℕ → Bool) → ℕ → ℕ → Allocation
unfolding struct_size
allocate buffer_offset global_size available buffer_count buffer_size =
    let total = buffer_count * struct_size buffer_offset buffer_size % 2 ^ 32 in
    if ltb 0xffffffff total
    then invalid_parameter
    else if ltb 0xffffffff (total + global_size)
    then invalid_parameter
    else if available (total + global_size)
    then allocated (total + global_size)
    else no_memory

-- Where JpfbtpInitializeBuffersGlobalState puts the buffer of a number.
unfoldable pub buffer_at : ℕ → ℕ → ℕ → ℕ → ℕ
unfolding struct_size
buffer_at buffer_offset global_size buffer_size index =
    global_size + index * struct_size buffer_offset buffer_size
