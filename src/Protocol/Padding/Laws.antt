-- ===== src/Protocol/Padding/Laws.antt =====
-- src/protocol.rs: what `pad_to_shard_size` leaves in the buffer.
use fin_amor_s_ideal_udp_fiu.Base.{
  ℕ, ◌+◌, ◌-◌, ◌%◌, ◌≤◌, ◌<◌, ◌≡◌, refl, inl, inr, Bool-cases, Bytes, ◌++◌, append-nil, arith,
  isize_max, add_usize, ◌==◌, ==_iff, if◌then◌else◌, length, replicate, length-append,
  length-replicate,
}
use fin_amor_s_ideal_udp_fiu.Slice.{resize}
use fin_amor_s_ideal_udp_fiu.Protocol.Layout.{shard_size}
use fin_amor_s_ideal_udp_fiu.Protocol.Padding.{pad_to_shard_size}

-- A vector that grows keeps its elements.
resize-grow :
    (extra new_len : ℕ) (buf : Bytes)
    → new_len ≡ length buf + extra
    → 0 < extra
    → resize new_len 0 buf ≡ buf ++ replicate extra 0
unfolding resize
resize-grow extra new_len buf e h =
    let d : new_len - length buf ≡ extra = omega arith in rw d (ground arith)

-- How many zeros are appended.
abbrev pub padding : Bytes → ℕ
padding buf = if length buf % shard_size == 0 then 0 else shard_size - length buf % shard_size

pad_to_shard_size-append :
    (buf : Bytes)
    → length buf ≤ isize_max
    → pad_to_shard_size buf ≡ buf ++ replicate (padding buf) 0
unfolding pad_to_shard_size replicate
pad_to_shard_size-append buf h = elim (Bool-cases (length buf % shard_size == 0)) [
  | inl exact ↦ rw (exact, append-nil buf)
  | inr short ↦ rw short (
      resize-grow (shard_size - length buf % shard_size)
        (add_usize (length buf) (shard_size - length buf % shard_size)) buf (omega arith)
        (omega arith))
]

length-padded : (buf : Bytes) → length (buf ++ replicate (padding buf) 0) ≡ length buf + padding buf
length-padded buf =
    omega (
      arith,
      length-append buf (replicate (padding buf) 0),
      length-replicate {A = ℕ} (padding buf) 0,
    )

-- A buffer that fits in memory keeps its content and gets fewer than 1400 zeros, as many as make
-- its length a multiple of 1400.
pub pad_to_shard_size-eq :
    (buf : Bytes)
    → length buf ≤ isize_max
    → (pad_to_shard_size buf ≡ buf ++ replicate (padding buf) 0)
      × (padding buf < shard_size)
      × (length (pad_to_shard_size buf) ≡ length buf + padding buf)
      × (length (pad_to_shard_size buf) % shard_size ≡ 0)
pad_to_shard_size-eq buf h =
    rw (pad_to_shard_size-append buf h, length-padded buf) (refl, ground arith, refl, ground arith)

-- Padding a buffer that fits in memory and was padded before changes nothing.
pad_to_shard_size_idem :
    (buf : Bytes)
    → length buf ≤ isize_max
    → pad_to_shard_size (pad_to_shard_size buf) ≡ pad_to_shard_size buf
unfolding pad_to_shard_size
pad_to_shard_size_idem buf h =
    rw ((==_iff (length (pad_to_shard_size buf) % shard_size) 0).1 (pad_to_shard_size-eq buf h).3)
