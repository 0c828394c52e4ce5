-- ===== src/Sender/Shards/Split.antt =====
-- src/sender.rs: how a frame is split, and the counts of its shards.
use mathlib.Core.List.{flatten}
use fin_amor_s_ideal_udp_fiu.Base.{
  ℕ, ◌+◌, ◌*◌, ◌/◌, ◌≤◌, ◌<◌, ◌≡◌, ◌⊎◌, inl, inr, Bytes, ◌++◌, arith, add_usize, isize_max, ltb,
  if◌then◌else◌, length, replicate, take, All, All-append, All-replicate, length-append,
  length-replicate, take-append_of_length,
}
use fin_amor_s_ideal_udp_fiu.Error.{ok, err, too_many_shards}
use fin_amor_s_ideal_udp_fiu.Slice.{chunks_exact, pieces}
use fin_amor_s_ideal_udp_fiu.Slice.Pieces.{length-pieces, flatten-pieces, pieces-All_size}
use fin_amor_s_ideal_udp_fiu.Protocol.Layout.{shard_size}
use fin_amor_s_ideal_udp_fiu.Protocol.Padding.{pad_to_shard_size}
use fin_amor_s_ideal_udp_fiu.Protocol.Padding.Laws.{padding, pad_to_shard_size-eq}
use fin_amor_s_ideal_udp_fiu.Config.ParityRatio.{ParityRatio, IsPercent, parity_shards}
use fin_amor_s_ideal_udp_fiu.Config.ParityRatio.Bounds.{parity_shards_bounds}
use fin_amor_s_ideal_udp_fiu.Sender.Shards.{
  Shards, u16_max, split_payload, count_shards, split_frame,
}

-- A frame as `Vec<u8>` can hold it, with a shard's padding, and not empty.
pub record IsFrame (frame : Bytes) : Type 0 where
  pub fits : length frame + shard_size ≤ isize_max
  pub nonempty : 0 < length frame

-- The number of data shards of a frame: its length over 1400, rounded up.
abbrev pub data_count : Bytes → ℕ
data_count frame = (length frame + 1399) / shard_size

abbrev pub total_count : ParityRatio → Bytes → ℕ
total_count ratio frame = data_count frame + parity_shards ratio (data_count frame)

abbrev pub parts_of : ParityRatio → Bytes → Shards
parts_of ratio frame =
    split_payload (pad_to_shard_size frame) (data_count frame)
      (parity_shards ratio (data_count frame))

module _ (ratio : ParityRatio) (percent : IsPercent ratio) (frame : Bytes) (f : IsFrame frame) where
  length-pad_to_shard_size : length (pad_to_shard_size frame) ≡ data_count frame * shard_size
  length-pad_to_shard_size =
      let (content, short, len, exact) = pad_to_shard_size-eq frame (omega (arith, f.fits)) in
      omega arith

  data_count-pos : 0 < data_count frame
  data_count-pos = omega (arith, f.nonempty)

  parity-le : parity_shards ratio (data_count frame) ≤ data_count frame
  parity-le = (parity_shards_bounds ratio (data_count frame) percent (omega (arith, f.fits))).2

  -- The checks on the counts, on the padded frame.
  count_shards-eq : count_shards ratio (pad_to_shard_size frame) ≡ (
      if ltb u16_max (total_count ratio frame)
      then err (too_many_shards (total_count ratio frame))
      else ok (parts_of ratio frame))
  unfolding count_shards
  count_shards-eq =
      let count : length (pad_to_shard_size frame) / shard_size ≡ data_count frame =
        omega (arith, length-pad_to_shard_size) in
      let sum : add_usize (data_count frame) (parity_shards ratio (data_count frame))
          ≡ total_count ratio frame =
        omega (arith, parity-le, f.fits) in
      rw (count, sum) (ground (arith, data_count-pos))

  -- At a parity ratio of at most 100 percent, a frame that is not empty and fits in memory is split
  -- if its data and parity shards are at most 65535, and otherwise refused with their number; no
  -- sum of the counts wraps.
  pub split_frame_cases :
      ((total_count ratio frame ≤ u16_max) × (split_frame ratio frame ≡ ok (parts_of ratio frame)))
      ⊎ ((u16_max < total_count ratio frame)
          × (split_frame ratio frame ≡ err (too_many_shards (total_count ratio frame))))
  unfolding split_frame
  split_frame_cases = rw (count_shards-eq, split_frame) (ground (arith, f.nonempty))

-- What a split keeps of a frame.
pub record IsSplit (frame : Bytes) (s : Shards) : Type 0 where
  pub content : flatten (take s.data_shards s.slices) ≡ frame ++ replicate (padding frame) 0
  pub sizes : All (λ (slice : Bytes). length slice ≡ shard_size) s.slices
  pub count : length s.slices ≡ s.data_shards + s.parity_shards
  pub fits_u16 : s.data_shards + s.parity_shards ≤ u16_max
  pub nonempty : 0 < s.data_shards
  pub as_asked : s.data_shards ≡ data_count frame

module _ (ratio : ParityRatio) (percent : IsPercent ratio) (frame : Bytes) (f : IsFrame frame) where
  chunks-eq :
      chunks_exact shard_size (pad_to_shard_size frame)
      ≡ pieces shard_size (data_count frame) (pad_to_shard_size frame)
  unfolding chunks_exact
  chunks-eq =
      let count : length (pad_to_shard_size frame) / shard_size ≡ data_count frame =
        omega (arith, length-pad_to_shard_size ratio percent frame f) in
      rw count

  pub parts_of-IsSplit : total_count ratio frame ≤ u16_max → IsSplit frame (parts_of ratio frame)
  parts_of-IsSplit within =
      let size = length-pad_to_shard_size ratio percent frame f in
      let slices = pieces shard_size (data_count frame) (pad_to_shard_size frame) in
      let parity =
        replicate (parity_shards ratio (data_count frame)) (replicate {A = ℕ} shard_size 0) in
      let count : length slices ≡ data_count frame =
        length-pieces shard_size (data_count frame) (pad_to_shard_size frame) in
      record {
        content =
            rw
              (
                chunks-eq,
                take-append_of_length (data_count frame) slices parity count,
                flatten-pieces shard_size (data_count frame) (pad_to_shard_size frame) size,
              )
              (pad_to_shard_size-eq frame (omega (arith, f.fits))).0;
        sizes = rw chunks-eq (
            All-append (λ (slice : Bytes). length slice ≡ shard_size) slices parity
              (pieces-All_size shard_size (data_count frame) (pad_to_shard_size frame) size)
              (All-replicate (λ (slice : Bytes). length slice ≡ shard_size) _
                (replicate {A = ℕ} shard_size 0) (length-replicate {A = ℕ} shard_size 0)));
        count =
            rw (chunks-eq, length-append slices parity, count)
              (rw (
                length-replicate (parity_shards ratio (data_count frame))
                  (replicate {A = ℕ} shard_size 0)));
        fits_u16 = within;
        nonempty = data_count-pos ratio percent frame f;
        as_asked = λ i. data_count frame;
      }

  -- If a frame that is not empty and fits in memory is split, at a parity ratio of at most 100
  -- percent, the data slices put together are the frame and fewer than 1400 zeros, all slices have
  -- 1400 bytes, their number is the sum of the two counts, there is a data slice, and there are at
  -- most 65535 slices.
  pub split_frame-IsSplit : (s : Shards) → split_frame ratio frame ≡ ok s → IsSplit frame s
  split_frame-IsSplit s h = elim (split_frame_cases ratio percent frame f) [
    | inl (within, e) ↦
        let same : parts_of ratio frame ≡ s = ground (arith, e) in
        rw (← same) (parts_of-IsSplit within)
    | inr (over, e) ↦ absurd (ground (arith, e))
  ]
