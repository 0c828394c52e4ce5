-- ===== src/Receiver/Reassembly.antt =====
-- The receiver of SPEC.md §3.5 over the packets of one session: drop what does not open, read the
-- counts off a header, and have the erasure decoder recover the data slices. The decoder is the
-- receiver's; it is known by what the code over GF(2⁸) promises.
use mathlib.Core.List.{filter_map, flatten, Nodup}
use mathlib.Core.Option
use fin_amor_s_ideal_udp_fiu.Base.{
  ℕ, ◌+◌, ◌≤◌, ◌≡◌, Option, none, some, Bytes, List, [], ◌∷◌, map, Mem, length, take, get_elem?,
}
use fin_amor_s_ideal_udp_fiu.Crypto.{Opener}
use fin_amor_s_ideal_udp_fiu.Fec.{FecEngine, IsCodeword}
use fin_amor_s_ideal_udp_fiu.Receiver.{Received, receive}

-- The counts, and the slices at hand with their indices; the data slices, if they can be recovered.
abbrev pub Decoder : Type 0
Decoder = ℕ → ℕ → List (ℕ × Bytes) → Option (List Bytes)

-- The code corrects erasures: any `d` different slices of a codeword give back its data slices, in
-- whatever order and however often they are handed over.
pub record IsDecoder (engine : FecEngine) (decode : Decoder) : Type 0 where
  pub recovers :
      (d p : ℕ) (slices : List Bytes) (pieces : List (ℕ × Bytes)) (indices : List ℕ)
      → length slices ≡ d + p
      → IsCodeword engine d p slices
      → ((piece : ℕ × Bytes) → Mem piece pieces → get_elem? slices piece.0 ≡ some piece.1)
      → Nodup indices
      → ((i : ℕ) → Mem i indices → Mem i (map (λ (piece : ℕ × Bytes). piece.0) pieces))
      → d ≤ length indices
      → decode d p pieces ≡ some (take d slices)

abbrev pub piece : Received → ℕ × Bytes
piece r = (r.shard_index, r.shard)

abbrev pub assemble : Decoder → List Received → Option Bytes
assemble decode [] = none
assemble decode (first ∷ rest) =
    Option.map flatten (decode first.data_shards first.parity_shards (map piece (first ∷ rest)))

-- From the packets that arrived to the padded frame.
unfoldable pub reassemble : Opener → Decoder → List Bytes → Option Bytes
reassemble opener decode arrivals = assemble decode (filter_map (receive opener) arrivals)
