-- ===== src/Tests/Copies.antt =====
-- The simplest erasure code: one data slice, and parity slices that are copies of it. Any slice
-- gives the data back; without parity the decoder puts the slices in order.
use mathlib.Core.List.{Nodup, mem-cons, mem-cons_self, Mem-prop, mem-map, not-mem-nil}
use mathlib.Core.Logic.Or
use mathlib.Core.Logic.{∥∥₁_elim}
use native.Mathlib.Bridge.{le_prop}
use fin_amor_s_ideal_udp_fiu.Base.{
  ℕ, zero, suc, length-map, take-of_length, ◌+◌, ◌≤◌, ◌<◌, ◌≡◌, refl, sym, ap, ◌∙◌, subst, inl, inr,
  Option, none, some, Bytes, List, [], ◌∷◌, map, Mem, arith, length, take, get_elem?, All, ⊤, ltb,
  lt→ltb, ◌==◌, ==_iff, if◌then◌else◌, Bool-cases,
}
use fin_amor_s_ideal_udp_fiu.Error.{ok}
use fin_amor_s_ideal_udp_fiu.Fec.{ReedSolomon, good, bad, reed_solomon_engine, IsCodeword}
use fin_amor_s_ideal_udp_fiu.Fec.Engine.{IsReedSolomon}
use fin_amor_s_ideal_udp_fiu.Receiver.Reassembly.{Decoder, IsDecoder}
use fin_amor_s_ideal_udp_fiu.Tests.Below.{all_below}

abbrev pub copy_all_of : List Bytes → List Bytes
copy_all_of [] = []
copy_all_of (x ∷ xs) = x ∷ map (λ (y : Bytes). x) xs

abbrev pub copies : ReedSolomon ⊤
copies = record {
  new = λ d p.
      if ltb 256 (d + p)
      then bad "TooManyShards"
      else if d == 1
      then good tt
      else bad "OneDataShard";
  encode = λ c shards. good (copy_all_of shards);
}

-- The slice with an index among some pieces, and the slices with the indices from `start` on.
slice_at : ℕ → List (ℕ × Bytes) → Option Bytes
slice_at i [] = none
slice_at i (q ∷ pieces) = if q.0 == i then some q.1 else slice_at i pieces

push : Option Bytes → Option (List Bytes) → Option (List Bytes)
push none rest = none
push (some slice) none = none
push (some slice) (some rest) = some (slice ∷ rest)

gather : List (ℕ × Bytes) → ℕ → ℕ → Option (List Bytes)
unfolding slice_at push
gather pieces start zero = some []
gather pieces start (suc count) = push (slice_at start pieces) (gather pieces (start + 1) count)

unfoldable pub decode_copies : Decoder
unfolding gather
decode_copies d zero pieces = gather pieces 0 d
decode_copies d (suc p) [] = none
decode_copies d (suc p) (q ∷ pieces) = some (q.1 ∷ [])

slice_at-mem :
    (slices : List Bytes) (pieces : List (ℕ × Bytes)) (i : ℕ)
    → ((q : ℕ × Bytes) → Mem q pieces → get_elem? slices q.0 ≡ some q.1)
    → Mem i (map (λ (q : ℕ × Bytes). q.0) pieces)
    → slice_at i pieces ≡ get_elem? slices i
unfolding slice_at
slice_at-mem slices [] i consistent m = absurd (not-mem-nil m)
slice_at-mem slices (q ∷ pieces) i consistent m = elim (Bool-cases (q.0 == i)) [
  | inl found ↦
      rw found (sym (consistent q mem-cons_self) ∙ ap (get_elem? slices) ((==_iff q.0 i).0 found))
  | inr other ↦ rw other (
      slice_at-mem slices pieces i (λ r mr. consistent r (mem-cons.1 (Or.inr mr)))
        (Or.elim Mem-prop (mem-cons.0 m) (λ e. absurd (ground arith)) (λ later. later)))
]

gather-eq :
    (pieces : List (ℕ × Bytes)) (start : ℕ) (slices : List Bytes)
    → ((j : ℕ) → j < length slices → slice_at (start + j) pieces ≡ get_elem? slices j)
    → gather pieces start (length slices) ≡ some slices
unfolding gather
gather-eq pieces start [] found = refl
gather-eq pieces start (slice ∷ slices) found =
    let zero_added : start + 0 ≡ start = omega arith in
    let first : slice_at start pieces ≡ some slice = rw zero_added at (found 0 (omega arith)) in
    let rest = gather-eq pieces (start + 1) slices (λ j below.
      let shifted : start + 1 + j ≡ start + suc j = omega arith in
      rw shifted (found (suc j) (omega arith))) in
    rw (first, rest)

get_elem?-lt :
    (slices : List Bytes) (i : ℕ) (x : Bytes) → get_elem? slices i ≡ some x → i < length slices
get_elem?-lt [] i x h = absurd (ground arith)
get_elem?-lt (s ∷ slices) zero x h = omega arith
get_elem?-lt (s ∷ slices) (suc i) x h = omega (arith, get_elem?-lt slices i x h)

encoded_copies :
    (shards slices : List Bytes) (d p : ℕ)
    → (reed_solomon_engine copies).encode d p shards ≡ ok slices
    → (d ≡ 1) × (copy_all_of shards ≡ slices)
unfolding reed_solomon_engine
encoded_copies shards slices d p h = elim (Bool-cases (ltb 256 (d + p))) [
  | inl over ↦ absurd (ground arith)
  | inr fits ↦ elim (Bool-cases (d == 1)) [
    | inr more ↦ absurd (ground arith)
    | inl one ↦ ((==_iff d 1).0 one, ground arith)
  ]
]

get_elem?-const :
    (y : Bytes) (ys : List Bytes) (i : ℕ) (x : Bytes)
    → get_elem? (map (λ (z : Bytes). y) ys) i ≡ some x
    → y ≡ x
get_elem?-const y [] i x h = absurd (ground arith)
get_elem?-const y (z ∷ ys) zero x h = ground arith
get_elem?-const y (z ∷ ys) (suc i) x h = get_elem?-const y ys i x h

-- Every slice of a codeword with parity is its first.
get_elem?-copy_all_of :
    (shards : List Bytes) (i : ℕ) (x : Bytes)
    → get_elem? (copy_all_of shards) i ≡ some x
    → x ∷ [] ≡ take 1 (copy_all_of shards)
unfolding take
get_elem?-copy_all_of [] i x h = absurd (ground arith)
get_elem?-copy_all_of (y ∷ ys) zero x h = ground arith
get_elem?-copy_all_of (y ∷ ys) (suc i) x h = ap (λ z. z ∷ []) (sym (get_elem?-const y ys i x h))

length-copy_all_of : (shards : List Bytes) → length (copy_all_of shards) ≡ length shards
length-copy_all_of [] = refl
length-copy_all_of (x ∷ xs) = ap suc (length-map (λ (y : Bytes). x) xs)

copies_size :
    (size : ℕ) (x : Bytes) (xs : List Bytes)
    → length x ≡ size
    → All (λ (shard : Bytes). length shard ≡ size) (map (λ (y : Bytes). x) xs)
copies_size size x [] h = tt
copies_size size x (y ∷ xs) h = (h, copies_size size x xs h)

size-copy_all_of :
    (size : ℕ) (shards : List Bytes)
    → All (λ (shard : Bytes). length shard ≡ size) shards
    → All (λ (shard : Bytes). length shard ≡ size) (copy_all_of shards)
size-copy_all_of size [] h = tt
size-copy_all_of size (x ∷ xs) h = (h.0, copies_size size x xs h.0)

one_data_slice : (d p : ℕ) → copies.new d p ≡ good tt → d ≡ 1
one_data_slice d p h = elim (Bool-cases (ltb 256 (d + p))) [
  | inl over ↦ absurd (ground arith)
  | inr fits ↦ elim (Bool-cases (d == 1)) [
    | inr more ↦ absurd (ground arith)
    | inl one ↦ (==_iff d 1).0 one
  ]
]

first-copy_all_of : (shards : List Bytes) → take 1 (copy_all_of shards) ≡ take 1 shards
unfolding take
first-copy_all_of [] = refl
first-copy_all_of (x ∷ xs) = refl

pub copies-IsReedSolomon : IsReedSolomon copies
copies-IsReedSolomon = record {
  keeps_data = λ d p c shards {out} e h n.
      rw (one_data_slice d p (ground arith))
        (rw (← first-copy_all_of shards) (ap (take 1) (ground arith)));
  keeps_count = λ c shards {out} h. ground (arith, length-copy_all_of shards);
  keeps_size = λ size c shards {out} h a.
      subst (All (λ (shard : Bytes). length shard ≡ size)) (ground arith)
        (size-copy_all_of size shards a);
  at_most_256 = λ d p h. ("TooManyShards", rw (lt→ltb 256 (d + p) h));
}

decode_with_parity :
    (d p : ℕ) (slices : List Bytes) (pieces : List (ℕ × Bytes))
    → 0 < length pieces
    → IsCodeword (reed_solomon_engine copies) d (suc p) slices
    → ((q : ℕ × Bytes) → Mem q pieces → get_elem? slices q.0 ≡ some q.1)
    → decode_copies d (suc p) pieces ≡ some (take d slices)
unfolding decode_copies
decode_with_parity d p slices [] some_piece code consistent = absurd (omega arith)
decode_with_parity d p slices (q ∷ pieces) some_piece (inl none_asked) consistent =
    absurd (omega arith)
decode_with_parity d p slices (q ∷ pieces) some_piece (inr (shards, count, enc)) consistent =
    let (one, same) = encoded_copies shards slices d (suc p) enc in
    rw (one, ← same)
      (ap some (get_elem?-copy_all_of shards q.0 q.1 (rw same (consistent q mem-cons_self))))

mem-positive :
    (i : ℕ) (pieces : List (ℕ × Bytes))
    → Mem i (map (λ (q : ℕ × Bytes). q.0) pieces)
    → 0 < length pieces
mem-positive i [] m = absurd (not-mem-nil m)
mem-positive i (q ∷ pieces) m = omega arith

index_below :
    (d : ℕ) (slices : List Bytes) (pieces : List (ℕ × Bytes)) (i : ℕ)
    → length slices ≡ d
    → ((q : ℕ × Bytes) → Mem q pieces → get_elem? slices q.0 ≡ some q.1)
    → Mem i (map (λ (q : ℕ × Bytes). q.0) pieces)
    → i < d
index_below d slices pieces i count consistent m =
    ∥∥₁_elim (mem-map.0 m) le_prop (λ (found : (q : ℕ × Bytes) × Mem q pieces × (q.0 ≡ i)).
      let (q, held, same) = found in
      omega (arith, get_elem?-lt slices q.0 q.1 (consistent q held), same))

decode_without_parity :
    (d : ℕ) (slices : List Bytes) (pieces : List (ℕ × Bytes)) (indices : List ℕ)
    → length slices ≡ d
    → ((q : ℕ × Bytes) → Mem q pieces → get_elem? slices q.0 ≡ some q.1)
    → Nodup indices
    → ((i : ℕ) → Mem i indices → Mem i (map (λ (q : ℕ × Bytes). q.0) pieces))
    → d ≤ length indices
    → decode_copies d 0 pieces ≡ some (take d slices)
unfolding decode_copies
decode_without_parity d slices pieces indices count consistent distinct arrived enough =
    rw (← count, take-of_length (length slices) slices (omega arith))
      (gather-eq pieces 0 slices (λ j below.
        let zero_added : 0 + j ≡ j = omega arith in
        rw zero_added (
          slice_at-mem slices pieces j consistent (
            arrived j (
              all_below d indices distinct
                (λ i m. index_below d slices pieces i count consistent (arrived i m)) enough j
                (omega arith))))))

decode_copies-recovers :
    (d p : ℕ) (slices : List Bytes) (pieces : List (ℕ × Bytes)) (indices : List ℕ)
    → length slices ≡ d + p
    → IsCodeword (reed_solomon_engine copies) d p slices
    → ((q : ℕ × Bytes) → Mem q pieces → get_elem? slices q.0 ≡ some q.1)
    → Nodup indices
    → ((i : ℕ) → Mem i indices → Mem i (map (λ (q : ℕ × Bytes). q.0) pieces))
    → d ≤ length indices
    → decode_copies d p pieces ≡ some (take d slices)
decode_copies-recovers d zero slices pieces indices count code consistent distinct arrived enough =
    decode_without_parity d slices pieces indices (omega arith) consistent distinct arrived enough
decode_copies-recovers d (suc p) slices pieces [] count (inl no_parity) consistent distinct arrived
      enough =
    absurd (omega arith)
decode_copies-recovers d (suc p) slices pieces [] count (inr (shards, n, enc)) consistent distinct
      arrived enough =
    absurd (omega (arith, (encoded_copies shards slices d (suc p) enc).0))
decode_copies-recovers d (suc p) slices pieces (i ∷ indices) count code consistent distinct arrived
      enough =
    decode_with_parity d p slices pieces (mem-positive i pieces (arrived i mem-cons_self)) code
      consistent

pub decode_copies-IsDecoder : IsDecoder (reed_solomon_engine copies) decode_copies
decode_copies-IsDecoder = record { recovers = decode_copies-recovers }
