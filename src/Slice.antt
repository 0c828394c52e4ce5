-- ===== src/Slice.antt =====
-- The operations of Rust's slices and vectors that the program uses, with their panics.
pub mod Pieces
use fin_amor_s_ideal_udp_fiu.Base.{
  ℕ, zero, suc, ◌+◌, ◌-◌, ◌/◌, ◌≡◌, ◌≢◌, refl, append-nil, ◌&&◌, List, [], ◌∷◌, ◌++◌, append_assoc,
  arith, Bytes, leb, le→leb, ◌==◌, ==_iff, if◌then◌else◌, length, take, drop, replicate,
  length-append, take-append_of_length, drop-append_of_length,
}
use fin_amor_s_ideal_udp_fiu.Error.{Result, ok, panic}

-- `out[start..end].copy_from_slice(src)`: the range must lie in `out`, and the lengths must agree.
unfoldable pub copy_from_slice : ℕ → ℕ → Bytes → Bytes → Result Bytes
copy_from_slice start end out src =
    if leb start end && leb end (length out) && (length src == end - start)
    then ok (take start out ++ (src ++ drop end out))
    else panic

-- `Vec::resize`
unfoldable pub resize : ℕ → ℕ → Bytes → Bytes
resize new_len value buf =
    if leb new_len (length buf)
    then take new_len buf
    else buf ++ replicate (new_len - length buf) value

-- The first `count` pieces of `size` elements each.
unfoldable pub pieces {ℓ} : {A : Type ℓ} → ℕ → ℕ → List A → List (List A)
pieces size zero xs = []
pieces size (suc count) xs = take size xs ∷ pieces size count (drop size xs)

-- `chunks_exact`, for a size other than 0: a remainder is left out.
unfoldable pub chunks_exact {ℓ} : {A : Type ℓ} → ℕ → List A → List (List A)
unfolding pieces
chunks_exact size xs = pieces size (length xs / size) xs

-- A copy within bounds replaces the middle of three parts.
pub copy_from_slice-append :
    (start end : ℕ) (pre mid rest src : Bytes)
    → length pre ≡ start
    → length src ≡ length mid
    → length pre + length mid ≡ end
    → copy_from_slice start end (pre ++ (mid ++ rest)) src ≡ ok (pre ++ (src ++ rest))
unfolding copy_from_slice
copy_from_slice-append start end pre mid rest src a b c = rw (
  le→leb start end (omega arith),
  le→leb end (length (pre ++ (mid ++ rest)))
      (omega (arith, length-append pre (mid ++ rest), length-append mid rest)),
  (==_iff (length src) (end - start)).1 (omega arith),
  take-append_of_length start pre (mid ++ rest) a,
  ← append_assoc pre mid rest,
  drop-append_of_length end (pre ++ mid) rest (omega (arith, length-append pre mid)),
)

-- A copy to the end of the buffer.
pub copy_last :
    (start end : ℕ) (pre mid src : Bytes)
    → length pre ≡ start
    → length src ≡ length mid
    → length pre + length mid ≡ end
    → copy_from_slice start end (pre ++ mid) src ≡ ok (pre ++ src)
copy_last start end pre mid src a b c =
    rw (append-nil src, append-nil mid) at (copy_from_slice-append start end pre mid [] src a b c)

-- A copy of the whole buffer.
pub copy_all :
    (end : ℕ) (buf src : Bytes)
    → length src ≡ end
    → length buf ≡ end
    → copy_from_slice 0 end buf src ≡ ok src
copy_all end buf src a b = copy_last 0 end [] buf src refl (omega arith) (omega arith)

-- A copy between different lengths panics.
pub copy_mismatch :
    (end : ℕ) (buf src : Bytes) → length src ≢ end → copy_from_slice 0 end buf src ≡ panic
unfolding copy_from_slice
copy_mismatch end buf src h = ground arith
