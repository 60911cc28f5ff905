-- ===== src/Sha256/Buffer.antt =====
-- `memcpy` into the 64-byte buffer, and what a copy leaves in its first bytes.
use polyfetch.Base.{
  ℕ, ◌+◌, ◌≤◌, ◌≡◌, arith, ◌++◌, length, take, drop, Bytes, length-append, length-take, length-drop,
  take-append_length, take_all, ◌∙◌,
}
use polyfetch.Sha256.{memcpy}

module _ (buf bytes : Bytes) (off n : ℕ) (inside : off + n ≤ length buf)
    (n_le : n ≤ length bytes) where
  pub length-memcpy : length (memcpy buf off bytes n) ≡ length buf
  length-memcpy = omega (
    arith,
    length-append (take off buf ++ take n bytes) (drop (off + n) buf),
    length-append (take off buf) (take n bytes),
    length-take off buf,
    length-take n bytes,
    length-drop (off + n) buf,
  )

  pub take-memcpy : take (off + n) (memcpy buf off bytes n) ≡ take off buf ++ take n bytes
  take-memcpy = take-append_length (off + n) (take off buf ++ take n bytes) (drop (off + n) buf) (
      omega (
        arith,
        length-append (take off buf) (take n bytes),
        length-take off buf,
        length-take n bytes,
      ))

pub take-memcpy_zero :
    (buf bytes : Bytes)
    → length bytes ≤ length buf
    → take (length bytes) (memcpy buf 0 bytes (length bytes)) ≡ bytes
take-memcpy_zero buf bytes fits =
    take-append_length (length bytes) (take (length bytes) bytes) (drop (0 + length bytes) buf)
      (omega (arith, length-take (length bytes) bytes))
    ∙ take_all (length bytes) bytes (omega arith)
