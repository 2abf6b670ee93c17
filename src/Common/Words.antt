-- ===== src/Common/Words.antt =====
-- Go's encoding/binary: a word of n bytes, lowest byte first.
use layer.Base.{
  ℕ, zero, suc, ◌+◌, ◌*◌, ◌/◌, ◌%◌, ◌^◌, ◌<◌, ◌≡◌, refl, ap, arith, List, [], ◌∷◌, length, All,
}
use native.Mathlib.Nat.{pow-suc}

abbrev pub IsByte : ℕ → Type 0
IsByte b = b < 256

-- `PutUint16`, `PutUint32` and `PutUint64` of `binary.LittleEndian`, at n = 2, 4 and 8.
unfoldable pub le_bytes : ℕ → ℕ → List ℕ
le_bytes zero v = []
le_bytes (suc n) v = v % 256 ∷ le_bytes n (v / 256)

-- `Uint16`, `Uint32` and `Uint64` of `binary.LittleEndian`.
unfoldable pub le_value : List ℕ → ℕ
le_value [] = 0
le_value (b ∷ bs) = b + 256 * le_value bs

pub length-le_bytes : (n v : ℕ) → length (le_bytes n v) ≡ n
unfolding le_bytes
length-le_bytes zero v = refl
length-le_bytes (suc n) v = ap suc (length-le_bytes n (v / 256))

pub le_bytes-IsByte : (n v : ℕ) → All IsByte (le_bytes n v)
unfolding le_bytes
le_bytes-IsByte zero v = tt
le_bytes-IsByte (suc n) v = (omega arith, le_bytes-IsByte n (v / 256))

pub le_value-le_bytes : (n v : ℕ) → v < 256 ^ n → le_value (le_bytes n v) ≡ v
unfolding le_bytes le_value
le_value-le_bytes zero v h = omega arith
le_value-le_bytes (suc n) v h =
    omega (arith, le_value-le_bytes n (v / 256) (omega (arith, pow-suc 256 n)))

pub le_bytes-le_value :
    (n : ℕ) (bs : List ℕ) → length bs ≡ n → All IsByte bs → le_bytes n (le_value bs) ≡ bs
unfolding le_bytes le_value
le_bytes-le_value zero [] h b = refl
le_bytes-le_value zero (x ∷ bs) h b = absurd (omega arith)
le_bytes-le_value (suc n) [] h b = absurd (omega arith)
le_bytes-le_value (suc n) (x ∷ bs) h (bx, bb) =
    let low : (x + 256 * le_value bs) % 256 ≡ x = omega arith in
    let high : (x + 256 * le_value bs) / 256 ≡ le_value bs = omega arith in
    rw (low, high, le_bytes-le_value n bs (omega arith) bb)

pub le_value-lt : (n : ℕ) (bs : List ℕ) → length bs ≡ n → All IsByte bs → le_value bs < 256 ^ n
unfolding le_value
le_value-lt zero [] h b = omega arith
le_value-lt zero (x ∷ bs) h b = absurd (omega arith)
le_value-lt (suc n) [] h b = absurd (omega arith)
le_value-lt (suc n) (x ∷ bs) h (bx, bb) =
    omega (arith, pow-suc 256 n, le_value-lt n bs (omega arith) bb)
