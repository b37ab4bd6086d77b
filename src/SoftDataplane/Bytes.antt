-- ===== src/SoftDataplane/Bytes.antt =====
-- Frames as lists of bytes, and slices of them. `none` is the panic of an access out of bounds.
pub mod Writes
use sarena.Prelude.{
  ℕ, zero, suc, ◌+◌, ◌*◌, ◌/◌, ◌%◌, ◌≡◌, refl, List, [], ◌∷◌, Option, none, some, leb,
  if◌then◌else◌, arith, length, get_or, set, length-set,
}

infixl 5 ◌>>=◌
abbrev pub ◌>>=◌ {ℓ κ} : {A : Type ℓ} {B : Type κ} → Option A → (A → Option B) → Option B
none >>= f = none
some a >>= f = f a

abbrev pub byte_at : List ℕ → ℕ → ℕ
byte_at frame i = get_or frame i 0

-- `u16::from_be_bytes` and `to_be_bytes`.
abbrev pub be16 : ℕ → ℕ → ℕ
be16 hi lo = hi * 256 + lo

abbrev pub be_bytes16 : ℕ → List ℕ
be_bytes16 n = (n / 256) ∷ (n % 256) ∷ []

-- `Ipv4Addr::new` and `octets`.
abbrev pub be32 : ℕ → ℕ → ℕ → ℕ → ℕ
be32 a b c d = ((a * 256 + b) * 256 + c) * 256 + d

abbrev pub octets : ℕ → List ℕ
octets n = (n / 16777216) ∷ (n / 65536 % 256) ∷ (n / 256 % 256) ∷ (n % 256) ∷ []

unfoldable pub overwrite : ℕ → List ℕ → List ℕ → List ℕ
overwrite offset [] frame = frame
overwrite offset (b ∷ bytes) frame = overwrite (offset + 1) bytes (set frame offset b)

-- `frame[offset..offset + n].copy_from_slice(bytes)`, and writes of single bytes.
unfoldable pub put_at : ℕ → List ℕ → List ℕ → Option (List ℕ)
put_at offset bytes frame =
    if leb (offset + length bytes) (length frame) then some (overwrite offset bytes frame) else none

unfoldable pub taken : ℕ → ℕ → List ℕ → List ℕ
taken offset zero frame = []
taken offset (suc n) frame = byte_at frame offset ∷ taken (offset + 1) n frame

-- `&frame[offset..offset + n]`.
unfoldable pub slice : ℕ → ℕ → List ℕ → Option (List ℕ)
slice offset n frame = if leb (offset + n) (length frame) then some (taken offset n frame) else none

pub length-overwrite :
    (offset : ℕ) (bytes frame : List ℕ) → length (overwrite offset bytes frame) ≡ length frame
unfolding overwrite
length-overwrite offset [] frame = refl
length-overwrite offset (b ∷ bytes) frame =
    omega
      (arith, length-overwrite (offset + 1) bytes (set frame offset b), length-set frame offset b)
