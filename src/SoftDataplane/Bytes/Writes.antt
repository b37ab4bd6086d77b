-- ===== src/SoftDataplane/Bytes/Writes.antt =====
-- What a write into a frame changes, and the steps of a chain that succeeds.
use sarena.Prelude.{
  ℕ, zero, suc, ◌+◌, ◌≤◌, ◌<◌, ◌≡◌, refl, ap, ◌∙◌, inl, inr, List, [], ◌∷◌, Option, none, some, leb,
  length, arith, set, length-set, get_or-set_self, get_or-set_ne, Bool-cases,
}
use sarena.SoftDataplane.Bytes.{◌>>=◌, byte_at, put_at, overwrite, length-overwrite}

pub bind_some :
    {A B : Type 0} (m : Option A) (f : A → Option B) (b : B)
    → (m >>= f) ≡ some b
    → (a : A) × (m ≡ some a) × (f a ≡ some b)
bind_some none f b h = absurd (ground arith)
bind_some (some a) f b h = (a, refl, h)

-- `g` is `f` but for the offsets from `lo` up to `hi`.
pub record Within (lo hi : ℕ) (f g : List ℕ) : Type 0 where
  pub same_length : length g ≡ length f
  pub below : (j : ℕ) → j < lo → byte_at g j ≡ byte_at f j
  pub above : (j : ℕ) → hi ≤ j → byte_at g j ≡ byte_at f j

pub overwrite-below :
    (offset : ℕ) (bytes frame : List ℕ) (j : ℕ)
    → j < offset
    → byte_at (overwrite offset bytes frame) j ≡ byte_at frame j
unfolding overwrite
overwrite-below offset [] frame j h = refl
overwrite-below offset (b ∷ bytes) frame j h =
    overwrite-below (offset + 1) bytes (set frame offset b) j (omega arith)
    ∙ get_or-set_ne frame offset j b 0 (λ e. omega (arith, e))

pub overwrite-above :
    (offset : ℕ) (bytes frame : List ℕ) (j : ℕ)
    → offset + length bytes ≤ j
    → byte_at (overwrite offset bytes frame) j ≡ byte_at frame j
unfolding overwrite
overwrite-above offset [] frame j h = refl
overwrite-above offset (b ∷ bytes) frame j h =
    overwrite-above (offset + 1) bytes (set frame offset b) j (omega arith)
    ∙ get_or-set_ne frame offset j b 0 (λ e. omega (arith, e))

pub overwrite-inside :
    (offset : ℕ) (bytes frame : List ℕ) (j : ℕ)
    → offset + length bytes ≤ length frame
    → j < length bytes
    → byte_at (overwrite offset bytes frame) (offset + j) ≡ byte_at bytes j
unfolding overwrite
overwrite-inside offset [] frame j h k = absurd (omega arith)
overwrite-inside offset (b ∷ bytes) frame zero h k =
    ap (byte_at (overwrite (offset + 1) bytes (set frame offset b))) (omega arith)
    ∙ overwrite-below (offset + 1) bytes (set frame offset b) offset (omega arith)
    ∙ get_or-set_self frame offset b 0 (omega arith)
overwrite-inside offset (b ∷ bytes) frame (suc j) h k =
    ap (byte_at (overwrite (offset + 1) bytes (set frame offset b))) (omega arith)
    ∙ overwrite-inside (offset + 1) bytes (set frame offset b) j
        (omega (arith, length-set frame offset b)) (omega arith)

pub put_at_inv :
    (offset : ℕ) (bytes frame g : List ℕ)
    → put_at offset bytes frame ≡ some g
    → (g ≡ overwrite offset bytes frame) × (offset + length bytes ≤ length frame)
unfolding put_at
put_at_inv offset bytes frame g h = elim (Bool-cases (leb (offset + length bytes) (length frame))) [
  | inl e ↦ (ground (arith, h), ground arith)
  | inr e ↦ absurd (ground (arith, h))
]

pub put_at-Within :
    (offset : ℕ) (bytes frame g : List ℕ)
    → put_at offset bytes frame ≡ some g
    → Within offset (offset + length bytes) frame g
put_at-Within offset bytes frame g h =
    let (e, fits) = put_at_inv offset bytes frame g h in
    record {
      same_length = ap length e ∙ length-overwrite offset bytes frame;
      below = λ j l. ap (λ x. byte_at x j) e ∙ overwrite-below offset bytes frame j l;
      above = λ j l. ap (λ x. byte_at x j) e ∙ overwrite-above offset bytes frame j l;
    }
