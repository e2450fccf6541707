-- ===== src/Rewriter/Export/Bytes.antt =====
-- Numbers in the output buffer of `ILRewriter::Export` in ProfilerHost/ILRewriter.cpp, as `ImportIL`
-- reads them.
use clr_profiling.Base.{
  ℕ, zero, suc, ◌+◌, ◌*◌, ◌/◌, ◌%◌, ◌^◌, ◌≤◌, ◌<◌, ◌≡◌, refl, ◌∙◌, ◌⊎◌, inl, inr, ◌==◌,
  if◌then◌else◌, arith, ne→==, ==-refl,
}
use clr_profiling.Rewriter.Import.{read_le}
use clr_profiling.Rewriter.Export.{Buffer, write_le}

-- The two buffers agree on the bytes from `lo` up to `hi`.
abbrev pub SameOn : ℕ → ℕ → Buffer → Buffer → Type 0
SameOn lo hi b b' = (i : ℕ) → lo ≤ i → i < hi → b' i ≡ b i

-- They agree but for the bytes from `lo` up to `hi`.
abbrev pub SameBut : ℕ → ℕ → Buffer → Buffer → Type 0
SameBut lo hi b b' = (i : ℕ) → (i < lo) ⊎ (hi ≤ i) → b' i ≡ b i

pub SameBut-write_le : (n at_ v : ℕ) (b : Buffer) → SameBut at_ (at_ + n) b (write_le n at_ v b)
unfolding write_le
SameBut-write_le zero at_ v b i h = refl
SameBut-write_le (suc n) at_ v b i (inl h) =
    SameBut-write_le n (at_ + 1) (v / 256) _ i (inl (omega (arith, h)))
    ∙ rw (ne→== i at_ (omega (arith, h)))
SameBut-write_le (suc n) at_ v b i (inr h) =
    SameBut-write_le n (at_ + 1) (v / 256) _ i (inr (omega (arith, h)))
    ∙ rw (ne→== i at_ (omega (arith, h)))

-- The lowest `n` bytes of a number, as a number.
low_bytes : ℕ → ℕ → ℕ
low_bytes zero v = 0
low_bytes (suc n) v = v % 256 + 256 * low_bytes n (v / 256)

pub read_le-SameOn :
    (n at_ : ℕ) (b b' : Buffer) → SameOn at_ (at_ + n) b b' → read_le n at_ b' ≡ read_le n at_ b
unfolding read_le
read_le-SameOn zero at_ b b' h = refl
read_le-SameOn (suc n) at_ b b' h = omega (
  arith,
  h at_,
  read_le-SameOn n (at_ + 1) b b' (λ i lo hi. h i (omega (arith, lo)) (omega (arith, hi))),
)

read_le-write_le : (n at_ v : ℕ) (b : Buffer) → read_le n at_ (write_le n at_ v b) ≡ low_bytes n v
unfolding read_le write_le low_bytes
read_le-write_le zero at_ v b = refl
read_le-write_le (suc n) at_ v b =
    let b1 : Buffer = λ i. if i == at_ then v % 256 else b i in
    let first : b1 at_ ≡ v % 256 = rw (==-refl at_) refl in
    let kept : write_le n (at_ + 1) (v / 256) b1 at_ ≡ b1 at_ =
      SameBut-write_le n (at_ + 1) (v / 256) b1 at_ (inl (omega arith)) in
    omega (arith, first, kept, read_le-write_le n (at_ + 1) (v / 256) b1)

module _ (at_ v : ℕ) (b : Buffer) where
  pub read_le-write_le1 : read_le 1 at_ (write_le 1 at_ v b) ≡ v % 2 ^ 8
  unfolding low_bytes
  read_le-write_le1 = read_le-write_le 1 at_ v b ∙ omega arith

  pub read_le-write_le2 : read_le 2 at_ (write_le 2 at_ v b) ≡ v % 2 ^ 16
  unfolding low_bytes
  read_le-write_le2 = read_le-write_le 2 at_ v b ∙ omega arith

  pub read_le-write_le4 : read_le 4 at_ (write_le 4 at_ v b) ≡ v % 2 ^ 32
  unfolding low_bytes
  read_le-write_le4 = read_le-write_le 4 at_ v b ∙ omega arith

  pub read_le-write_le8 : read_le 8 at_ (write_le 8 at_ v b) ≡ v % 2 ^ 64
  unfolding low_bytes
  read_le-write_le8 = read_le-write_le 8 at_ v b ∙ omega arith
