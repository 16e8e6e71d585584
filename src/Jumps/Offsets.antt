-- ===== src/Jumps/Offsets.antt =====
-- The offsets that src/x64_gen/machine_code.c gives to jumps, for sizes that only grow.
use nibble.Prelude.{
  ℕ, zero, suc, ◌+◌, ◌-◌, ◌≤◌, ◌≡◌, refl, ap, Bool, true, false, ltb, leb, if◌then◌else◌, arith,
  inl, inr, Bool-cases, ◌==◌, ◌&&◌,
}
use nibble.Jumps.Relax.{Jmp, Offset, forward, backward, TextBBlock, has_jmp, fits_in_byte, equals}

-- The bytes that a block takes, with the best length of a jump that is not written
unfoldable pub block_size : TextBBlock → ℕ
unfolding has_jmp
block_size b =
    b.buffer_len
    + (if b.jmp_opcode_len == 0 && has_jmp b then 1 else b.jmp_opcode_len)
    + (if b.jmp_offset_len == 0 && has_jmp b then 1 else b.jmp_offset_len)

unfoldable pub sizes_of : (ℕ → TextBBlock) → ℕ → ℕ
unfolding block_size
sizes_of bblocks i = block_size (bblocks i)

-- The sum of `count` sizes from an index on
unfoldable pub sum_sizes : (ℕ → ℕ) → ℕ → ℕ → ℕ
sum_sizes sizes from zero = 0
sum_sizes sizes from (suc count) = sizes from + sum_sizes sizes (suc from) count

-- The offset of a jump, without a bound on the sizes
unfoldable pub exact_offset : (ℕ → ℕ) → ℕ → ℕ → Jmp → Offset
unfolding sum_sizes
exact_offset sizes buffer_len src jmp =
    let back = sum_sizes sizes jmp.target (src - jmp.target) + buffer_len in
    if ltb src jmp.target
    then forward (sum_sizes sizes (src + 1) (jmp.target - (src + 1)))
    else backward (back + (if leb back 126 then 2 else if jmp.is_jmpcc then 6 else 5))

-- One offset is as far as another or further, in the same direction.
pub data FurtherThan : Offset → Offset → Type 0 where
  further_on : {m n : ℕ} → m ≤ n → FurtherThan (forward m) (forward n)
  further_back : {m n : ℕ} → m ≤ n → FurtherThan (backward m) (backward n)

pub FurtherThan-refl : (o : Offset) → FurtherThan o o
FurtherThan-refl (forward n) = further_on (omega arith)
FurtherThan-refl (backward n) = further_back (omega arith)

pub FurtherThan-trans : {o p q : Offset} → FurtherThan o p → FurtherThan p q → FurtherThan o q
FurtherThan-trans (further_on h) (further_on k) = further_on (omega arith)
FurtherThan-trans (further_back h) (further_back k) = further_back (omega arith)

-- What does not fit in a byte does not fit when it is further.
pub fits_in_byte-FurtherThan :
    {o p : Offset} → FurtherThan o p → fits_in_byte o ≡ false → fits_in_byte p ≡ false
unfolding fits_in_byte
fits_in_byte-FurtherThan (further_on h) e = ground arith
fits_in_byte-FurtherThan (further_back h) e = ground arith

pub sum_sizes_mono :
    (s t : ℕ → ℕ)
    → ((i : ℕ) → s i ≤ t i)
    → (from count : ℕ) → sum_sizes s from count ≤ sum_sizes t from count
unfolding sum_sizes
sum_sizes_mono s t h from zero = omega arith
sum_sizes_mono s t h from (suc count) = omega (arith, h from, sum_sizes_mono s t h (suc from) count)

pub sum_sizes-split :
    (s : ℕ → ℕ) (from m n : ℕ)
    → sum_sizes s from (m + n) ≡ sum_sizes s from m + sum_sizes s (from + m) n
unfolding sum_sizes
sum_sizes-split s from zero n =
    let a : 0 + n ≡ n = omega arith in
    let b : from + 0 ≡ from = omega arith in
    let c : 0 + sum_sizes s from n ≡ sum_sizes s from n = omega arith in rw (a, b, c) refl
sum_sizes-split s from (suc m) n =
    let a : suc m + n ≡ suc (m + n) = omega arith in
    let b : from + suc m ≡ suc from + m = omega arith in
    rw (a, b) (omega (arith, sum_sizes-split s (suc from) m n))

back_mono :
    (d e : ℕ) (cc : Bool)
    → d ≤ e
    → d + (if leb d 126 then 2 else if cc then 6 else 5)
      ≤ e + (if leb e 126 then 2 else if cc then 6 else 5)
back_mono d e cc h = ground arith

-- An offset moves away when blocks grow.
pub exact_offset-FurtherThan :
    (s t : ℕ → ℕ)
    → ((i : ℕ) → s i ≤ t i)
    → (len src : ℕ) (jmp : Jmp)
    → FurtherThan (exact_offset s len src jmp) (exact_offset t len src jmp)
unfolding exact_offset
exact_offset-FurtherThan s t h len src jmp = elim (Bool-cases (ltb src jmp.target)) [
  | inl e ↦ rw e (further_on (sum_sizes_mono s t h (src + 1) (jmp.target - (src + 1))))
  | inr e ↦
      let grown = sum_sizes_mono s t h jmp.target (src - jmp.target) in
      rw e (
        further_back (
          back_mono (sum_sizes s jmp.target (src - jmp.target) + len)
            (sum_sizes t jmp.target (src - jmp.target) + len) jmp.is_jmpcc (omega (arith, grown))))
]

-- The test of the source finds an offset unchanged only where it is.
pub equals-FurtherThan : {o p : Offset} → FurtherThan o p → equals o p ≡ true → o ≡ p
unfolding equals
equals-FurtherThan (further_on {m = m} {n = n} h) e =
    let same : m ≡ n = ground (arith, e) in ap forward same
equals-FurtherThan (further_back {m = m} {n = n} h) e =
    let same : m ≡ n = ground (arith, e) in ap backward same
