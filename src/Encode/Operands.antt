-- ===== src/Encode/Operands.antt =====
-- What the ModRM byte, the SIB byte and the displacement of X64_get_addr_bytes in src/x64_gen/machine_code.c address.
use nibble.Prelude.{
  ℕ, ◌+◌, ◌*◌, ◌/◌, ◌%◌, ◌^◌, ◌<◌, ◌≡◌, ◌≢◌, refl, ap, sym, Bool, true, false, not, ◌&&◌, List, [],
  ◌∷◌, ◌++◌, Option, none, some, ltb, ◌==◌, if◌then◌else◌, arith, inl, inr, Bool-cases, bit_and,
}
use nibble.Regs.{rsp}
use nibble.Encode.Addr.{
  ConstAddr, SibdAddr, global_addr, local_addr, str_lit_addr, float_lit_addr, AddrBytes, bit,
  mod_indirect, mod_indirect_disp_u8, modrm_byte, has_index, disp_is_imm8, disp_mod, Symbol,
}
use nibble.Encode.Text.{
  TextGenState, imm32_bytes, sib_of, push_bytes, patched, record_global_entity_offset_usage,
  write_addr_disp, is_linked,
}
use nibble.Encode.Decode.{
  Rm, based, indexed, rip_relative, read_u8, sign_extend, map_read, read_disp, read_sib, read_rm,
}
use nibble.Encode.Bytes.{bit_and-low, modrm_byte-digits, read_u32-imm32_bytes}

-- What an address of the source means
unfoldable pub rm_of : SibdAddr → Rm
unfolding has_index
rm_of (local_addr base_reg index_reg scale disp) =
    if has_index index_reg scale then indexed base_reg index_reg scale disp else based base_reg disp
rm_of (global_addr symbol) = rip_relative 0
rm_of (str_lit_addr lit) = rip_relative 0
rm_of (float_lit_addr lit) = rip_relative 0

-- The addresses that the processor has: with a base, and with an index that is not RSP under a scale of 1, 2, 4 or 8
pub data IsAddr : SibdAddr → Type 0 where
  base_alone :
      {base_reg index_reg scale disp : ℕ}
      → base_reg < 16
      → disp < 2 ^ 32
      → has_index index_reg scale ≡ false
      → IsAddr (local_addr base_reg index_reg scale disp)
  base_indexed :
      {base_reg index_reg scale disp : ℕ} (k : ℕ)
      → base_reg < 16
      → disp < 2 ^ 32
      → index_reg < 16
      → index_reg ≢ rsp
      → k < 4
      → scale ≡ 2 ^ k
      → IsAddr (local_addr base_reg index_reg scale disp)
  at_global : (symbol : Symbol) → IsAddr (global_addr symbol)
  at_str_lit : (lit : ℕ) → IsAddr (str_lit_addr lit)
  at_float_lit : (lit : ℕ) → IsAddr (float_lit_addr lit)

-- The bytes that write_addr_disp appends
unfoldable pub disp_bytes : AddrBytes → List ℕ
unfolding imm32_bytes
disp_bytes addr =
    if not addr.has_disp
    then []
    else if addr.mod_bits == mod_indirect && addr.rm == 5
    then imm32_bytes 0
    else if addr.mod_bits == mod_indirect_disp_u8
    then addr.disp % 256 ∷ []
    else imm32_bytes addr.disp

patched-buffer :
    (gs : TextGenState) (entity : Option ConstAddr) → (patched gs entity).buffer ≡ gs.buffer
unfolding patched record_global_entity_offset_usage
patched-buffer gs none = refl
patched-buffer gs (some entity) = elim (Bool-cases (is_linked entity)) [
  | inl e ↦ rw e refl
  | inr e ↦ rw e refl
]

pub append_nil : (xs : List ℕ) → xs ++ [] ≡ xs
append_nil [] = refl
append_nil (x ∷ xs) = ap (λ t. x ∷ t) (append_nil xs)

pub write_addr_disp-buffer :
    (gs : TextGenState) (addr : AddrBytes)
    → (write_addr_disp gs addr).buffer ≡ gs.buffer ++ disp_bytes addr
unfolding write_addr_disp disp_bytes push_bytes
write_addr_disp-buffer gs addr = elim (Bool-cases addr.has_disp) [
  | inr e ↦ rw e (sym (append_nil gs.buffer))
  | inl e ↦ elim (Bool-cases (addr.mod_bits == mod_indirect && addr.rm == 5)) [
    | inl f ↦ rw (e, f) (rw (patched-buffer gs addr.patch_entity) refl)
    | inr f ↦ elim (Bool-cases (addr.mod_bits == mod_indirect_disp_u8)) [
      | inl g ↦ rw (e, f, g) refl
      | inr g ↦ rw (e, f, g) refl
    ]
  ]
]

-- How an address is read back, with anything behind it
pub record AddrReads (addr : SibdAddr) (a : AddrBytes) : Type 0 where
  pub mode : a.mod_bits < 3
  pub low : a.rm < 16
  pub reads :
      (rest : List ℕ)
      → read_rm
          (bit a.rex_x)
          (bit a.rex_b)
          a.mod_bits
          (a.rm % 8)
          (sib_of a ++ (disp_bytes a ++ rest))
        ≡ some (record { value = rm_of addr; rest = rest })

unfoldable pub disp_tail : Bool → ℕ → List ℕ
disp_tail has_disp disp =
    if not has_disp then [] else if disp_is_imm8 disp then disp % 256 ∷ [] else imm32_bytes disp

sign_extend-disp :
    (disp : ℕ) → disp < 2 ^ 32 → disp_is_imm8 disp ≡ true → sign_extend 8 32 (disp % 256) ≡ disp
unfolding disp_is_imm8 sign_extend
sign_extend-disp disp h e = ground arith

read_disp-disp_tail :
    (hd : Bool) (disp : ℕ) (f : ℕ → Rm) (rest : List ℕ)
    → disp < 2 ^ 32
    → (hd ≡ false → disp ≡ 0)
    → read_disp (disp_mod hd disp) f (disp_tail hd disp ++ rest)
      ≡ some (record { value = f disp; rest = rest })
unfolding read_disp disp_mod disp_tail map_read read_u8
read_disp-disp_tail false disp f rest h none_if = rw (none_if refl) refl
read_disp-disp_tail true disp f rest h none_if = elim (Bool-cases (disp_is_imm8 disp)) [
  | inl e ↦
      let same : sign_extend 8 32 (disp % 256) ≡ disp = sign_extend-disp disp h e in
      rw (e, same) refl
  | inr e ↦ rw (e, read_u32-imm32_bytes disp rest h) refl
]

pub disp_mod-below : (hd : Bool) (disp : ℕ) → disp_mod hd disp < 3
unfolding disp_mod
disp_mod-below hd disp = ground arith

disp_mod-zero : (hd : Bool) (disp : ℕ) → (disp_mod hd disp == 0) ≡ not hd
unfolding disp_mod
disp_mod-zero hd disp = ground arith

bit-high : (r : ℕ) → r < 16 → r % 8 + bit (ltb 7 r) * 8 ≡ r
bit-high r h = ground arith

-- A base and an index under a scale of 2 ^ k; the index 4 stands for none.
pub sib_bytes-reads :
    (base index k : ℕ) (hd : Bool) (disp : ℕ) (rest : List ℕ)
    → base < 16
    → index < 16
    → k < 4
    → disp < 2 ^ 32
    → (hd ≡ false → disp ≡ 0)
    → (hd ≡ false → base % 8 ≢ 5)
    → read_rm
        (bit (ltb 7 index))
        (bit (ltb 7 base))
        (disp_mod hd disp)
        4
        (modrm_byte k (bit_and index 7) (bit_and base 7) ∷ disp_tail hd disp ++ rest)
      ≡ some (record {
        value = if index == 4 then based base disp else indexed base index (2 ^ k) disp;
        rest = rest;
      })
unfolding read_rm read_sib
sib_bytes-reads base index k hd disp rest hb hi hk h none_if not_five =
    let sib = modrm_byte k (bit_and index 7) (bit_and base 7) in
    let sib_is : sib ≡ k * 64 + index % 8 * 8 + base % 8 =
      rw (bit_and-low index hi, bit_and-low base hb)
        (omega
          (arith, modrm_byte-digits k (index % 8) (base % 8) hk (omega arith) (omega arith))) in
    let mode = disp_mod hd disp in
    let not_direct : (mode == 3) ≡ false = ground (arith, disp_mod-below hd disp) in
    let base_is : sib % 8 + bit (ltb 7 base) * 8 ≡ base = omega (arith, sib_is, bit-high base hb) in
    let index_is : sib / 8 % 8 + bit (ltb 7 index) * 8 ≡ index =
      omega (arith, sib_is, bit-high index hi) in
    let scale_is : sib / 64 ≡ k = omega (arith, sib_is) in
    let has_base : (sib % 8 == 5 && mode == 0) ≡ false = elim (Bool-cases hd) [
      | inl e ↦ rw (disp_mod-zero hd disp, e) (ground arith)
      | inr e ↦
          let apart = not_five e in
          let low : sib % 8 ≡ base % 8 = omega (arith, sib_is) in rw (low) (ground (arith, apart))
    ] in
    elim (Bool-cases (index == 4)) [
      | inl e ↦
          rw (not_direct, has_base, base_is, index_is, scale_is, e)
            (read_disp-disp_tail hd disp (based base) rest h none_if)
      | inr e ↦
          rw (not_direct, has_base, base_is, index_is, scale_is, e)
            (read_disp-disp_tail hd disp (indexed base index (2 ^ k)) rest h none_if)
    ]

-- A base alone, which is not one of those that ask for a SIB byte
pub base_bytes-reads :
    (base : ℕ) (hd : Bool) (disp : ℕ) (rest : List ℕ)
    → base < 16
    → disp < 2 ^ 32
    → (hd ≡ false → disp ≡ 0)
    → (hd ≡ false → base % 8 ≢ 5)
    → base % 8 ≢ 4
    → read_rm 0 (bit (ltb 7 base)) (disp_mod hd disp) (base % 8) (disp_tail hd disp ++ rest)
      ≡ some (record { value = based base disp; rest = rest })
unfolding read_rm
base_bytes-reads base hd disp rest hb h none_if not_five not_four =
    let mode = disp_mod hd disp in
    let not_direct : (mode == 3) ≡ false = ground (arith, disp_mod-below hd disp) in
    let base_is = bit-high base hb in
    let no_sib : (base % 8 == 4) ≡ false = ground (arith, not_four) in
    let no_rip : (base % 8 == 5 && mode == 0) ≡ false = elim (Bool-cases hd) [
      | inl e ↦ rw (disp_mod-zero hd disp, e) (ground arith)
      | inr e ↦ let apart = not_five e in ground (arith, apart)
    ] in
    rw (not_direct, no_sib, no_rip, base_is)
      (read_disp-disp_tail hd disp (based base) rest h none_if)
