-- ===== src/Encode/Addresses.antt =====
-- X64_get_addr_bytes of src/x64_gen/machine_code.c: its bytes are read as the address.
use nibble.Prelude.{
  ℕ, zero, suc, ◌%◌, ◌^◌, ◌<◌, ◌≡◌, ◌≢◌, refl, sym, Bool, true, false, not, ◌||◌, Option, some,
  ◌==◌, if◌then◌else◌, arith, inl, inr, Bool-cases, bit_and,
}
use nibble.Regs.{rsp}
use nibble.Encode.Addr.{
  ConstAddr, const_sym, const_str_lit, const_float_lit, SibdAddr, global_addr, local_addr,
  str_lit_addr, float_lit_addr, AddrBytes, no_reg, x64_reg_val, get_scale_mode, has_index,
  local_has_disp, disp_is_imm8, disp_mod, sib_bytes, base_bytes, scaled_bytes, rip_bytes,
  get_local_bytes, get_addr_bytes,
}
use nibble.Encode.Text.{sib_of}
use nibble.Encode.Decode.{based, indexed, rip_relative, map_read, read_rm}
use nibble.Encode.Bytes.{x64_reg_val_self, bit_and-low}
use nibble.Encode.Operands.{
  AddrReads, IsAddr, base_alone, base_bytes-reads, base_indexed, disp_bytes, disp_mod-below,
  disp_tail, rm_of, sib_bytes-reads,
}

disp_bytes-sib_bytes :
    (base index k : ℕ) (hd : Bool) (disp : ℕ)
    → disp_bytes (sib_bytes base index k hd disp) ≡ disp_tail hd disp
unfolding disp_bytes sib_bytes disp_tail disp_mod
disp_bytes-sib_bytes base index k false disp = refl
disp_bytes-sib_bytes base index k true disp = elim (Bool-cases (disp_is_imm8 disp)) [
  | inl e ↦ rw e refl
  | inr e ↦ rw e refl
]

disp_bytes-base_bytes :
    (base : ℕ) (hd : Bool) (disp : ℕ) → disp_bytes (base_bytes base hd disp) ≡ disp_tail hd disp
unfolding disp_bytes base_bytes disp_tail disp_mod
disp_bytes-base_bytes base false disp = refl
disp_bytes-base_bytes base true disp = elim (Bool-cases (disp_is_imm8 disp)) [
  | inl e ↦ rw e refl
  | inr e ↦ rw e refl
]

-- X64_get_addr_bytes gives bytes that are read as the address
pub data AddrOk (addr : SibdAddr) (o : Option AddrBytes) : Type 0 where
  addr_ok : (a : AddrBytes) → o ≡ some a → AddrReads addr a → AddrOk addr o

no_disp :
    (base disp : ℕ) → base < 16 → local_has_disp base disp ≡ false → (disp ≡ 0) × (base % 8 ≢ 5)
unfolding local_has_disp
no_disp base disp hb e =
    let low : bit_and (x64_reg_val base) 7 ≡ base % 8 =
      rw (x64_reg_val_self base hb) (bit_and-low base hb) in
    let cond : (not (disp == 0) || base % 8 == 5) ≡ false = rw (sym low) e in
    (ground (arith, cond), λ five. ground (arith, cond, five))

sib_ok :
    (base index k index_reg scale disp : ℕ)
    → base < 16
    → index < 16
    → k < 4
    → disp < 2 ^ 32
    → rm_of (local_addr base index_reg scale disp)
      ≡ (if index == 4 then based base disp else indexed base index (2 ^ k) disp)
    → AddrReads
        (local_addr base index_reg scale disp)
        (sib_bytes base index k (local_has_disp base disp) disp)
unfolding sib_bytes sib_of
sib_ok base index k index_reg scale disp hb hi hk h meaning =
    let hd = local_has_disp base disp in
    record {
      mode = disp_mod-below hd disp;
      low = omega arith;
      reads = λ rest.
          rw (disp_bytes-sib_bytes base index k hd disp, meaning)
            (sib_bytes-reads base index k hd disp rest hb hi hk h (λ e. (no_disp base disp hb e).0)
              (λ e. (no_disp base disp hb e).1));
    }

base_ok :
    (base index_reg scale disp : ℕ)
    → base < 16
    → disp < 2 ^ 32
    → base % 8 ≢ 4
    → has_index index_reg scale ≡ false
    → AddrReads
        (local_addr base index_reg scale disp)
        (base_bytes base (local_has_disp base disp) disp)
unfolding base_bytes sib_of rm_of
base_ok base index_reg scale disp hb h not_four alone =
    let hd = local_has_disp base disp in
    let low : bit_and base 7 ≡ base % 8 = bit_and-low base hb in
    let reduced : bit_and base 7 % 8 ≡ base % 8 = omega (arith, low) in
    record {
      mode = disp_mod-below hd disp;
      low = omega (arith, low);
      reads = λ rest.
          rw (disp_bytes-base_bytes base hd disp, alone, reduced)
            (base_bytes-reads base hd disp rest hb h (λ e. (no_disp base disp hb e).0)
              (λ e. (no_disp base disp hb e).1) not_four);
    }

rip_ok :
    (addr : SibdAddr) (entity : ConstAddr)
    → rm_of addr ≡ rip_relative 0
    → AddrReads addr (rip_bytes entity)
unfolding rip_bytes sib_of disp_bytes read_rm map_read
rip_ok addr entity meaning = record {
  mode = omega arith;
  low = omega arith;
  reads = λ rest. rw (meaning) refl;
}

get_scale_mode-power : (k : ℕ) → k < 4 → get_scale_mode (2 ^ k) ≡ some k
unfolding get_scale_mode
get_scale_mode-power zero h = refl
get_scale_mode-power (suc zero) h = refl
get_scale_mode-power (suc (suc zero)) h = refl
get_scale_mode-power (suc (suc (suc zero))) h = refl
get_scale_mode-power (suc (suc (suc (suc k)))) h = absurd (omega arith)

power-some : (k : ℕ) → k < 4 → (2 ^ k == 0) ≡ false
power-some zero h = refl
power-some (suc zero) h = refl
power-some (suc (suc zero)) h = refl
power-some (suc (suc (suc zero))) h = refl
power-some (suc (suc (suc (suc k)))) h = absurd (omega arith)

has_index-true :
    (k index_reg scale : ℕ)
    → index_reg < 16
    → k < 4
    → scale ≡ 2 ^ k
    → has_index index_reg scale ≡ true
unfolding has_index
has_index-true k index_reg scale hi hk power =
    let some_reg : (index_reg == no_reg) ≡ false = ground arith in
    rw (power, power-some k hk, some_reg) refl

-- X64_get_addr_bytes does not end the program on an address that the processor has, and the bytes that are written
-- of its result are read as this address.
pub get_addr_bytes-Ok : (addr : SibdAddr) → IsAddr addr → AddrOk addr (get_addr_bytes addr)
unfolding get_addr_bytes get_local_bytes rm_of scaled_bytes
get_addr_bytes-Ok (global_addr symbol) valid =
    addr_ok (rip_bytes (const_sym symbol)) refl
      (rip_ok (global_addr symbol) (const_sym symbol) refl)
get_addr_bytes-Ok (str_lit_addr lit) valid =
    addr_ok (rip_bytes (const_str_lit lit)) refl
      (rip_ok (str_lit_addr lit) (const_str_lit lit) refl)
get_addr_bytes-Ok (float_lit_addr lit) valid =
    addr_ok (rip_bytes (const_float_lit lit)) refl
      (rip_ok (float_lit_addr lit) (const_float_lit lit) refl)
get_addr_bytes-Ok (local_addr base_reg index_reg scale disp) (base_alone hb h alone) =
    let self = x64_reg_val_self base_reg hb in
    let some_base : (base_reg == no_reg) ≡ false = ground arith in
    let rsp_self = x64_reg_val_self rsp (omega arith) in
    let low = bit_and-low base_reg hb in
    elim (Bool-cases (bit_and base_reg 7 == 4)) [
      | inl e ↦
          addr_ok (sib_bytes base_reg rsp 0 (local_has_disp base_reg disp) disp)
            (rw (some_base, self, rsp_self, e, alone) refl)
            (sib_ok base_reg rsp 0 index_reg scale disp hb (omega arith) (omega arith) h
              (rw alone refl))
      | inr e ↦
          addr_ok (base_bytes base_reg (local_has_disp base_reg disp) disp)
            (rw (some_base, self, rsp_self, e, alone) refl)
            (base_ok base_reg index_reg scale disp hb h (ground (arith, low, e)) alone)
    ]
get_addr_bytes-Ok (local_addr base_reg index_reg scale disp)
      (base_indexed k hb h hi not_rsp hk power) =
    let self = x64_reg_val_self base_reg hb in
    let index_self = x64_reg_val_self index_reg hi in
    let some_base : (base_reg == no_reg) ≡ false = ground arith in
    let some_index : has_index index_reg scale ≡ true =
      has_index-true k index_reg scale hi hk power in
    let mode_is : get_scale_mode scale ≡ some k = rw power (get_scale_mode-power k hk) in
    let not_four : (index_reg == 4) ≡ false = ground (arith, not_rsp) in
    let same : get_local_bytes base_reg index_reg scale disp
        ≡ some (sib_bytes base_reg index_reg k (local_has_disp base_reg disp) disp) =
      elim (Bool-cases (bit_and base_reg 7 == x64_reg_val rsp)) [
        | inl e ↦ rw (some_base, self, e, some_index, mode_is, index_self) refl
        | inr e ↦ rw (some_base, self, e, some_index, mode_is, index_self) refl
      ] in
    addr_ok (sib_bytes base_reg index_reg k (local_has_disp base_reg disp) disp) same (
      sib_ok base_reg index_reg k index_reg scale disp hb hi hk h
        (rw (some_index, not_four, power) refl))
