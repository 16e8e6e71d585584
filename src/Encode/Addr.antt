-- ===== src/Encode/Addr.antt =====
-- The addresses of src/x64_gen/machine_code.c: x64_reg_val, X64_modrm_byte, the REX prefixes, and
-- X64_get_addr_bytes.
--
-- A displacement, an s32, is its two's complement below 2 ^ 32.
use nibble.Prelude.{
  ℕ, ◌*◌, ◌-◌, ◌/◌, ◌^◌, Bool, true, false, not, ◌&&◌, ◌||◌, List, [], ◌∷◌, Option, none, some, ltb,
  leb, ◌==◌, if◌then◌else◌, get_or, bit_and, bit_or,
}
use nibble.Regs.{rsp, rbp, rax, rbx}

abbrev reg_vals : List ℕ
reg_vals =
    0 ∷ 1 ∷ 2 ∷ 3 ∷ 4 ∷ 5 ∷ 6 ∷ 7 ∷ 8 ∷ 9 ∷ 10 ∷ 11 ∷ 12 ∷ 13 ∷ 14 ∷ 15 ∷ 0 ∷ 1 ∷ 2 ∷ 3 ∷ 4 ∷ 5 ∷ 6
    ∷ 7 ∷ 8 ∷ 9 ∷ 10 ∷ 11 ∷ 12 ∷ 13 ∷ 14 ∷ 15 ∷ []

-- The table x64_reg_val
unfoldable pub x64_reg_val : ℕ → ℕ
x64_reg_val r = get_or reg_vals r 0

-- The table x64_reg_8h_val
unfoldable pub x64_reg_8h_val : ℕ → ℕ
x64_reg_8h_val r = get_or (4 ∷ 5 ∷ 6 ∷ 7 ∷ []) r 0

-- X64_reg_aliased_8h
unfoldable pub reg_aliased_8h : ℕ → Bool
unfolding x64_reg_val x64_reg_8h_val
reg_aliased_8h r =
    leb (x64_reg_8h_val rax) (x64_reg_val r) && leb (x64_reg_val r) (x64_reg_8h_val rbx)

abbrev pub mod_indirect : ℕ
mod_indirect = 0

abbrev pub mod_indirect_disp_u8 : ℕ
mod_indirect_disp_u8 = 1

abbrev pub mod_indirect_disp_u32 : ℕ
mod_indirect_disp_u32 = 2

abbrev pub mod_direct : ℕ
mod_direct = 3

-- X64_get_scale_mode; none where the program ends.
unfoldable pub get_scale_mode : ℕ → Option ℕ
get_scale_mode scale =
    if scale == 1
    then some 0
    else if scale == 2
    then some 1
    else if scale == 4
    then some 2
    else if scale == 8
    then some 3
    else none

-- X64_modrm_byte
unfoldable pub modrm_byte : ℕ → ℕ → ℕ → ℕ
modrm_byte mode reg rm = bit_or (bit_or (bit_and rm 7) (bit_and reg 7 * 8)) (bit_and mode 3 * 64)

-- X64_rex_prefix
unfoldable pub rex_prefix : ℕ → ℕ → ℕ → ℕ → ℕ
rex_prefix w r x b =
    bit_or (bit_or (bit_or (bit_or 0x40 (bit_and w 1 * 8)) (bit_and r 1 * 4)) (bit_and x 1 * 2))
      (bit_and b 1)

-- X64_rex_nosib
unfoldable pub rex_nosib : ℕ → ℕ → ℕ → ℕ
unfolding rex_prefix
rex_nosib w reg rm = rex_prefix w (reg / 8) 0 (rm / 8)

-- A truth value as the number that the source passes on
abbrev pub bit : Bool → ℕ
bit true = 1
bit false = 0

pub data SymbolKind : Type 0 where
  symbol_var : SymbolKind
  symbol_proc : (is_foreign : Bool) → SymbolKind

pub record Symbol : Type 0 where
  pub id : ℕ
  pub kind : SymbolKind

-- ConstAddr; string and float literals by their numbers
pub data ConstAddr : Type 0 where
  const_sym : Symbol → ConstAddr
  const_str_lit : ℕ → ConstAddr
  const_float_lit : ℕ → ConstAddr

-- X64_SIBD_Addr
pub data SibdAddr : Type 0 where
  global_addr : Symbol → SibdAddr
  local_addr : (base_reg index_reg scale disp : ℕ) → SibdAddr
  str_lit_addr : ℕ → SibdAddr
  float_lit_addr : ℕ → SibdAddr

-- X64_AddrBytes
pub record AddrBytes : Type 0 where
  pub mod_bits : ℕ
  pub rm : ℕ
  pub sib_byte : ℕ
  pub disp : ℕ
  pub rex_b : Bool
  pub rex_x : Bool
  pub has_disp : Bool
  pub has_sib_byte : Bool
  pub patch_entity : Option ConstAddr

-- (u8)-1, no register
abbrev pub no_reg : ℕ
no_reg = 255

-- RIP + disp32, to be patched
unfoldable pub rip_bytes : ConstAddr → AddrBytes
rip_bytes entity = record {
  mod_bits = mod_indirect;
  rm = 5;
  sib_byte = 0;
  disp = 0;
  rex_b = false;
  rex_x = false;
  has_disp = true;
  has_sib_byte = false;
  patch_entity = some entity;
}

unfoldable pub has_index : ℕ → ℕ → Bool
has_index index_reg scale = not (index_reg == no_reg) && not (scale == 0)

unfoldable pub local_has_disp : ℕ → ℕ → Bool
unfolding x64_reg_val
local_has_disp base_reg disp = not (disp == 0) || bit_and (x64_reg_val base_reg) 7 == rbp

unfoldable pub disp_is_imm8 : ℕ → Bool
disp_is_imm8 disp = leb disp 127 || leb (2 ^ 32 - 128) disp

unfoldable pub disp_mod : Bool → ℕ → ℕ
unfolding disp_is_imm8
disp_mod has_disp disp =
    if not has_disp
    then mod_indirect
    else if disp_is_imm8 disp
    then mod_indirect_disp_u8
    else mod_indirect_disp_u32

-- A base, and an index under a scale
unfoldable pub sib_bytes : ℕ → ℕ → ℕ → Bool → ℕ → AddrBytes
unfolding disp_mod modrm_byte
sib_bytes base_reg index_reg scale_mode has_disp disp = record {
  mod_bits = disp_mod has_disp disp;
  rm = 4;
  sib_byte = modrm_byte scale_mode (bit_and index_reg 7) (bit_and base_reg 7);
  disp = disp;
  rex_b = ltb 7 base_reg;
  rex_x = ltb 7 index_reg;
  has_disp = has_disp;
  has_sib_byte = true;
  patch_entity = none;
}

-- A base alone
unfoldable pub base_bytes : ℕ → Bool → ℕ → AddrBytes
unfolding disp_mod
base_bytes base_reg has_disp disp = record {
  mod_bits = disp_mod has_disp disp;
  rm = bit_and base_reg 7;
  sib_byte = 0;
  disp = disp;
  rex_b = ltb 7 base_reg;
  rex_x = false;
  has_disp = has_disp;
  has_sib_byte = false;
  patch_entity = none;
}

unfoldable pub scaled_bytes : ℕ → ℕ → Option ℕ → Bool → ℕ → Option AddrBytes
unfolding sib_bytes
scaled_bytes base_reg index_reg none has_disp disp = none
scaled_bytes base_reg index_reg (some scale_mode) has_disp disp =
    some (sib_bytes base_reg index_reg scale_mode has_disp disp)

-- The local addresses of X64_get_addr_bytes. Without a base the program ends.
unfoldable pub get_local_bytes : ℕ → ℕ → ℕ → ℕ → Option AddrBytes
unfolding x64_reg_val has_index local_has_disp base_bytes scaled_bytes get_scale_mode
get_local_bytes base_reg index_reg scale disp =
    let base = x64_reg_val base_reg in
    let has_disp = local_has_disp base_reg disp in
    if base_reg == no_reg
    then none
    else if bit_and base 7 == x64_reg_val rsp
    then (if has_index index_reg scale
        then scaled_bytes base (x64_reg_val index_reg) (get_scale_mode scale) has_disp disp
        else scaled_bytes base (x64_reg_val rsp) (some 0) has_disp disp)
    else if has_index index_reg scale
    then scaled_bytes base (x64_reg_val index_reg) (get_scale_mode scale) has_disp disp
    else some (base_bytes base has_disp disp)

-- X64_get_addr_bytes; none where the program ends.
unfoldable pub get_addr_bytes : SibdAddr → Option AddrBytes
unfolding get_local_bytes rip_bytes
get_addr_bytes (global_addr sym) = some (rip_bytes (const_sym sym))
get_addr_bytes (local_addr base_reg index_reg scale disp) =
    get_local_bytes base_reg index_reg scale disp
get_addr_bytes (str_lit_addr lit) = some (rip_bytes (const_str_lit lit))
get_addr_bytes (float_lit_addr lit) = some (rip_bytes (const_float_lit lit))
