-- ===== src/Proto/Payloads/PowerStatusV2.antt =====
-- `power.status` v2 and its reduction to v1 (src/proto/payloads.rs).
use web3_pi_ups_service.Prelude.{
  ℕ, suc, All, subst, ◌≡◌, ◌⊎◌, Bool, true, false, List, get_or, ◌==◌, if◌then◌else◌, Result, ok,
  err, ◌>>◌, arith,
}
use web3_pi_ups_service.Prelude.Int.{ℤ, pos, negsuc, max_ℤ, ◌≤ℤ◌, IsI16, i16_of_bits}
use web3_pi_ups_service.Proto.Payloads.Wire.{
  PayloadError, unsupported_version, check_fixed_len, from_le16, from_le32, u8_lt, u16_lt,
  signed_word,
}
use web3_pi_ups_service.Proto.Frame.{IsByte}
use web3_pi_ups_service.Proto.Payloads.PowerStatusV1
use web3_pi_ups_service.Proto.Payloads.PowerStatusV1.{PowerStatusV1}

pub record PowerStatusV2 : Type 0 where
  pub flags : ℕ
  pub charge_state : ℕ
  pub vbus_in_mv : ℕ
  pub pd_in_mv : ℕ
  pub pd_in_ma : ℕ
  pub vbus_out_mv : ℕ
  pub vout_set_mv : ℕ
  pub vout_read_mv : ℕ
  pub iout_limit_ma : ℕ
  pub pd_out_mv : ℕ
  pub pd_out_ma : ℕ
  pub vbat_mv : ℕ
  pub ichg_ma : ℤ
  pub vsys_mv : ℕ
  pub iin_ma : ℕ
  pub temp_lm_dc : ℤ
  pub temp_mp_dc : ℤ
  pub faults : ℕ
  pub uptime_s : ℕ

abbrev pub wire_len : ℕ
wire_len = 40

abbrev pub version : ℕ
version = 2

-- The closures `u16le` and `i16le` of `decode`.
abbrev pub u16le : List ℕ → ℕ → ℕ
u16le buf i = from_le16 (get_or buf i 0) (get_or buf (suc i) 0)

abbrev pub i16le : List ℕ → ℕ → ℤ
i16le buf i = i16_of_bits (u16le buf i)

-- The fields that `decode` reads when its checks pass.
abbrev pub fields : List ℕ → PowerStatusV2
fields buf = record {
  flags = get_or buf 1 0;
  charge_state = get_or buf 2 0;
  vbus_in_mv = u16le buf 4;
  pd_in_mv = u16le buf 6;
  pd_in_ma = u16le buf 8;
  vbus_out_mv = u16le buf 10;
  vout_set_mv = u16le buf 12;
  vout_read_mv = u16le buf 14;
  iout_limit_ma = u16le buf 16;
  pd_out_mv = u16le buf 18;
  pd_out_ma = u16le buf 20;
  vbat_mv = u16le buf 22;
  ichg_ma = i16le buf 24;
  vsys_mv = u16le buf 26;
  iin_ma = u16le buf 28;
  temp_lm_dc = i16le buf 30;
  temp_mp_dc = i16le buf 32;
  faults = u16le buf 34;
  uptime_s = from_le32 (get_or buf 36 0) (get_or buf 37 0) (get_or buf 38 0) (get_or buf 39 0);
}

unfoldable pub decode : List ℕ → Result PowerStatusV2 PayloadError
unfolding check_fixed_len
decode buf = do
  check_fixed_len buf wire_len
  if get_or buf 0 0 == version
      then ok (fields buf)
      else err (unsupported_version (get_or buf 0 0) version)

-- `i16::MIN`
abbrev pub i16_min : ℤ
i16_min = negsuc 32767

abbrev is_i16_min : ℤ → Bool
is_i16_min (pos n) = false
is_i16_min (negsuc n) = n == 32767

unfoldable pub to_v1 : PowerStatusV2 → PowerStatusV1
to_v1 p = record {
  charge_state = p.charge_state;
  vbus_in_mv = p.vbus_in_mv;
  vbus_out_mv = p.vout_read_mv;
  ibus_out_ma = i16_of_bits p.iout_limit_ma;
  vbat_mv = p.vbat_mv;
  ibat_ma = p.ichg_ma;
  temp_dc = if is_i16_min p.temp_mp_dc then p.temp_lm_dc else max_ℤ p.temp_lm_dc p.temp_mp_dc;
  pd_contract_mv = p.vsys_mv;
  pd_contract_ma = p.iin_ma;
  faults = p.faults;
}

-- The reduced temperature is that of one of the two sensors; the first reads no more, and the
-- second reads no more unless it is at `i16::MIN`.
pub to_v1-temp :
    (p : PowerStatusV2)
    → (p.temp_lm_dc ≤ℤ (to_v1 p).temp_dc)
      × (p.temp_mp_dc ≤ℤ (to_v1 p).temp_dc ⊎ (p.temp_mp_dc ≡ i16_min))
      × (((to_v1 p).temp_dc ≡ p.temp_lm_dc) ⊎ ((to_v1 p).temp_dc ≡ p.temp_mp_dc))
unfolding to_v1
to_v1-temp p = ground arith

pub decode-version :
    (buf : List ℕ) (p : PowerStatusV2) → decode buf ≡ ok p → (get_or buf 0 0 == version) ≡ true
unfolding decode
decode-version buf p h = ground arith

decode-fields : (buf : List ℕ) (p : PowerStatusV2) → decode buf ≡ ok p → fields buf ≡ p
unfolding decode check_fixed_len
decode-fields buf p h = ground arith

temp-IsI16 : (lm mp : ℤ) → IsI16 lm → IsI16 mp → IsI16 (if is_i16_min mp then lm else max_ℤ lm mp)
temp-IsI16 lm mp h k = ground arith

fields-InRange : (buf : List ℕ) → All IsByte buf → PowerStatusV1.InRange (to_v1 (fields buf))
unfolding to_v1
fields-InRange buf h = record {
  charge_state = u8_lt buf h 2;
  vbus_in_mv = u16_lt buf h 4;
  vbus_out_mv = u16_lt buf h 14;
  ibus_out_ma = signed_word buf h 16;
  vbat_mv = u16_lt buf h 22;
  ibat_ma = signed_word buf h 24;
  temp_dc = temp-IsI16 _ _ (signed_word buf h 30) (signed_word buf h 32);
  pd_contract_mv = u16_lt buf h 26;
  pd_contract_ma = u16_lt buf h 28;
  faults = u16_lt buf h 34;
}

-- What is decoded from bytes reduces to a v1 status whose fields fit their types.
pub decode-to_v1 :
    (buf : List ℕ) (p : PowerStatusV2)
    → All IsByte buf
    → decode buf ≡ ok p
    → PowerStatusV1.InRange (to_v1 p)
decode-to_v1 buf p h e =
    subst (λ q. PowerStatusV1.InRange (to_v1 q)) (decode-fields buf p e) (fields-InRange buf h)
