-- ===== src/Consensus/Certificate/Encoding.antt =====
-- What `signing_bytes` of src/consensus/certificate.rs determine of a certificate.
use fluidic_node.Prelude.{◌<◌, ◌≡◌, ◌++◌, [], ap, u64_mod, u128_mod, nat_eq, pair_eq, list_eq}
use fluidic_node.Prelude.Bytes.{
  ascii, id_mod, to_le_bytes-append, to_be_bytes-append, append_cancel,
}
use fluidic_node.Consensus.Certificate.{SynthesisCertificate, signing_bytes, view_eq}

-- The widths of the Rust types: 32 bytes for identifiers and roots, u64, and u128.
pub record HasWidths (c : SynthesisCertificate) : Type 0 where
  pub operator : c.operator < id_mod
  pub tick : c.tick < u64_mod
  pub commutative_applied : c.commutative_applied < u64_mod
  pub stateful_applied : c.stateful_applied < u64_mod
  pub evm_applied : c.evm_applied < u64_mod
  pub commutative_root : c.commutative_root < id_mod
  pub stateful_root : c.stateful_root < id_mod
  pub balances_root : c.balances_root < id_mod
  pub stake_root : c.stake_root < id_mod
  pub reward_root : c.reward_root < id_mod
  pub evm_root : c.evm_root < id_mod
  pub metabolic_burned : c.metabolic_burned < u128_mod
  pub timestamp_ns : c.timestamp_ns < u64_mod

-- Two certificates whose fields fit their types and that are signed over the same bytes agree in
-- every field but the signature.
pub signing_bytes_injective :
    (c d : SynthesisCertificate)
    → HasWidths c
    → HasWidths d
    → signing_bytes c ≡ signing_bytes d
    → record c { signature = d.signature } ≡ d
unfolding signing_bytes
signing_bytes_injective c d hc hd p =
    let r0 = append_cancel (ascii "FLUIDIC:SYNTHESIS:v3") p in
    let r1 = to_be_bytes-append 32 c.operator d.operator hc.operator hd.operator r0 in
    let r2 = to_le_bytes-append 8 c.tick d.tick hc.tick hd.tick r1.1 in
    let r3 =
      to_le_bytes-append 8 c.commutative_applied d.commutative_applied hc.commutative_applied
        hd.commutative_applied r2.1 in
    let r4 =
      to_le_bytes-append 8 c.stateful_applied d.stateful_applied hc.stateful_applied
        hd.stateful_applied r3.1 in
    let r5 = to_le_bytes-append 8 c.evm_applied d.evm_applied hc.evm_applied hd.evm_applied r4.1 in
    let r6 =
      to_be_bytes-append 32 c.commutative_root d.commutative_root hc.commutative_root
        hd.commutative_root r5.1 in
    let r7 =
      to_be_bytes-append 32 c.stateful_root d.stateful_root hc.stateful_root hd.stateful_root
        r6.1 in
    let r8 =
      to_be_bytes-append 32 c.balances_root d.balances_root hc.balances_root hd.balances_root
        r7.1 in
    let r9 = to_be_bytes-append 32 c.stake_root d.stake_root hc.stake_root hd.stake_root r8.1 in
    let r10 =
      to_be_bytes-append 32 c.reward_root d.reward_root hc.reward_root hd.reward_root r9.1 in
    let r11 = to_be_bytes-append 32 c.evm_root d.evm_root hc.evm_root hd.evm_root r10.1 in
    let r12 =
      to_le_bytes-append 16 c.metabolic_burned d.metabolic_burned hc.metabolic_burned
        hd.metabolic_burned r11.1 in
    let r13 =
      to_le_bytes-append 8 c.timestamp_ns d.timestamp_ns hc.timestamp_ns hd.timestamp_ns
        (ap (λ x. x ++ []) r12.1) in
    λ i. record {
      operator = r1.0 i;
      tick = r2.0 i;
      commutative_applied = r3.0 i;
      stateful_applied = r4.0 i;
      evm_applied = r5.0 i;
      commutative_root = r6.0 i;
      stateful_root = r7.0 i;
      balances_root = r8.0 i;
      stake_root = r9.0 i;
      reward_root = r10.0 i;
      evm_root = r11.0 i;
      metabolic_burned = r12.0 i;
      timestamp_ns = r13.0 i;
      signature = d.signature;
    }
