-- ===== src/Consensus/Certificate/Equivocation.antt =====
-- Two certificates of one operator for one tick, src/consensus/certificate.rs.
use fluidic_node.Prelude.{
  ℕ, ◌≡◌, ◌≢◌, refl, ap, sym, ◌∙◌, ◌⊎◌, inl, inr, Bool, true, false, none, some, if◌then◌else◌,
  list_beq, list_beq_iff, ok, err, Bool-cases, nat_eq, pair_eq, list_eq,
}
use fluidic_node.Prelude.Map.{Map, lookup, lookup-insert_self}
use fluidic_node.Prelude.Bytes.{Bytes}
use fluidic_node.Crypto.Signatures.{Ed25519}
use fluidic_node.Consensus.Certificate.{
  SynthesisCertificate, CertificateTracker, accept, apply, verify, signing_bytes,
  conflicting_certificate, view_eq,
}
use fluidic_node.Consensus.Certificate.Encoding.{HasWidths, signing_bytes_injective}

unsigned :
    (c : SynthesisCertificate) (x : Bytes)
    → signing_bytes (record c { signature = x }) ≡ signing_bytes c
unfolding signing_bytes
unsigned c x = refl

module _ (ed : Ed25519) {S : Type 0} (registry : Map ℕ ed.VerifyingKey) where
  module _ (checker : ℕ → Bool) (amount : ℕ → ℕ) (slash : ℕ → S → S) where
    -- A certificate that passes the checks on its operator and its signature.
    pub record IsEligible (c : SynthesisCertificate) (pk : ed.VerifyingKey) : Type 0 where
      pub registered : lookup c.operator registry ≡ some pk
      pub signed : verify ed pk c ≡ true
      pub staked : checker c.operator ≡ true

    apply_fresh :
        (c : SynthesisCertificate) (pk : ed.VerifyingKey) (t : CertificateTracker) (s : S)
        → IsEligible c pk
        → lookup (c.operator, c.tick) t.by_operator_tick ≡ none
        → apply ed registry checker amount slash c t s ≡ (accept (amount c.operator) c t, s, ok tt)
    unfolding apply
    apply_fresh c pk t s h fresh = rw (h.registered, h.signed, h.staked, fresh, apply)

    apply_again :
        (c d : SynthesisCertificate) (pk : ed.VerifyingKey) (t : CertificateTracker) (s : S)
        → IsEligible d pk
        → lookup (d.operator, d.tick) t.by_operator_tick ≡ some c
        → apply ed registry checker amount slash d t s ≡ (
            if list_beq (signing_bytes c) (signing_bytes d)
            then (t, s, ok tt)
            else (t, slash d.operator s, err conflicting_certificate))
    unfolding apply
    apply_again c d pk t s h seen =
        elim (Bool-cases (list_beq (signing_bytes c) (signing_bytes d))) [
          | inl same ↦ rw (h.registered, h.signed, h.staked, seen, same, apply)
          | inr differ ↦ rw (h.registered, h.signed, h.staked, seen, differ, apply)
        ]

    seen_after :
        (c : SynthesisCertificate) (t : CertificateTracker)
        → lookup (c.operator, c.tick) (accept (amount c.operator) c t).by_operator_tick ≡ some c
    unfolding accept
    seen_after c t = lookup-insert_self (c.operator, c.tick) c t.by_operator_tick

    -- After the first certificate of an operator for a tick is accepted, a second eligible one for
    -- the same operator and tick leaves the tracker as it is: if it agrees with the first in all but
    -- the signature it is accepted again and nobody is slashed, and if it differs in any field the
    -- operator is slashed and the certificate refused. The fields of both fit their types.
    pub apply_twice :
        (c d : SynthesisCertificate) (pk : ed.VerifyingKey) (t : CertificateTracker) (s : S)
        → IsEligible c pk
        → IsEligible d pk
        → HasWidths c
        → HasWidths d
        → lookup (c.operator, c.tick) t.by_operator_tick ≡ none
        → d.operator ≡ c.operator
        → d.tick ≡ c.tick
        → let (t', s', _) = apply ed registry checker amount slash c t s in
          let second = apply ed registry checker amount slash d t' s' in
          ((record c { signature = d.signature } ≡ d) × (second ≡ (t', s, ok tt)))
          ⊎ ((record c { signature = d.signature } ≢ d)
              × (second ≡ (t', slash d.operator s, err conflicting_certificate)))
    apply_twice c d pk t s hc hd wc wd fresh same_op same_tick =
        rw (apply_fresh c pk t s hc fresh)
          (elim (Bool-cases (list_beq (signing_bytes c) (signing_bytes d))) [
            | inl same ↦
                let e : signing_bytes c ≡ signing_bytes d =
                  (list_beq_iff (signing_bytes c) (signing_bytes d)).0 same in
                inl (signing_bytes_injective c d wc wd e, rw same at again)
            | inr differ ↦ inr (
              (λ e. absurd (clash (sym (unsigned c d.signature) ∙ ap signing_bytes e) differ)),
              rw differ at again,
            )
          ])
      where
        t' : CertificateTracker
        t' = accept (amount c.operator) c t

        seen : lookup (d.operator, d.tick) t'.by_operator_tick ≡ some c
        seen = rw (same_op, same_tick) (seen_after c t)

        again : apply ed registry checker amount slash d t' s ≡ (
            if list_beq (signing_bytes c) (signing_bytes d)
            then (t', s, ok tt)
            else (t', slash d.operator s, err conflicting_certificate))
        again = apply_again c d pk t' s hd seen

        clash :
            signing_bytes c ≡ signing_bytes d
            → list_beq (signing_bytes c) (signing_bytes d) ≡ false
            → ⊥
        clash e n = let y = (list_beq_iff (signing_bytes c) (signing_bytes d)).1 e in cc
