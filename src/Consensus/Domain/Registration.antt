-- ===== src/Consensus/Domain/Registration.antt =====
-- `domain_registration_signing_bytes` of src/api/routes.rs: what the registrant of a domain signs.
use fluidic_node.Prelude.{ℕ, Bool, true, false, ◌++◌, ◌∷◌}
use fluidic_node.Prelude.Bytes.{Bytes, ascii, to_le_bytes, id_bytes}
use fluidic_node.Consensus.Domain.{DomainPolicy, OrderingMode, causal, commutative, strict}

-- `as u8`
abbrev pub flag_byte : Bool → ℕ
flag_byte false = 0
flag_byte true = 1

abbrev pub ordering_byte : OrderingMode → ℕ
ordering_byte causal = 0
ordering_byte commutative = 1
ordering_byte strict = 2

unfoldable pub registration_bytes : DomainPolicy → ℕ → Bytes
registration_bytes policy fee =
    ascii "FLUIDIC:REGISTER_DOMAIN:v1"
    ++ (id_bytes policy.domain
        ++ (flag_byte policy.allows_commutative
            ∷ flag_byte policy.stateful
            ∷ ordering_byte policy.ordering
            ∷ (to_le_bytes 8 policy.finalization_depth
                ++ (to_le_bytes 8 policy.metabolic_lambda_ppm ++ to_le_bytes 16 fee))))
