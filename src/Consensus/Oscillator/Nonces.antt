-- ===== src/Consensus/Oscillator/Nonces.antt =====
-- Replay protection in src/consensus/oscillator.rs: the accepted nonces of an account and domain.
use fluidic_node.Prelude.{
  ℕ, ◌<◌, ◌≡◌, ◌⊎◌, inl, inr, ◌∙◌, refl, true, false, List, [], ◌∷◌, Option, none, some,
  if◌then◌else◌, leb, nat_beq, arith, ◌&&◌, nat_eq, pair_eq, Bool-cases, Option-cases, All,
}
use fluidic_node.Prelude.Map.{Map, lookup, insert, lookup-insert}
use fluidic_node.Consensus.Oscillator.{check_and_record_nonce}

-- The nonces of one account and domain that a run of calls accepts, in order.
pub accepted : ℕ → ℕ → List (ℕ × ℕ × ℕ) → Map (ℕ × ℕ) ℕ → List ℕ
accepted account domain [] seen = []
accepted account domain ((a, d, nonce) ∷ calls) seen =
    let (seen', fresh) = check_and_record_nonce a d nonce seen in
    let rest = accepted account domain calls seen' in
    if fresh then (if nat_beq a account && nat_beq d domain then nonce ∷ rest else rest) else rest

-- every number of the list is greater than the one before
abbrev pub Rising : List ℕ → Type 0
Rising [] = Unit
Rising (n ∷ ns) = All (λ k. n < k) ns × Rising ns

abbrev pub Above : Option ℕ → ℕ → Type 0
Above none k = Unit
Above (some last) k = last < k

weaken : (o : Option ℕ) (n : ℕ) (ks : List ℕ) → Above o n → All (λ k. n < k) ks → All (Above o) ks
weaken o n [] up a = tt
weaken none n (k ∷ ks) up a = (tt, weaken none n ks up a.1)
weaken (some last) n (k ∷ ks) up a = (omega (arith, a.0), weaken (some last) n ks up a.1)

check_cases :
    (a d nonce : ℕ) (seen : Map (ℕ × ℕ) ℕ)
    → (check_and_record_nonce a d nonce seen ≡ (seen, false))
      ⊎ ((check_and_record_nonce a d nonce seen ≡ (insert (a, d) nonce seen, true))
          × Above (lookup (a, d) seen) nonce)
unfolding check_and_record_nonce
check_cases a d nonce seen = elim (Option-cases (lookup (a, d) seen)) [
  | inl new ↦ rw (check_and_record_nonce, new) (inr (refl, tt))
  | inr (last, old) ↦ elim (Bool-cases (leb nonce last)) [
    | inl stale ↦ rw (check_and_record_nonce, old, stale) (inl refl)
    | inr fresh ↦ rw (check_and_record_nonce, old, fresh) (inr (refl, ground arith))
  ]
]

-- Over any calls, the nonces that are accepted for an account and domain are greater than the one
-- recorded before, and each is greater than those accepted before it: none is accepted twice.
pub accepted-Rising :
    (account domain : ℕ) (calls : List (ℕ × ℕ × ℕ)) (seen : Map (ℕ × ℕ) ℕ)
    → All (Above (lookup (account, domain) seen)) (accepted account domain calls seen)
      × Rising (accepted account domain calls seen)
unfolding accepted
accepted-Rising account domain [] seen = (tt, tt)
accepted-Rising account domain ((a, d, nonce) ∷ calls) seen = elim (check_cases a d nonce seen) [
  | inl e ↦ rw (accepted, e) (accepted-Rising account domain calls seen)
  | inr (e, up) ↦
      let seen' : Map (ℕ × ℕ) ℕ = insert (a, d) nonce seen in
      let ih = accepted-Rising account domain calls seen' in
      let read = lookup-insert (account, domain) (a, d) nonce seen in
      elim (Bool-cases (nat_beq a account && nat_beq d domain)) [
        | inl own ↦
            let now : lookup (account, domain) seen' ≡ some nonce = read ∙ rw own refl in
            let same : lookup (account, domain) seen ≡ lookup (a, d) seen = ground arith in
            let later : All (Above (some nonce)) (accepted account domain calls seen') =
              rw now at ih.0 in
            let up' : Above (lookup (account, domain) seen) nonce = rw same up in
            rw (accepted, e, own)
              (
                (
                  up',
                  weaken (lookup (account, domain) seen) nonce (accepted account domain calls seen')
                      up' later,
                ),
                (later, ih.1),
              )
        | inr other ↦
            let now : lookup (account, domain) seen' ≡ lookup (account, domain) seen =
              read ∙ rw other refl in
            rw (accepted, e, other) (rw now at ih.0, ih.1)
      ]
]
