-- ===== src/Consensus/Certificate/Roots.antt =====
-- The roots that certificates carry, src/consensus/certificate.rs. `blake3` is a parameter.
use fluidic_node.Prelude.{
  ℕ, ◌≡◌, ap, ℤ, pos, negsuc, to_u128, Bool, true, false, ◌&&◌, ◌||◌, List, [], ◌∷◌, ◌++◌,
  if◌then◌else◌, ltb, leb, nat_beq, nat_eq, length, not,
}
use fluidic_node.Prelude.Map.{Map, lookup, IsMap}
use fluidic_node.Prelude.Bytes.{Bytes, ascii, to_le_bytes, id_bytes}
use fluidic_node.Prelude.Sorted.{sort_entries, sort_entries_unique}
use fluidic_node.Crypto.Shift.Commutative.{Coordinate, to_bytes}

abbrev pub Delta : Type 0
Delta = Coordinate × ℤ × ℕ

-- the order of byte arrays of one length
unfoldable pub bytes_before : Bytes → Bytes → Bool
bytes_before [] ys = false
bytes_before (x ∷ xs) [] = false
bytes_before (x ∷ xs) (y ∷ ys) = ltb x y || (nat_beq x y && bytes_before xs ys)

abbrev pub int_not_after : ℤ → ℤ → Bool
int_not_after (pos m) (pos n) = leb m n
int_not_after (pos m) (negsuc n) = false
int_not_after (negsuc m) (pos n) = true
int_not_after (negsuc m) (negsuc n) = leb n m

-- the order of `sort_by`: the pool, the coordinate's bytes, the delta
abbrev pub delta_not_after : Delta → Delta → Bool
delta_not_after d e =
    let b : Bytes = to_bytes d.0 [] in
    let c : Bytes = to_bytes e.0 [] in
    ltb d.2 e.2
    || (nat_beq d.2 e.2 && (bytes_before b c || (not (bytes_before c b) && int_not_after d.1 e.1)))

unfoldable pub place_delta : Delta → List Delta → List Delta
place_delta d [] = d ∷ []
place_delta d (e ∷ ds) = if delta_not_after d e then d ∷ e ∷ ds else e ∷ place_delta d ds

unfoldable pub sort_deltas : List Delta → List Delta
sort_deltas [] = []
sort_deltas (d ∷ ds) = place_delta d (sort_deltas ds)

-- The `for` over the ordered deltas; a delta is written in two's complement.
unfoldable pub delta_bytes : List Delta → Bytes
delta_bytes [] = []
delta_bytes ((coord, delta, pool) ∷ ds) =
    to_bytes coord (to_le_bytes 16 (to_u128 delta) ++ (id_bytes pool ++ delta_bytes ds))

unfoldable pub commutative_root : (Bytes → ℕ) → ℕ → List Delta → ℕ
commutative_root blake3 tick deltas = blake3 (
    ascii "fluidic:commutative-root:v2"
    ++ (to_le_bytes 8 tick ++ (to_le_bytes 8 (length deltas) ++ delta_bytes (sort_deltas deltas))))

-- the `for` over the hashes of `stateful_root` and `evm_root`
unfoldable pub hash_bytes : List ℕ → Bytes
hash_bytes [] = []
hash_bytes (h ∷ hs) = id_bytes h ++ hash_bytes hs

unfoldable pub stateful_root : (Bytes → ℕ) → ℕ → List ℕ → ℕ
stateful_root blake3 tick hashes = blake3 (
    ascii "fluidic:stateful-root:v1"
    ++ (to_le_bytes 8 tick ++ (to_le_bytes 8 (length hashes) ++ hash_bytes hashes)))

unfoldable pub evm_root : (Bytes → ℕ) → ℕ → List ℕ → ℕ
evm_root blake3 tick hashes = blake3 (
    ascii "fluidic:evm-root:v1"
    ++ (to_le_bytes 8 tick ++ (to_le_bytes 8 (length hashes) ++ hash_bytes hashes)))

-- The `for` over the sorted balances.
unfoldable pub balance_bytes : Map ℕ ℕ → Bytes
balance_bytes [] = []
balance_bytes ((account, balance) ∷ m) =
    id_bytes account ++ (to_le_bytes 16 balance ++ balance_bytes m)

unfoldable pub balances_root : (Bytes → ℕ) → Map ℕ ℕ → ℕ
balances_root blake3 balances =
    blake3 (ascii "fluidic:balances-root:v1" ++ balance_bytes (sort_entries balances))

-- Two maps of balances that list each account at most once and read alike have the same root,
-- whatever the order in which they are iterated.
pub balances_root_unique :
    (blake3 : Bytes → ℕ) (m n : Map ℕ ℕ)
    → IsMap m
    → IsMap n
    → ((i : ℕ) → lookup i m ≡ lookup i n)
    → balances_root blake3 m ≡ balances_root blake3 n
unfolding balances_root
balances_root_unique blake3 m n hm hn same =
    ap (λ x. blake3 (ascii "fluidic:balances-root:v1" ++ balance_bytes x))
      (sort_entries_unique m n hm hn same)
