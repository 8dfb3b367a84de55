-- ===== src/Prelude/Bytes.antt =====
-- Byte strings as lists of numbers, fixed-width encodings, and what a prefix determines.
use Prim.Native.Nat.{ℕ, zero, suc, ◌+◌, ◌*◌, ◌/◌, ◌%◌, ◌^◌, ◌<◌}
use Prim.Native.Char.{code}
use Prim.Native.String.{String}
use mathlib.Core.Path.{◌≡◌, sym, ap₂, ◌∙◌}
use mathlib.Core.List.{List, [], ◌∷◌, ◌++◌}
use native.Mathlib.Nat.{pow-suc, mod-lt, div-add-mod, one-le-pow}
use native.Mathlib.Omega.{arith}
use fluidic_node.Prelude.Lists.{length}

abbrev pub Bytes : Type 0
Bytes = List ℕ

-- an ASCII literal
abbrev pub ascii : String → Bytes
ascii String.[] = []
ascii (String.◌∷◌ c s) = code c ∷ ascii s

-- `to_le_bytes` at a width
unfoldable pub to_le_bytes : ℕ → ℕ → Bytes
to_le_bytes zero n = []
to_le_bytes (suc w) n = (n % 256) ∷ to_le_bytes w (n / 256)

-- `from_le_bytes` of the bytes of an array
unfoldable pub from_le_bytes : Bytes → ℕ
from_le_bytes [] = 0
from_le_bytes (b ∷ bs) = b + 256 * from_le_bytes bs

-- `to_be_bytes` at a width
unfoldable pub to_be_bytes : ℕ → ℕ → Bytes
to_be_bytes zero n = []
to_be_bytes (suc w) n = (n / 256 ^ w) ∷ to_be_bytes w (n % 256 ^ w)

-- An array of 32 bytes is the number that it spells from the left, so that numbers compare as the
-- arrays do.
abbrev pub id_bytes : ℕ → Bytes
id_bytes = to_be_bytes 32

abbrev pub id_mod : ℕ
id_mod = 256 ^ 32

pub head_eq : {a b : ℕ} {xs ys : Bytes} → a ∷ xs ≡ b ∷ ys → (a ≡ b) × (xs ≡ ys)
head_eq p = (cc, cc)

-- A fixed-width number at the front of a byte string is determined, and so is the rest.
pub to_le_bytes-append :
    (w a b : ℕ) {xs ys : Bytes}
    → a < 256 ^ w
    → b < 256 ^ w
    → to_le_bytes w a ++ xs ≡ to_le_bytes w b ++ ys
    → (a ≡ b) × (xs ≡ ys)
unfolding to_le_bytes
to_le_bytes-append zero a b ha hb p = (omega arith, p)
to_le_bytes-append (suc w) a b ha hb p =
    let q = head_eq p in
    let r = to_le_bytes-append w (a / 256) (b / 256) (smaller w a ha) (smaller w b hb) q.1 in
    (omega (arith, q.0, r.0), r.1)
  where
    smaller : (w n : ℕ) → n < 256 ^ suc w → n / 256 < 256 ^ w
    smaller w n h = let k : n < 256 ^ w * 256 = rw (pow-suc 256 w) at h in omega arith

pub to_be_bytes-append :
    (w a b : ℕ) {xs ys : Bytes}
    → a < 256 ^ w
    → b < 256 ^ w
    → to_be_bytes w a ++ xs ≡ to_be_bytes w b ++ ys
    → (a ≡ b) × (xs ≡ ys)
unfolding to_be_bytes
to_be_bytes-append zero a b ha hb p = (omega arith, p)
to_be_bytes-append (suc w) a b ha hb p =
    let q = head_eq p in
    let r =
      to_be_bytes-append w (a % 256 ^ w) (b % 256 ^ w) (mod-lt a (pos w)) (mod-lt b (pos w)) q.1 in
    (
      sym (div-add-mod a (256 ^ w))
          ∙ ap₂ (λ x y. 256 ^ w * x + y) q.0 r.0
          ∙ div-add-mod b (256 ^ w),
      r.1,
    )
  where
    pos : (w : ℕ) → 0 < 256 ^ w
    pos w = one-le-pow w 256 (omega arith)

-- A common prefix can be taken off.
pub append_cancel : (ps : Bytes) {xs ys : Bytes} → ps ++ xs ≡ ps ++ ys → xs ≡ ys
append_cancel [] p = p
append_cancel (b ∷ ps) p = append_cancel ps (head_eq p).1

pub length-to_le_bytes : (w n : ℕ) → length (to_le_bytes w n) ≡ w
unfolding to_le_bytes
length-to_le_bytes zero n = omega arith
length-to_le_bytes (suc w) n = omega (arith, length-to_le_bytes w (n / 256))

pub length-to_be_bytes : (w n : ℕ) → length (to_be_bytes w n) ≡ w
unfolding to_be_bytes
length-to_be_bytes zero n = omega arith
length-to_be_bytes (suc w) n = omega (arith, length-to_be_bytes w (n % 256 ^ w))

pub from_le_bytes-to_le_bytes : (w n : ℕ) → n < 256 ^ w → from_le_bytes (to_le_bytes w n) ≡ n
unfolding to_le_bytes from_le_bytes
from_le_bytes-to_le_bytes zero n h = omega arith
from_le_bytes-to_le_bytes (suc w) n h =
    let k : n < 256 ^ w * 256 = rw (pow-suc 256 w) at h in
    omega (arith, from_le_bytes-to_le_bytes w (n / 256) (omega arith))
