-- ===== src/Network/Buffer/Vector.antt =====
-- A `BytesMut` that is a list, for the runs of src/network/buffer.rs.
use fluidic_node.Prelude.{
  ℕ, zero, suc, ◌<◌, ◌≡◌, ◌≢◌, refl, List, [], ◌∷◌, length, get_or, set, length-set, arith,
}
use fluidic_node.Network.Buffer.Bytes.{BytesMut}

abbrev pub resized : ℕ → ℕ → List ℕ → List ℕ
resized zero x b = []
resized (suc n) x [] = x ∷ resized n x []
resized (suc n) x (y ∷ b) = y ∷ resized n x b

pub length-resized : (n x : ℕ) (b : List ℕ) → length (resized n x b) ≡ n
length-resized zero x b = refl
length-resized (suc n) x [] = omega (arith, length-resized n x [])
length-resized (suc n) x (y ∷ b) = omega (arith, length-resized n x b)

pub get_or-resized :
    (i n x : ℕ) (b : List ℕ) → i < length b → i < n → get_or (resized n x b) i 0 ≡ get_or b i 0
get_or-resized i zero x b h k = absurd (omega arith)
get_or-resized i (suc n) x [] h k = absurd (omega arith)
get_or-resized zero (suc n) x (y ∷ b) h k = refl
get_or-resized (suc i) (suc n) x (y ∷ b) h k = get_or-resized i n x b (omega arith) (omega arith)

pub get_or-set_self : (i x : ℕ) (b : List ℕ) → i < length b → get_or (set b i x) i 0 ≡ x
get_or-set_self i x [] h = absurd (omega arith)
get_or-set_self zero x (y ∷ b) h = refl
get_or-set_self (suc i) x (y ∷ b) h = get_or-set_self i x b (omega arith)

pub get_or-set_other : (i j x : ℕ) (b : List ℕ) → i ≢ j → get_or (set b j x) i 0 ≡ get_or b i 0
get_or-set_other i j x [] ne = refl
get_or-set_other zero zero x (y ∷ b) ne = absurd (ne refl)
get_or-set_other zero (suc j) x (y ∷ b) ne = refl
get_or-set_other (suc i) zero x (y ∷ b) ne = refl
get_or-set_other (suc i) (suc j) x (y ∷ b) ne =
    get_or-set_other i j x b (λ e. ne (omega (arith, e)))

abbrev pub vector : BytesMut
vector = record {
  Buf = List ℕ;
  with_capacity = λ _. [];
  resize = resized;
  at = λ i b. get_or b i 0;
  set = λ i x b. set b i x;
  size = length;
  size-resize = length-resized;
  size-set = λ i x b. length-set b i x;
  at-resize = get_or-resized;
  at-set_self = get_or-set_self;
  at-set_other = get_or-set_other;
}
