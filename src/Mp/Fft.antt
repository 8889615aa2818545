-- ===== src/Mp/Fft.antt =====
-- The transforms of libbench/mp.c: complex products, the powers of a root of unity, bit reversal, the transform
-- of a power of two, Bluestein's algorithm for the other lengths, and the choice between the two. The table of
-- roots that `cexp_builtin` keeps and the reciprocal `1.0 / nb` are arguments.
pub mod Laws
pub mod Reversal
pub mod Involution
pub mod Permutation
pub mod Total
mod Tests
use bench_fft.Base.{
  ℕ, zero, suc, ◌+◌, ◌-◌, ◌*◌, ◌/◌, ◌%◌, ltb, ◌==◌, ◌&&◌, bit_and, bit_xor, true, false, not,
  Option, none, some, Buffer, store, loop_below, if◌then◌else◌,
}
use bench_fft.Base.Int.{ℤ, eqb_ℤ, ltb_ℤ, pos_part, neg_part, ◌*ℤ◌}
use bench_fft.Base.Int.ℤ.{pos, negsuc}
use bench_fft.Base.Options.{◌>>=◌, loop_while_some}
use bench_fft.Mp.{Number, zero_number, fromshort, add, sub, mul}
use bench_fft.Mp.Bluestein.{pow2_atleast, next_ksq, swapri}
use bench_fft.Numeric.Pow2.{power_of_two}

-- (r0 + i i0)(r1 + i i1)
unfoldable pub cmul : Number × Number → Number × Number → Number × Number
cmul (r0, i0) (r1, i1) = (sub (mul r0 r1) (mul i0 i1), add (mul r0 i1) (mul i0 r1))

-- (r0 - i i0)(r1 + i i1)
unfoldable pub cmulj : Number × Number → Number × Number → Number × Number
cmulj (r0, i0) (r1, i1) = (add (mul r0 r1) (mul i0 i1), sub (mul r0 i1) (mul i0 r1))

-- The elements 2 k and 2 k + 1 of an array.
abbrev pub pair_at : Buffer Number → ℕ → Number × Number
pair_at a k = (a (2 * k), a (2 * k + 1))

abbrev pub store_pair : Buffer Number → ℕ → Number × Number → Buffer Number
store_pair a k (r, i) = store (store a (2 * k) r) (2 * k + 1) i

-- `for (k = 0; m; ++k, m >>= 1)`, with the product `times` under `if (m & 1)`. Fuel of `m` rounds is
-- enough, since a positive `m` shrinks.
unfoldable pub power_loop :
    (Number × Number → Number × Number → Number × Number)
    → (ℕ → Number × Number)
    → ℕ
    → ℕ
    → ℕ
    → Number × Number
    → Number × Number
power_loop times w zero k m z = z
power_loop times w (suc fuel) k m z = elim (m == 0) [
  | true ↦ z
  | false ↦ power_loop times w fuel (suc k) (m / 2) (if m % 2 == 1 then times (w k) z else z)
]

-- The table `w` holds the roots cos2pi(2^k, n) and sin2pi(2^k, n) of the caller's `n`.
unfoldable pub cexp_builtin : (ℕ → Number × Number) → ℤ → Number × Number
cexp_builtin w m =
    let start : Number × Number = (fromshort (pos 1), fromshort (pos 0)) in
    if ltb_ℤ (pos 0) m
    then power_loop cmul w (pos_part m) 0 (pos_part m) start
    else power_loop cmulj w (neg_part m) 0 (neg_part m) start

-- `do { m >>= 1; j ^= m; } while (!(j & m));`
unfoldable pub next_reversed : ℕ → ℕ → ℕ → Option ℕ
next_reversed zero m j = none
next_reversed (suc fuel) m j =
    let half = m / 2 in
    let flipped = bit_xor j half in
    let rest = next_reversed fuel half flipped in
    if bit_and flipped half == 0 then rest else some flipped

-- Both numbers of an element change places with those of another.
abbrev pub swap_pairs : Buffer Number → ℕ → ℕ → Buffer Number
swap_pairs a i j = store_pair (store_pair a i (pair_at a j)) j (pair_at a i)

unfoldable pub bitrev_round : ℕ → ℕ → ℕ × Buffer Number → Option (ℕ × Buffer Number)
bitrev_round n i (j, a) = do
  j' ← next_reversed 32 n j
  some (j', if ltb i j then swap_pairs a i j else a)

unfoldable pub bitrev : ℕ → Buffer Number → Option (Buffer Number)
bitrev n a = do (j, b) ← loop_while_some (n - 1) (bitrev_round n) (0, a); some b

-- The body of the loop on `k`.
unfoldable pub butterfly : ℕ → Number × Number → ℕ → Buffer Number → Buffer Number
butterfly i w k a =
    let (r0, i0) = pair_at a k in
    let (wr, wi) = w in
    let (r1, i1) = pair_at a (k + i) in
    let xr = sub (mul r1 wr) (mul i1 wi) in
    let xi = add (mul r1 wi) (mul i1 wr) in
    store_pair (store_pair a k (add r0 xr, add i0 xi)) (k + i) (sub r0 xr, sub i0 xi)

-- The rounds of `for (k = j; k < n; k += 2 * i)`, for a `j` below `i`.
abbrev pub blocks : ℕ → ℕ → ℕ → ℕ
blocks n i j = (n - j + (2 * i - 1)) / (2 * i)

-- The roots for a power `2 * i`, and their numbers.
unfoldable pub butterflies : (ℕ → ℕ → Number × Number) → ℕ → ℤ → ℕ → Buffer Number → Buffer Number
butterflies roots n sign i a =
    loop_below i
      (λ j b.
        let w = cexp_builtin (roots (2 * i)) (sign *ℤ pos j) in
        loop_below (blocks n i j) (λ q c. butterfly i w (j + q * (2 * i)) c) b)
      a

-- `for (i = 1; i < n; i = 2 * i) body(i)` with fuel.
unfoldable pub doublings {ℓ} : {S : Type ℓ} → ℕ → (ℕ → S → S) → ℕ → ℕ → S → Option S
doublings n body zero i s = none
doublings n body (suc fuel) i s = elim (ltb i n) [
  | true ↦ doublings n body fuel (2 * i) (body i s)
  | false ↦ some s
]

unfoldable pub fft0 : (ℕ → ℕ → Number × Number) → ℕ → Buffer Number → ℤ → Option (Buffer Number)
fft0 roots n a sign = do b ← bitrev n a; doublings n (butterflies roots n sign) 32 1 b

-- `ksq` and the array `a` after the rounds of `bluestein_sequence`.
unfoldable pub sequence_round :
    (ℕ → ℕ → Number × Number) → ℕ → ℕ → ℕ × Buffer Number → Option (ℕ × Buffer Number)
sequence_round roots n k (ksq, a) = do
  ksq' ← next_ksq n k (some ksq)
  some (ksq', store_pair a k (cexp_builtin (roots (2 * n)) (pos ksq')))

-- a[2*k]+i*a[2*k+1] = exp(2*pi*i*k^2/(2*n))
unfoldable pub bluestein_sequence :
    (ℕ → ℕ → Number × Number) → ℕ → Buffer Number → Option (Buffer Number)
bluestein_sequence roots n a = do
  (ksq, w) ← loop_while_some n (sequence_round roots n) (1, a)
  some w

-- `for (i = 0; i < 2*nb; ++i) cpy(zero, y[i]);`
abbrev pub clear : ℕ → Buffer Number → Buffer Number
clear nb y = loop_below (2 * nb) (λ i b. store b i zero_number) y

-- The loops that copy the chirp `w` to the start of `y` and, backwards, to its end. The second loop
-- begins with 1.
unfoldable pub wrap : ℕ → ℕ → Buffer Number → Buffer Number → Buffer Number
wrap n nb w y =
    let copied = loop_below n (λ i b. store_pair b i (pair_at w i)) (clear nb y) in
    loop_below (n - 1) (λ i b. store_pair b (nb - suc i) (pair_at w (suc i))) copied

-- `cached_bluestein_n`, and what the two cached arrays hold.
pub record Kept : Type 0 where
  pub n : ℤ
  pub w : Buffer Number
  pub y : Buffer Number

-- The arrays of a size that is not in the cache; `fresh` is what new memory holds.
unfoldable pub prepare : (ℕ → ℕ → Number × Number) → Buffer Number → ℕ → ℕ → Option Kept
prepare roots fresh n nb = do
  w ← bluestein_sequence roots n fresh
  y ← fft0 roots nb (wrap n nb w fresh) (negsuc 0)
  some (record { n = pos n; w = w; y = y })

-- From `cpy(zero, b[i])` on: the product with the chirp, the convolution and the scaled product.
unfoldable pub convolve :
    (ℕ → ℕ → Number × Number)
    → Buffer Number
    → ℕ
    → ℕ
    → Number
    → Kept
    → Buffer Number
    → Option (Buffer Number)
convolve roots fresh n nb nbinv c a = do
  let filled =
      loop_below n (λ i b. store_pair b i (cmulj (pair_at c.w i) (pair_at a i))) (clear nb fresh)
  there ← fft0 roots nb filled (negsuc 0)
  let product = loop_below nb (λ i b. store_pair b i (cmul (pair_at b i) (pair_at c.y i))) there
  back ← fft0 roots nb product (pos 1)
  some (
      loop_below n
        (λ i out.
          let (r, s) = cmulj (pair_at c.w i) (pair_at back i) in
          store_pair out i (mul nbinv r, mul nbinv s))
        a)

unfoldable pub bluestein :
    (ℕ → ℕ → Number × Number)
    → (ℕ → Number)
    → Buffer Number
    → ℕ
    → Kept
    → Buffer Number
    → Option (Kept × Buffer Number)
bluestein roots inverse fresh n c a = do
  nb ← pow2_atleast (2 * n)
  c' ← (if eqb_ℤ c.n (pos n) then some c else prepare roots fresh n nb)
  out ← convolve roots fresh n nb (inverse nb) c' a
  some (c', out)

unfoldable pub fft1 :
    (ℕ → ℕ → Number × Number)
    → (ℕ → Number)
    → Buffer Number
    → ℕ
    → Kept
    → Buffer Number
    → ℤ
    → Option (Kept × Buffer Number)
fft1 roots inverse fresh n c a sign =
    if power_of_two n then (fft0 roots n a sign >>= λ out. some (c, out)) else do
      let swap = (λ (b : Buffer Number). if eqb_ℤ sign (pos 1) then swapri n b else b)
      (c', out) ← bluestein roots inverse fresh n c (swap a)
      some (c', swap out)
