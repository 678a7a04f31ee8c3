-- ===== src/Bits/Slice.antt =====
-- Slices of a result: the digits from `k` up, those below, and a field that a mask clears.
use native.Mathlib.Nat.{one-le-pow, mod-lt, div-add-mod'}
use ji_tboy.Base.{ℕ, ◌+◌, ◌-◌, ◌*◌, ◌/◌, ◌%◌, ◌^◌, ◌<◌, bit_and, bit_or, ◌≡◌, ap₂, ◌∙◌, sym, arith}
use ji_tboy.Bits.Field.{bit_or_split, bit_and_split, bit_and-zero, and_ones}
use ji_tboy.Bits.Bound.{bit_or-lt}

div_split : (m q r : ℕ) → r < m → (q * m + r) / m ≡ q
div_split m q r h = grind arith

mod_split : (m q r : ℕ) → r < m → (q * m + r) % m ≡ r
mod_split m q r h = grind arith

or_split :
    (k a b : ℕ)
    → bit_or a b ≡ bit_or (a / 2 ^ k) (b / 2 ^ k) * 2 ^ k + bit_or (a % 2 ^ k) (b % 2 ^ k)
or_split k a b =
    let pos = one-le-pow k 2 (omega arith) in
    ap₂ bit_or (sym (div-add-mod' a (2 ^ k))) (sym (div-add-mod' b (2 ^ k)))
    ∙ bit_or_split k (a / 2 ^ k) (b / 2 ^ k) (a % 2 ^ k) (b % 2 ^ k) (mod-lt a pos) (mod-lt b pos)

low_or-lt : (k a b : ℕ) → bit_or (a % 2 ^ k) (b % 2 ^ k) < 2 ^ k
low_or-lt k a b =
    let pos = one-le-pow k 2 (omega arith) in
    bit_or-lt k (a % 2 ^ k) (b % 2 ^ k) (mod-lt a pos) (mod-lt b pos)

pub bit_or-div : (k a b : ℕ) → bit_or a b / 2 ^ k ≡ bit_or (a / 2 ^ k) (b / 2 ^ k)
bit_or-div k a b = rw (or_split k a b) (div_split (2 ^ k) _ _ (low_or-lt k a b))

pub bit_or-mod : (k a b : ℕ) → bit_or a b % 2 ^ k ≡ bit_or (a % 2 ^ k) (b % 2 ^ k)
bit_or-mod k a b = rw (or_split k a b) (mod_split (2 ^ k) _ _ (low_or-lt k a b))

-- `word & ~(ones << k)` clears `w` digits from `k` up and keeps the rest.
pub bit_and_clear :
    (k w t word mask : ℕ)
    → mask ≡ (2 ^ t - 1) * 2 ^ w * 2 ^ k + (2 ^ k - 1)
    → word / 2 ^ k / 2 ^ w < 2 ^ t
    → bit_and word mask ≡ word / 2 ^ k / 2 ^ w * 2 ^ w * 2 ^ k + word % 2 ^ k
bit_and_clear k w t word mask e h =
    let one_k = one-le-pow k 2 (omega arith) in
    let one_w = one-le-pow w 2 (omega arith) in
    let top = word / 2 ^ k / 2 ^ w in
    let high : bit_and (word / 2 ^ k) ((2 ^ t - 1) * 2 ^ w) ≡ top * 2 ^ w = ground (
      arith,
      div-add-mod' (word / 2 ^ k) (2 ^ w),
      mod-lt (word / 2 ^ k) one_w,
      bit_and_split w top (2 ^ t - 1) (word / 2 ^ k % 2 ^ w) 0,
      bit_and-zero (word / 2 ^ k % 2 ^ w),
      and_ones t top h,
    ) in
    ground (
      arith,
      high,
      div-add-mod' word (2 ^ k),
      mod-lt word one_k,
      bit_and_split k (word / 2 ^ k) ((2 ^ t - 1) * 2 ^ w) (word % 2 ^ k) (2 ^ k - 1),
      and_ones k (word % 2 ^ k),
    )
