-- ===== src/VxdmaDev/Filter.antt =====
-- vxdma/vxdma_dev.c with vxdma/vxdma.c: the word by which a client asks for a channel, and the word
-- that the probe gives to a channel.
use petalinux_driver.Prelude.{
  ℕ, ◌+◌, ◌*◌, ◌%◌, ◌^◌, ◌<◌, ◌≡◌, some, bit_and, bit_or, ◌==◌, ◌&&◌, arith,
}
use native.Mathlib.Nat.{one-le-pow}
use petalinux_driver.Prelude.Bits.{bit_and-ones, bit_or-parts, bit_or-none, bit_or-no_ones}
use petalinux_driver.Kernel.{Direction}
use petalinux_driver.Vxdma.Chan.{u32}
use petalinux_driver.Vxdma.Probe.{Headers, channel_word}
use petalinux_driver.VxdmaDev.{private_word, xdma_filter}

-- `match`, in the request of a channel.
pub match_word : Headers → Direction → ℕ
match_word k direction = bit_or (bit_and (k.direction_value direction) 0xff) k.ip_dma

-- The values of the kernel's headers: the directions are small numbers.
pub record HasValues (k : Headers) : Type 0 where
  pub ip : k.ip_dma ≡ 0x10_0000
  pub shift : k.device_id_shift ≡ 28
  pub small : (d : Direction) → k.direction_value d < 2 ^ 8

-- Two numbers of which the one stands above the digits of the other.
bit_or_apart : (k low high : ℕ) → low < 2 ^ k → bit_or low (high * 2 ^ k) ≡ high * 2 ^ k + low
bit_or_apart k low high h =
    let parts = bit_or-parts k 0 high low 0 h (one-le-pow k 2 (omega arith)) in
    let a : 0 * 2 ^ k + low ≡ low = omega arith in
    let b : high * 2 ^ k + 0 ≡ high * 2 ^ k = omega arith in
    rw (a, b, bit_or-none high, bit_or-no_ones k low h) at parts

match_word_lem :
    (k : Headers) (d : Direction) → HasValues k → match_word k d ≡ 0x10_0000 + k.direction_value d
unfolding match_word
match_word_lem k d v =
    let low : bit_and (k.direction_value d) 0xff ≡ k.direction_value d =
      bit_and-ones 8 (k.direction_value d) (v.small d) in
    let apart : bit_or (k.direction_value d) 0x10_0000 ≡ 0x10_0000 + k.direction_value d =
      bit_or_apart 8 (k.direction_value d) 0x1000 (v.small d) in
    rw (low, v.ip) apart

channel_word_lem :
    (k : Headers) (d : Direction) (id : ℕ)
    → HasValues k
    → channel_word k d id ≡ id % 16 * 2 ^ 28 + match_word k d
unfolding match_word channel_word
channel_word_lem k d id v =
    let small : match_word k d < 2 ^ 28 = omega (arith, match_word_lem k d v, v.small d) in
    let top : u32 (id * 2 ^ 28) ≡ id % 16 * 2 ^ 28 = omega arith in
    rw (v.shift, top) (bit_or_apart 28 (match_word k d) (id % 16) small)

-- With the values of the kernel's headers, a client that asks for a direction is given exactly the
-- channels of that direction on the devices whose number is a multiple of 16: the filter compares
-- the word that the probe computes from the direction and the number of the device, modulo 2 ^ 32,
-- with one that has no number.
pub xdma_filter-channel_word :
    (k : Headers) (given wanted : Direction) (id : ℕ)
    → HasValues k
    → xdma_filter (private_word (channel_word k given id)) (some (match_word k wanted))
      ≡ ((id % 16 == 0) && (k.direction_value given == k.direction_value wanted))
unfolding xdma_filter
xdma_filter-channel_word k given wanted id v =
    let w = channel_word_lem k given id v in
    let m = match_word_lem k given v in
    let n = match_word_lem k wanted v in
    let a = v.small given in let b = v.small wanted in ground arith
