-- ===== src/Base/Words.antt =====
-- Go's `uint64` and `int64`. A `uint64` is a native number below 2 ^ 64. An `int64` is kept as its
-- two's complement bit pattern, also a number below 2 ^ 64: conversion between the two types
-- (`int64(x)`, `uint64(x)`) is then the identity, sums wrap, and only the order differs.
use ag3nt_coin.Base.Tests.{ltb, leb}
use Prim.Native.Nat.{ℕ, ◌+◌, ◌-◌, ◌%◌, ◌^◌, ◌≤◌, ◌<◌}
use mathlib.Core.Path.{◌≡◌}
use mathlib.Core.Bool.{Bool, not}
use native.Mathlib.Omega.{arith}

abbrev pub word : ℕ
word = 2 ^ 64

abbrev pub half_word : ℕ
half_word = 2 ^ 63

-- `a + b`, on `uint64` and on `int64`
unfoldable pub add64 : ℕ → ℕ → ℕ
add64 a b = (a + b) % word

-- `a - b`
unfoldable pub sub64 : ℕ → ℕ → ℕ
sub64 a b = (a + word - b) % word

-- The signed order: the sign bit is flipped on both sides.
unfoldable pub flip_sign : ℕ → ℕ
flip_sign a = (a + half_word) % word

-- `a < b` on `int64`
unfoldable pub slt : ℕ → ℕ → Bool
unfolding flip_sign
slt a b = ltb (flip_sign a) (flip_sign b)

-- `a <= b` on `int64`
unfoldable pub sle : ℕ → ℕ → Bool
unfolding flip_sign
sle a b = leb (flip_sign a) (flip_sign b)

pub add64-eq : (a b : ℕ) → a + b < word → add64 a b ≡ a + b
unfolding add64
add64-eq a b h = omega arith

pub sub64-eq : (a b : ℕ) → b ≤ a → a < word → sub64 a b ≡ a - b
unfolding sub64
sub64-eq a b h k = omega arith

-- On values that are not negative the signed order is the order of the numbers.
pub slt-eq-ltb : (a b : ℕ) → a < half_word → b < half_word → slt a b ≡ ltb a b
unfolding slt
slt-eq-ltb a b h k = ground arith

pub sle-eq-leb : (a b : ℕ) → a < half_word → b < half_word → sle a b ≡ leb a b
unfolding sle
sle-eq-leb a b h k = ground arith

pub sub-le-sub64 : (a b : ℕ) → a < word → a - b ≤ sub64 a b
unfolding sub64
sub-le-sub64 a b h = omega arith

-- `a <= b` is the negation of `b < a`, on `int64`.
pub sle-eq-not-slt : (a b : ℕ) → sle a b ≡ not (slt b a)
unfolding sle slt
sle-eq-not-slt a b = ground arith
