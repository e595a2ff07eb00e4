-- ===== src/Wire/Order.antt =====
-- Byte order conversions are their own inverses, and a read of stored bytes gives the number back.
use stanford.Prelude.{ℕ, ◌/◌, ◌%◌, ◌<◌, ◌≡◌, arith, List}
use stanford.Wire.{htons, htonl, read16, read32, cksum}

pub htons-lt : (x : ℕ) → htons x < 65536
unfolding htons
htons-lt x = omega arith

pub htonl-lt : (x : ℕ) → htonl x < 4294967296
unfolding htonl
htonl-lt x = omega arith

pub htons-htons : (x : ℕ) → x < 65536 → htons (htons x) ≡ x
unfolding htons
htons-htons x h = omega arith

pub htonl-htonl : (x : ℕ) → x < 4294967296 → htonl (htonl x) ≡ x
unfolding htonl
htonl-htonl x h = omega arith

pub cksum-lt : (xs : List ℕ) → cksum xs < 65536
unfolding cksum htons
cksum-lt xs = ground arith

pub read16-le16 : (x : ℕ) → x < 65536 → read16 (x % 256) (x / 256 % 256) ≡ x
unfolding read16
read16-le16 x h = omega arith

pub read32-le32 :
    (x : ℕ)
    → x < 4294967296
    → read32 (x % 256) (x / 256 % 256) (x / 65536 % 256) (x / 16777216 % 256) ≡ x
unfolding read32
read32-le32 x h = omega arith
