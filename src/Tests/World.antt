-- ===== src/Tests/World.antt =====
-- Concrete packages for the runs: LEB128 varints, CIDs of a code and a one-byte digest, and a
-- header codec that writes the version, the number of roots and the roots.
use go_car.Prelude.{
  ℕ, zero, suc, ◌+◌, ◌*◌, ◌/◌, ◌%◌, ◌≤◌, ◌<◌, ◌^◌, ◌≡◌, ◌↔◌, refl, ap, arith, List, [], ◌∷◌, ◌++◌,
  none, some,
}
use go_car.Prelude.{length, Bool, true, ltb, ◌==◌, ◌&&◌, if◌then◌else◌}
use go_car.Bytes.{Bytes}
use go_car.Stream.{eof, external, Result, ok, err}
use go_car.Varint.{Uvarint, Varint, VarintLaws}
use go_car.Cids.{Decoded, CidLib, CidLaws}
use go_car.Carv1.{CarHeader, Cbor, CborLaws}
use native.Mathlib.Nat.{pow-suc}

unfoldable pub leb_put : ℕ → ℕ → Bytes
leb_put zero n = n % 128 ∷ []
leb_put (suc k) n =
    let rest = leb_put k (n / 128) in if ltb n 128 then n ∷ [] else (n % 128 + 128) ∷ rest

unfoldable pub leb_size : ℕ → ℕ → ℕ
leb_size zero n = 1
leb_size (suc k) n = let rest = leb_size k (n / 128) in if ltb n 128 then 1 else suc rest

unfoldable pub leb_read : ℕ → Bytes → Uvarint
leb_read zero src = record { value = 0; error = some (external 1); rest = src }
leb_read (suc k) [] = record { value = 0; error = some eof; rest = [] }
leb_read (suc k) (b ∷ bs) =
    let more = leb_read k bs in
    if ltb b 128
    then record { value = b; error = none; rest = bs }
    else record { value = b % 128 + 128 * more.value; error = more.error; rest = more.rest }

pow_pos : (k : ℕ) → 0 < 128 ^ k
pow_pos zero = omega arith
pow_pos (suc k) = omega (arith, pow-suc 128 k, pow_pos k)

leb_size_bounds : (k n : ℕ) → (1 ≤ leb_size k n) × (leb_size k n ≤ k + 1)
unfolding leb_size
leb_size_bounds zero n = omega arith
leb_size_bounds (suc k) n = ground (arith, leb_size_bounds k (n / 128))

leb_size_small : (j k n : ℕ) → n < 128 ^ suc j → leb_size k n ≤ suc j
unfolding leb_size
leb_size_small j zero n h = omega arith
leb_size_small zero (suc k) n h = ground arith
leb_size_small (suc j) (suc k) n h =
    ground (arith, pow-suc 128 (suc j), leb_size_small j k (n / 128))

length-leb_put : (k n : ℕ) → length (leb_put k n) ≡ leb_size k n
unfolding leb_put leb_size
length-leb_put zero n = refl
length-leb_put (suc k) n = ground (arith, length-leb_put k (n / 128))

leb_read-leb_put :
    (k n : ℕ) (rest : Bytes)
    → n < 128 ^ suc k
    → leb_read (suc k) (leb_put k n ++ rest) ≡ record { value = n; error = none; rest = rest }
unfolding leb_read leb_put
leb_read-leb_put zero n rest h = ground arith
leb_read-leb_put (suc k) n rest h =
    ground (arith, pow-suc 128 (suc k), leb_read-leb_put k (n / 128) rest)

leb_read_shorter :
    (k : ℕ) (src : Bytes)
    → (leb_read k src).error ≡ none
    → (length (leb_read k src).rest < length src) × ((leb_read k src).value < 128 ^ k)
unfolding leb_read
leb_read_shorter zero src e = cc
leb_read_shorter (suc k) [] e = cc
leb_read_shorter (suc k) (b ∷ bs) e =
    ground (arith, pow-suc 128 k, pow_pos k, leb_read_shorter k bs)

abbrev pub leb : Varint
leb = record { put = leb_put 8; size = leb_size 8; read = leb_read 9 }

pub leb-VarintLaws : VarintLaws leb
leb-VarintLaws = record {
  size_pos = λ n. (leb_size_bounds 8 n).0;
  size_max = λ n. omega (arith, leb_size_bounds 8 n);
  size_small = λ n h. leb_size_small 7 8 n h;
  length_put = λ n h. length-leb_put 8 n;
  read_put = λ n rest h. leb_read-leb_put 8 n rest h;
  read_nil = unfold leb_read in refl;
  read_shorter = λ src e. leb_read_shorter 9 src e;
}

pub record TestCid : Type 0 where
  pub code : ℕ
  pub value : ℕ

abbrev pub cid_bytes : TestCid → Bytes
cid_bytes c = c.code ∷ c.value ∷ []

abbrev pub cid_from : Bytes → Result (ℕ × TestCid)
cid_from (a ∷ b ∷ _) = ok (2, record { code = a; value = b })
cid_from _ = err (external 2)

abbrev pub checksum : Bytes → ℕ
checksum [] = 0
checksum (b ∷ bs) = (b + checksum bs) % 256

abbrev pub decode_hash : Bytes → Result Decoded
decode_hash (a ∷ b ∷ []) = ok (record { code = a; digest = b ∷ [] })
decode_hash _ = err (external 3)

abbrev pub cid_equals : TestCid → TestCid → Bool
cid_equals a b = (a.code == b.code) && (a.value == b.value)

abbrev pub test_cids : CidLib TestCid
test_cids = record {
  to_bytes = cid_bytes;
  from_bytes = cid_from;
  from_reader = cid_from;
  equals = cid_equals;
  hash = cid_bytes;
  sum = λ c bs. ok (record { code = c.code; value = checksum bs });
  mh_type = λ c. c.code;
  decode = decode_hash;
}

cid_equals_iff : (a b : TestCid) → (cid_equals a b ≡ true) ↔ (a ≡ b)
cid_equals_iff a b = ground arith

pub test_cids-CidLaws : CidLaws test_cids
test_cids-CidLaws = record {
  equals_iff = cid_equals_iff;
  to_bytes_pos = λ c. omega arith;
  from_bytes-to_bytes = λ c rest. refl;
  from_reader-to_bytes = λ c rest. refl;
}

abbrev pub roots_bytes : List TestCid → Bytes
roots_bytes [] = []
roots_bytes (c ∷ cs) = c.code ∷ c.value ∷ roots_bytes cs

abbrev pub roots_from : Bytes → List TestCid
roots_from (a ∷ b ∷ bs) = record { code = a; value = b } ∷ roots_from bs
roots_from _ = []

abbrev pub decode_header : Bytes → Result (CarHeader TestCid)
decode_header [] = err (external 4)
decode_header (v ∷ bs) = ok (record { roots = roots_from bs; version = v })

abbrev pub test_cbor : Cbor TestCid
test_cbor = record {
  dump_object = λ h. ok (h.version ∷ roots_bytes h.roots);
  decode_into = decode_header;
}

pub roots_from-roots_bytes : (cs : List TestCid) → roots_from (roots_bytes cs) ≡ cs
roots_from-roots_bytes [] = refl
roots_from-roots_bytes (c ∷ cs) = ap (λ l. c ∷ l) (roots_from-roots_bytes cs)

pub test_cbor-CborLaws : CborLaws test_cbor
test_cbor-CborLaws = record {
  decode-dump = λ h hb e. ground (arith, roots_from-roots_bytes h.roots);
}
