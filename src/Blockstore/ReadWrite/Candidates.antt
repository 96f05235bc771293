-- ===== src/Blockstore/ReadWrite/Candidates.antt =====
-- The blocks that a lookup by digest comes to in the index of a ReadWrite blockstore.
use go_car.Prelude.{
  ℕ, ◌≤◌, ◌≡◌, ◌⊎◌, refl, sym, ◌∙◌, ap, inl, inr, arith, List, [], ◌∷◌, ◌++◌, some,
}
use go_car.Prelude.{length, leb, Bool, true, false, Bool-cases, if◌then◌else◌}
use go_car.Bytes.{Bytes, bytes_equal}
use go_car.Bytes.RoundTrip.{bytes_equal_refl, bytes_equal→eq}
use go_car.Stream.{ok}
use go_car.Varint.{Varint}
use go_car.Cids.{CidLib, CidLaws, Decoded, Block}
use go_car.Blockstore.InsertionIndex.{RecordDigest}
use go_car.Blockstore.ReadOnly.Lookup.{pick}
use go_car.Blockstore.ReadWrite.Items.{IsItem, Items}
use mathlib.Core.List.{Mem, Mem-prop, mem-cons, not-mem-nil}
use mathlib.Core.Logic.Or

module _ {Cid : Type 0} (v : Varint) (lib : CidLib Cid) where
  -- Blocks that the limit on sections lets be read.
  abbrev pub AllFit : ℕ → List (Block Cid) → Type 0
  AllFit m [] = Unit
  AllFit m (c ∷ cs) = (length (lib.to_bytes c.cid ++ c.raw) ≤ m) × AllFit m cs

  pub AllFit-Mem :
      (m : ℕ) (bs : List (Block Cid)) (c : Block Cid)
      → AllFit m bs
      → Mem c bs
      → length (lib.to_bytes c.cid ++ c.raw) ≤ m
  AllFit-Mem m [] c fit mem = absurd (not-mem-nil mem)
  AllFit-Mem m (b ∷ bs) c fit mem =
      let test : leb (length (lib.to_bytes c.cid ++ c.raw)) m ≡ true =
        Or.elim (hlevel) (mem-cons.0 mem) (λ e. ground (arith, e, fit.0))
          (λ rest. ground (arith, AllFit-Mem m bs c fit.1 rest)) in
      ground (arith, test)

  -- The blocks whose items have a digest.
  abbrev pub with_digest : Bytes → List (RecordDigest Cid) → List (Block Cid) → List (Block Cid)
  with_digest d [] cs = []
  with_digest d (i ∷ is) [] = []
  with_digest d (i ∷ is) (c ∷ cs) =
      if bytes_equal d i.digest then c ∷ with_digest d is cs else with_digest d is cs

  module _ (base : ℕ) (content : Bytes) where
    differs :
        (i : RecordDigest Cid) (b c : Block Cid) (h : Decoded) {d : Bytes}
        → IsItem v lib base content i b
        → lib.decode (lib.hash c.cid) ≡ ok h
        → h.digest ≡ d
        → c ≡ b
        → bytes_equal d i.digest ≡ false
        → ⊥
    differs i b c h {d} item decoded same e p =
        let same_decoded : lib.decode (lib.hash b.cid) ≡ ok h = rw e at decoded in
        let equal : ok (record { code = item.code; digest = i.digest }) ≡ ok h =
          sym item.decoded ∙ same_decoded in
        let digests : i.digest ≡ d = cc in ground (arith, p, digests, bytes_equal_refl d)

    pub with_digest-Mem :
        (d : Bytes) (is : List (RecordDigest Cid)) (cs : List (Block Cid)) (c : Block Cid)
        (h : Decoded)
        → Items v lib base content is cs
        → lib.decode (lib.hash c.cid) ≡ ok h
        → h.digest ≡ d
        → Mem c cs
        → Mem c (with_digest d is cs)
    with_digest-Mem d is [] c h items decoded same mem = absurd (not-mem-nil mem)
    with_digest-Mem d [] (b ∷ cs) c h items decoded same mem = absurd items
    with_digest-Mem d (i ∷ is) (b ∷ cs) c h items decoded same mem =
        let rest : Mem c cs → Mem c (with_digest d is cs) =
          λ m. with_digest-Mem d is cs c h items.1 decoded same m in
        elim (Bool-cases (bytes_equal d i.digest)) [
          | inl p ↦ rw p (
              Or.elim Mem-prop (mem-cons.0 mem) (λ e. mem-cons.1 (Or.inl e))
                (λ m. mem-cons.1 (Or.inr (rest m))))
          | inr p ↦ rw p (
              Or.elim Mem-prop (mem-cons.0 mem)
                (λ e. absurd (differs i b c h items.0 decoded same e p)) rest)
        ]

    empty_blocks :
        (d : Bytes) (is : List (RecordDigest Cid)) {c : Block Cid}
        → Mem c (with_digest d is [])
        → Mem c []
    empty_blocks d [] mem = mem
    empty_blocks d (i ∷ is) mem = mem

    pub Mem-with_digest :
        (d : Bytes) (is : List (RecordDigest Cid)) (cs : List (Block Cid)) (c : Block Cid)
        → Items v lib base content is cs
        → Mem c (with_digest d is cs)
        → Mem c cs
    Mem-with_digest d is [] c items mem = absurd (not-mem-nil (empty_blocks d is mem))
    Mem-with_digest d [] (b ∷ cs) c items mem = absurd items
    Mem-with_digest d (i ∷ is) (b ∷ cs) c items mem =
        let rest : Mem c (with_digest d is cs) → Mem c (b ∷ cs) =
          λ m. mem-cons.1 (Or.inr (Mem-with_digest d is cs c items.1 m)) in
        elim (Bool-cases (bytes_equal d i.digest)) [
          | inl p ↦ Or.elim Mem-prop (mem-cons.0 (rw p at mem)) (λ e. mem-cons.1 (Or.inl e)) rest
          | inr p ↦ rest (rw p at mem)
        ]

    pub with_digest-hash :
        (d mh : Bytes) (is : List (RecordDigest Cid)) (cs : List (Block Cid))
        → Items v lib base content is cs
        → ((x : Block Cid) (g : Decoded)
            → Mem x cs
            → lib.decode (lib.hash x.cid) ≡ ok g
            → g.digest ≡ d
            → lib.hash x.cid ≡ mh)
        → (x : Block Cid) → Mem x (with_digest d is cs)
        → lib.hash x.cid ≡ mh
    with_digest-hash d mh is [] items one x mem = absurd (not-mem-nil (empty_blocks d is mem))
    with_digest-hash d mh [] (c ∷ cs) items one x mem = absurd items
    with_digest-hash d mh (i ∷ is) (c ∷ cs) items one x mem =
        let rest : _ =
          with_digest-hash d mh is cs items.1 (λ y g m e q. one y g (mem-cons.1 (Or.inr m)) e q)
            x in
        elim (Bool-cases (bytes_equal d i.digest)) [
          | inl p ↦
              let now : lib.hash c.cid ≡ mh =
                one c (record { code = items.0.code; digest = i.digest }) (mem-cons.1 (Or.inl refl))
                  items.0.decoded (sym (bytes_equal→eq d i.digest p)) in
              Or.elim (hlevel) (mem-cons.0 (rw p at mem)) (λ e. rw e now) rest
          | inr p ↦ rest (rw p at mem)
        ]

  -- Where every candidate has the multihash of the key, or CIDs are compared as a whole, a candidate
  -- with the CID of the key is found, or one that serves as well.
  pub pick-some :
      (whole : Bool) (key : Cid) (c : Block Cid) (cs : List (Block Cid))
      → CidLaws lib
      → (whole ≡ true) ⊎ ((x : Block Cid) → Mem x cs → lib.hash x.cid ≡ lib.hash key)
      → c.cid ≡ key
      → Mem c cs
      → (x : Block Cid) × (pick lib whole key cs ≡ some x)
        × Mem x cs
        × (lib.hash x.cid ≡ lib.hash key)
  pick-some whole key c [] cids mode same mem = absurd (not-mem-nil mem)
  pick-some false key c (b ∷ cs) cids (inl e) same mem = absurd (cc e)
  pick-some false key c (b ∷ cs) cids (inr all) same mem =
      let hash : lib.hash b.cid ≡ lib.hash key = all b (mem-cons.1 (Or.inl refl)) in
      (b, ground (arith, hash, bytes_equal_refl (lib.hash key)), mem-cons.1 (Or.inl refl), hash)
  pick-some true key c (b ∷ cs) cids mode same mem = elim (Bool-cases (lib.equals b.cid key)) [
    | inl p ↦ (
      b,
      ground (arith, p),
      mem-cons.1 (Or.inl refl),
      ap lib.hash ((cids.equals_iff b.cid key).0 p),
    )
    | inr p ↦
        let rest : Mem c cs =
          Or.elim Mem-prop (mem-cons.0 mem)
            (λ e.
              absurd
                (ground (arith, p, (cids.equals_iff b.cid key).1 (sym (ap (λ x. x.cid) e) ∙ same))))
            (λ m. m) in
        let (x, found, among, hash) = pick-some true key c cs cids (inl refl) same rest in
        (x, ground (arith, p, found), mem-cons.1 (Or.inr among), hash)
  ]
