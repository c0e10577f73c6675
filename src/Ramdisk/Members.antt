-- ===== src/Ramdisk/Members.antt =====
-- The entries of an archive in order, as the loops of fs/ramdisk.c come to them: they end, and the
-- rounds that a loop is given reach past the last.
use xbks.Prelude.{
  ℕ, zero, suc, ◌+◌, ◌*◌, ◌/◌, ◌%◌, ◌^◌, ◌≤◌, ◌<◌, max, ◌≡◌, inl, inr, Option-cases, none, some,
  List, [], ◌∷◌, length, arith,
}
use xbks.Prelude.Bits.{bit_and-tar_mask}
use xbks.Ramdisk.Tar.{
  Ramdisk, Entry, tar_block_size, size_mod, align_to_tar_block, entry_at, next_offset,
}
use xbks.Ramdisk.Files.{rounds}

-- The entries from an offset on.
pub data Members (r : Ramdisk) : ℕ → List Entry → Type 0 where
  stop : {offset : ℕ} → entry_at r offset ≡ none → Members r offset []
  next :
      {offset : ℕ} {e : Entry} {es : List Entry}
      → entry_at r offset ≡ some e
      → Members r (next_offset e) es
      → Members r offset (e ∷ es)

-- An archive lies in the lower half of the address space, so that no offset wraps.
pub record IsValid (r : Ramdisk) : Type 0 where
  pub small : r.size ≤ 2 ^ 63

pub align_to_tar_block_lem : (n : ℕ) → n ≤ 2 ^ 63 → align_to_tar_block n ≡ (n + 511) / 512 * 512
unfolding align_to_tar_block
align_to_tar_block_lem n h = omega (arith, bit_and-tar_mask ((n + 511) % size_mod) (omega arith))

-- What the tests of a round say of the entry that they accept.
pub record Within (r : Ramdisk) (offset : ℕ) (e : Entry) : Type 0 where
  pub here : e.offset ≡ offset
  pub after_header : e.data_offset ≡ offset + tar_block_size
  pub fits : e.data_offset + e.file_size ≤ r.size
  pub forward : offset + tar_block_size ≤ next_offset e
  pub end : next_offset e ≤ r.size + 511

accepted :
    (r : Ramdisk) (offset : ℕ) (e : Entry)
    → IsValid r
    → offset ≤ r.size + 512
    → entry_at r offset ≡ some e
    → (e.offset ≡ offset)
      × (e.data_offset ≡ offset + tar_block_size)
      × (e.data_offset + e.file_size ≤ r.size)
unfolding entry_at
accepted r offset e v h got = ground arith

pub entry_at-Within :
    (r : Ramdisk) (offset : ℕ) (e : Entry)
    → IsValid r
    → offset ≤ r.size + 512
    → entry_at r offset ≡ some e
    → Within r offset e
unfolding next_offset
entry_at-Within r offset e v h got =
    let (at, data_at, fits) = accepted r offset e v h got in
    let aligned = align_to_tar_block_lem e.file_size (omega arith) in
    record {
      here = at;
      after_header = data_at;
      fits = fits;
      forward = omega arith;
      end = omega arith;
    }

no_entry :
    (r : Ramdisk) (offset : ℕ)
    → offset ≤ r.size + 512
    → IsValid r
    → r.size < offset + 512
    → entry_at r offset ≡ none
unfolding entry_at
no_entry r offset h v past = ground arith

Members-from :
    (n : ℕ) (r : Ramdisk) (offset : ℕ)
    → IsValid r
    → offset ≤ r.size + 511
    → r.size < offset + n
    → (es : List Entry) × Members r offset es
Members-from zero r offset v h past = ([], stop (no_entry r offset (omega arith) v (omega arith)))
Members-from (suc n) r offset v h past = elim (Option-cases (entry_at r offset)) [
  | inl ends ↦ ([], stop ends)
  | inr (e, got) ↦
      let w = entry_at-Within r offset e v (omega arith) got in
      let (es, m) = Members-from n r (next_offset e) v w.end (omega (arith, w.forward)) in
      (e ∷ es, next got m)
]

-- In an archive of at most 2^63 bytes, the steps from entry to entry come to an end: the archive
-- is a finite list of entries.
pub Members-total : (r : Ramdisk) → IsValid r → (es : List Entry) × Members r 0 es
Members-total r v = Members-from (r.size + 1) r 0 v (omega arith) (omega arith)

Members-bound :
    {r : Ramdisk} {offset : ℕ} {es : List Entry}
    → IsValid r
    → offset ≤ r.size + 511
    → Members r offset es
    → tar_block_size * length es + offset ≤ max r.size offset
Members-bound v h (stop ends) = omega arith
Members-bound {r} {offset} v h (next {e} got m) =
    let w = entry_at-Within r offset e v (omega arith) got in
    omega (arith, Members-bound v w.end m, w.forward, w.fits, w.after_header)

-- An archive of at most 2^63 bytes has fewer entries than the loops over it are given rounds, so
-- that no loop runs out of rounds.
pub length-lt-rounds :
    {r : Ramdisk} {es : List Entry} → IsValid r → Members r 0 es → length es < rounds r
length-lt-rounds v m = omega (arith, Members-bound v (omega arith) m)
