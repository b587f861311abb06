-- ===== src/Crc/Table.antt =====
-- The table of misc/c_crc32.cxx against the bitwise definition of the checksum.
use Prim.Native.Nat.{bit_xor, ◌/◌}
use my_nignx.Prelude.{
  ℕ, zero, suc, ◌%◌, ◌≡◌, ◌<◌, refl, Bool, true, false, ◌&&◌, ◌==◌, if◌then◌else◌, arith, ==_iff,
  Bool-cases, inl, inr, get_or,
}
use my_nignx.Crc.{iterate, table_entry, init_crc32_table}

-- One bit of the checksum in the order in which the bits are sent: the polynomial reflected.
abbrev pub bit_step : ℕ → ℕ
bit_step v = bit_xor (v / 2) (if v % 2 == 1 then 0xedb88320 else 0)

entries_right : ℕ → Bool
entries_right zero = true
entries_right (suc n) = (get_or init_crc32_table n 0 == iterate 8 bit_step n) && entries_right n

all_right : entries_right 256 ≡ true
unfolding entries_right init_crc32_table table_entry
all_right = refl

entry_right :
    (n i : ℕ) → entries_right n ≡ true → i < n → get_or init_crc32_table i 0 ≡ iterate 8 bit_step i
unfolding entries_right
entry_right zero i e h = absurd (omega arith)
entry_right (suc n) i e h =
    elim (Bool-cases (get_or init_crc32_table n 0 == iterate 8 bit_step n)) [
      | inl right ↦
          let rest : entries_right n ≡ true = rw right at e in
          elim (Bool-cases (i == n)) [
            | inl last ↦
                rw ((==_iff i n).0 last)
                  ((==_iff (get_or init_crc32_table n 0) (iterate 8 bit_step n)).0 right)
            | inr earlier ↦ entry_right n i rest (ground arith)
          ]
      | inr wrong ↦ absurd (no_truth (rw wrong at e))
    ]
  where
    no_truth : false ≡ true → ⊥
    no_truth e = cc

-- Each of the 256 entries of the table, which the code makes from the polynomial 0x04c11db7 by
-- mirroring, is what eight steps of the mirrored shift register (polynomial 0xedb88320) make of its
-- index.
pub init_crc32_table-bit_step :
    (i : ℕ) → i < 256 → get_or init_crc32_table i 0 ≡ iterate 8 bit_step i
init_crc32_table-bit_step i h = entry_right 256 i all_right h
