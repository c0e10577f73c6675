-- ===== src/Elf/Headers.antt =====
-- `struct elf64_ehdr` and `struct elf64_phdr`, read from an archive in the machine's byte order.
use xbks.Prelude.{ℕ, zero, suc, ◌+◌, ◌*◌, Bool, not, ◌||◌, ◌==◌}

abbrev pub Bytes : Type 0
Bytes = ℕ → ℕ

-- `n` bytes as a number, lowest first.
unfoldable pub read_le : ℕ → Bytes → ℕ → ℕ
read_le zero bytes at = 0
read_le (suc n) bytes at = bytes at + 256 * read_le n bytes (at + 1)

pub record Ehdr : Type 0 where
  pub kind : ℕ
  pub machine : ℕ
  pub entry : ℕ
  pub phoff : ℕ
  pub phentsize : ℕ
  pub phnum : ℕ

pub record Phdr : Type 0 where
  pub kind : ℕ
  pub offset : ℕ
  pub vaddr : ℕ
  pub filesz : ℕ
  pub memsz : ℕ

abbrev pub ehdr_size : ℕ
ehdr_size = 64

abbrev pub phdr_size : ℕ
phdr_size = 56

unfoldable pub ehdr_at : Bytes → ℕ → Ehdr
unfolding read_le
ehdr_at bytes at = record {
  kind = read_le 2 bytes (at + 16);
  machine = read_le 2 bytes (at + 18);
  entry = read_le 8 bytes (at + 24);
  phoff = read_le 8 bytes (at + 32);
  phentsize = read_le 2 bytes (at + 54);
  phnum = read_le 2 bytes (at + 56);
}

unfoldable pub phdr_at : Bytes → ℕ → Phdr
unfolding read_le
phdr_at bytes at = record {
  kind = read_le 4 bytes at;
  offset = read_le 8 bytes (at + 8);
  vaddr = read_le 8 bytes (at + 16);
  filesz = read_le 8 bytes (at + 32);
  memsz = read_le 8 bytes (at + 40);
}

-- The tests on `e_ident`: the magic, 64 bits, little-endian; true where one fails.
unfoldable pub bad_ident : Bytes → ℕ → Bool
bad_ident bytes at =
    not (bytes at == 0x7f)
    || not (bytes (at + 1) == b'E')
    || not (bytes (at + 2) == b'L')
    || not (bytes (at + 3) == b'F')
    || not (bytes (at + 4) == 2)
    || not (bytes (at + 5) == 1)
