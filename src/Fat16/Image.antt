-- ===== src/Fat16/Image.antt =====
-- The image file behind `FILE *fd`, and the sector buffers of lab4/simple_fat16_new.c.
-- An image gives the byte at every offset: it holds every sector that the program reads.
use os2021_labscript.Common.{ℕ, ◌+◌, ◌*◌, ◌/◌, ◌%◌, ◌^◌, ◌==◌, if◌then◌else◌, List, [], ◌∷◌}

abbrev pub Image : Type 0
Image = ℕ → ℕ

-- `BYTE buffer[BYTES_PER_SECTOR]`
abbrev pub Buffer : Type 0
Buffer = ℕ → ℕ

abbrev pub bytes_per_sector : ℕ
bytes_per_sector = 512

abbrev pub bytes_per_dir : ℕ
bytes_per_dir = 32

-- `WORD` and `DWORD` arithmetic, little endian in memory
abbrev pub word : ℕ → ℕ
word n = n % 2 ^ 16

abbrev pub dword : ℕ → ℕ
dword n = n % 2 ^ 32

abbrev pub word_at : Buffer → ℕ → ℕ
word_at b p = b p + 256 * b (p + 1)

abbrev pub dword_at : Buffer → ℕ → ℕ
dword_at b p = word_at b p + 2 ^ 16 * word_at b (p + 2)

abbrev pub bytes_of_word : ℕ → List ℕ
bytes_of_word w = w % 256 ∷ (w / 256 % 256) ∷ []

abbrev pub bytes_of_dword : ℕ → List ℕ
bytes_of_dword d = d % 256 ∷ (d / 256 % 256) ∷ (d / 2 ^ 16 % 256) ∷ (d / 2 ^ 24 % 256) ∷ []

-- `fseek(fd, pos, SEEK_SET)` and `fwrite` of the bytes
unfoldable pub store : Image → ℕ → List ℕ → Image
store img pos [] q = img q
store img pos (b ∷ bs) q = if q == pos then b else store img (pos + 1) bs q

-- The seek goes to `BYTES_PER_SECTOR * secnum`, an `unsigned int` product.
unfoldable pub sector_read : Image → ℕ → Buffer
sector_read img secnum i = img (dword (bytes_per_sector * secnum) + i)
