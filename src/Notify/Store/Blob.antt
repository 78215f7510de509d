-- ===== src/Notify/Store/Blob.antt =====
-- A blob of the repository is read back whole.
use edge_sync.Base.{Text, ℕ, ◌/◌, ◌%◌, ◌<◌, ◌≡◌, some, [], ◌∷◌, ◌++◌, arith, length, take_whole}
use edge_sync.Notify.Store.{Library, ok, big_endian, decompress_blob}

-- Fossil's blob format: the size in four big-endian bytes, and the compressed content.
abbrev pub size_prefix : ℕ → Text
size_prefix n = (n / 16777216 % 256) ∷ (n / 65536 % 256) ∷ (n / 256 % 256) ∷ (n % 256) ∷ []

big_endian-size_prefix : (n : ℕ) (t : Text) → n < 4294967296 → big_endian (size_prefix n ++ t) ≡ n
big_endian-size_prefix n t h = omega arith

-- The content of a file under 4 GiB, in Fossil's format with a compression that zlib undoes, is what
-- was stored.
pub decompress_blob-size_prefix :
    (E : Library) (content packed : Text)
    → E.inflate packed ≡ some content
    → length content < 4294967296
    → decompress_blob E (size_prefix (length content) ++ packed) ≡ ok content
unfolding decompress_blob
decompress_blob-size_prefix E content packed h small =
    let size = big_endian-size_prefix (length content) packed small in
    ground (arith, take_whole content (length content))
