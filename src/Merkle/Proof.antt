-- ===== src/Merkle/Proof.antt =====
-- MerkleProve of node/merkle/merkle_hasher.go: a value and the path of its leaf, as bytes.
pub mod Encoded
use layer.Base.{
  ℕ, zero, suc, ◌+◌, ◌-◌, ◌/◌, ◌%◌, Bool, true, false, not, ◌||◌, List, [], ◌∷◌, ◌++◌, ◌==◌,
  if◌then◌else◌, bytes_equal, Outcome, ok, err, ◌>>=◌, ◌>>◌, fail_if,
}
use layer.Common.SafeMath.{u64_mod}
use layer.Common.Source.{
  ZeroCopySource, new_source, next_byte, next_hash, next_var_bytes, size, position,
}
use layer.Merkle.Hasher.{Uint256, hash_leaf, hash_children}

pub data ProveError : Type 0 where
  bytes_error byte_error hash_error unexpected_root : ProveError

abbrev pub left : ℕ
left = 0

abbrev pub right : ℕ
right = 1

module _ (sha256 : List ℕ → Uint256) where
  -- One turn of the loop behind its two reads.
  unfoldable pub join_sibling : ℕ → Uint256 → Uint256 → Uint256
  join_sibling f v hash =
      if f == left then hash_children sha256 v hash else hash_children sha256 hash v

  unfoldable pub prove_loop : ℕ → ZeroCopySource → Uint256 → Outcome ProveError Uint256
  prove_loop zero source hash = ok hash
  prove_loop (suc n) source hash =
      let (f, eof, source1) = next_byte source in
      let (v, eof1, source2) = next_hash source1 in
      fail_if eof byte_error
      >> (fail_if eof1 hash_error >> prove_loop n source2 (join_sibling f v hash))

  unfoldable pub merkle_prove : List ℕ → Uint256 → Outcome ProveError (List ℕ)
  merkle_prove path root =
      let r = next_var_bytes (new_source path) in
      let n = ((size r.source + u64_mod - position r.source) % u64_mod) / 32 in
      fail_if (r.eof || r.irregular) bytes_error
      >> (prove_loop n r.source (hash_leaf sha256 r.value) >>= λ hash.
          fail_if (not (bytes_equal hash root)) unexpected_root >> ok r.value)
