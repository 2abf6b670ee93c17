-- ===== src/Ledger/Program/Info.antt =====
-- `GetProgramInfo` of a program of several keys.
use layer.Base.{
  ℕ, suc, ◌+◌, ◌*◌, ◌-◌, ◌%◌, ◌<◌, ◌≤◌, ◌≡◌, refl, sym, ◌∙◌, ap, true, false, List, [], ◌∷◌, ◌++◌,
  map, length, length-append, append_assoc, take, drop, take-append-drop, length-take, All, ok,
  ◌>>=◌, ◌==◌, leb, arith,
}
use mathlib.Core.List.{map-append}
use layer.Base.Int.{ℤ, pos}
use layer.Common.Words.{le_value}
use layer.Common.BigInt.{big_int_to_neo_bytes, last_byte}
use layer.Common.Source.{new_source}
use layer.Common.Source.Codec.{Reads, Reads-then, Reads-end, Reads-nothing, Reads-last}
use layer.Common.Source.Reading.{InMemory}
use layer.Ledger.Header.{PublicKeys}
use layer.Ledger.Program.{
  push_prefix, push1, read_bytes, read_buffers, checkmultisig, split_last, is_count, wrong_counts,
  push_keys, read_pub_key, key_from, read_keys, keys_from, counted_info, info_from, multi_key_info,
  expect_eof, get_program_info, program_from_multi_pub_key,
}
use layer.Ledger.Program.Reads.{push_bytes-ok, read_bytes-Reads, unread-end}
use layer.Ledger.Program.Params.{IsPushable, pushes, pushes-append, length-pushes, length-le-pushes}
use layer.Ledger.Program.Keys.{
  small_bytes, push_num_small, read_num-Reads, tail_bytes, read_buffers-Reads,
}

split_last-append :
    (p : List ℕ) (ps : List (List ℕ)) (l : List ℕ) → split_last p (ps ++ (l ∷ [])) ≡ (p ∷ ps, l)
unfolding split_last
split_last-append p [] l = refl
split_last-append p (q ∷ ps) l = rw (split_last-append q ps l)

last_byte-append : (b : ℕ) (xs : List ℕ) (c : ℕ) → last_byte b (xs ++ (c ∷ [])) ≡ c
unfolding last_byte
last_byte-append b [] c = refl
last_byte-append b (x ∷ xs) c = last_byte-append x xs c

module _ {K : Type 0} (keys : PublicKeys K)
    (key_size : (k : K)
      → (0 < length (keys.serialize k)) × (length (keys.serialize k) < 0x1_0000_0000)) where
  abbrev serialized : List K → List (List ℕ)
  serialized ks = map keys.serialize ks

  serialized-IsPushable : (ks : List K) → All IsPushable (serialized ks)
  serialized-IsPushable [] = tt
  serialized-IsPushable (k ∷ ks) = (key_size k, serialized-IsPushable ks)

  length-serialized : (ks : List K) → length (serialized ks) ≡ length ks
  length-serialized [] = refl
  length-serialized (k ∷ ks) = ap suc (length-serialized ks)

  push_keys-pushes : (ks : List K) → push_keys keys ks ≡ ok (pushes (serialized ks))
  unfolding push_keys pushes
  push_keys-pushes [] = refl
  push_keys-pushes (k ∷ ks) =
      rw (push_bytes-ok (keys.serialize k) (key_size k).0, push_keys-pushes ks)

  read_pub_key-Reads :
      (k : K)
      → Reads (read_pub_key keys) (push_prefix (length (keys.serialize k)) ++ keys.serialize k) k
  unfolding read_pub_key key_from
  read_pub_key-Reads k =
      Reads-end read_bytes _ (read_bytes-Reads (keys.serialize k) (key_size k).0 (key_size k).1)
        (λ s. rw (keys.deserialize-serialize k))

  read_keys-Reads : (ks : List K) → Reads (read_keys keys (length ks)) (pushes (serialized ks)) ks
  unfolding read_keys pushes
  read_keys-Reads [] = Reads-nothing []
  read_keys-Reads (k ∷ ks) =
      Reads-then (read_pub_key keys) _ (read_pub_key-Reads k)
        (Reads-end (read_keys keys (length ks)) _ (read_keys-Reads ks) (λ s. refl))

  keys_from-serialized : (ks : List K) → keys_from keys (serialized ks) ≡ ok ks
  unfolding keys_from key_from
  keys_from-serialized [] = refl
  keys_from-serialized (k ∷ ks) = rw (keys.deserialize-serialize k, keys_from-serialized ks)

  module _ (int64 : ℤ → ℤ)
      (small : (n : ℕ) → n < 0x8000_0000_0000_0000 → int64 (pos n) ≡ pos n) where
    -- The keys in front are `ks`, those behind them `ls`.
    counted_info-keys :
        (ks ls : List K) (n : ℕ)
        → length (ks ++ ls) ≡ n
        → wrong_counts (length ks) n ≡ false
        → n ≤ 16
        → counted_info keys int64 (length ks) ks (serialized ls, n ∷ [])
          ≡ ok (record { pub_keys = ks ++ ls; m = length ks })
    unfolding counted_info is_count le_value
    counted_info-keys ks ls n e w h =
        let last : n + 256 * 0 ≡ n = omega arith in
        let same : (n == n) ≡ true = ground arith in
        rw (keys_from-serialized ls, last, small n (omega arith), e, same, w)

    info_from-split :
        (m : ℕ) (ks ls : List K) (last : List ℕ)
        → info_from keys int64 m ks (serialized ls ++ (last ∷ []))
          ≡ counted_info keys int64 m ks (serialized ls, last)
    unfolding info_from split_last
    info_from-split m ks [] last = refl
    info_from-split m ks (l ∷ ls) last =
        rw (split_last-append (keys.serialize l) (serialized ls) last)

    multi_key_info-keys :
        (ks ls : List K) (n fuel : ℕ)
        → length (ks ++ ls) ≡ n
        → wrong_counts (length ks) n ≡ false
        → 0 < length ks
        → n ≤ 16
        → suc (length ls) < fuel
        → multi_key_info keys int64 fuel (
            new_source
              ((length ks - 1 + push1) ∷ (pushes (serialized ks) ++ tail_bytes (serialized ls) n)))
          ≡ ok (record { pub_keys = ks ++ ls; m = length ks })
    unfolding multi_key_info new_source expect_eof
    multi_key_info-keys ks ls n fuel e w p h f =
        let m = length ks in
        let first : List ℕ = (m - 1 + push1) ∷ [] in
        let front = pushes (serialized ks) in
        let back = tail_bytes (serialized ls) n in
        let last : List ℕ = (n - 1 + push1) ∷ (checkmultisig ∷ []) in
        let count = length-append ks ls in
        let count_ls = length-serialized ls in
        let size_ks = length-pushes (serialized ks) (serialized-IsPushable ks) in
        let size_ls = length-pushes (serialized ls) (serialized-IsPushable ls) in
        let size_back = length-append (pushes (serialized ls)) last in
        let mem : InMemory (first ++ (front ++ back)) =
          omega (arith, length-append front back, length-serialized ks) in
        let mem' : InMemory ((first ++ front) ++ back) = mem in
        let e1 = read_num-Reads int64 m p (omega arith) [] (front ++ back) mem in
        let e2 = read_keys-Reads ks first back mem in
        let e3 =
          Reads-last (read_buffers fuel) (first ++ front)
            (read_buffers-Reads (serialized ls) n fuel (serialized-IsPushable ls) (omega arith) h
              (omega arith))
            mem' in
        rw
          (
            e1,
            e2,
            e3,
            unread-end ((first ++ front) ++ back),
            info_from-split m ks ls (big_int_to_neo_bytes (pos n)),
            small_bytes n (omega arith) h,
          )
          (counted_info-keys ks ls n e w h)

    get_program_info-multi :
        (c d : ℕ) (p : List ℕ)
        → (let bs = p ++ (d ∷ (checkmultisig ∷ [])) in
            get_program_info keys int64 (c ∷ bs)
            ≡ multi_key_info keys int64 (suc (suc (length bs))) (new_source (c ∷ bs)))
    unfolding get_program_info
    get_program_info-multi c d p =
        let bs : List ℕ = p ++ (d ∷ (checkmultisig ∷ [])) in
        let long : leb (suc (length bs)) 2 ≡ false =
          ground (arith, length-append p (d ∷ (checkmultisig ∷ []))) in
        let end : last_byte c bs ≡ checkmultisig =
          ap (last_byte c) (sym (append_assoc p (d ∷ []) (checkmultisig ∷ [])))
          ∙ last_byte-append c (p ++ (d ∷ [])) checkmultisig in
        rw (long, end) refl

    -- The program of `m` of the keys `sorted`.
    program_bytes : ℕ → List K → List ℕ
    program_bytes m sorted = (m - 1 + push1) ∷ tail_bytes (serialized sorted) (length sorted)

    get_program_info-keys :
        (ks ls : List K)
        → 0 < length ks
        → 1 < length (ks ++ ls)
        → length (ks ++ ls) ≤ 16
        → get_program_info keys int64 (program_bytes (length ks) (ks ++ ls))
          ≡ ok (record { pub_keys = ks ++ ls; m = length ks })
    unfolding program_bytes wrong_counts
    get_program_info-keys ks ls p t h =
        let n = length (ks ++ ls) in
        let last : List ℕ = (n - 1 + push1) ∷ (checkmultisig ∷ []) in
        let all : pushes (serialized (ks ++ ls))
            ≡ pushes (serialized ks) ++ pushes (serialized ls) =
          ap pushes (map-append keys.serialize ks ls)
          ∙ pushes-append (serialized ks) (serialized ls) in
        let bytes : tail_bytes (serialized (ks ++ ls)) n
            ≡ pushes (serialized ks) ++ tail_bytes (serialized ls) n =
          ap (λ x. x ++ last) all
          ∙ append_assoc (pushes (serialized ks)) (pushes (serialized ls)) last in
        let fuel = suc (suc (length (tail_bytes (serialized (ks ++ ls)) n))) in
        let enough : suc (length ls) < fuel = omega (
          arith,
          length-append (pushes (serialized (ks ++ ls))) last,
          length-le-pushes (serialized (ks ++ ls)) (serialized-IsPushable (ks ++ ls)),
          length-serialized (ks ++ ls),
          length-append ks ls,
        ) in
        get_program_info-multi (length ks - 1 + push1) (n - 1 + push1)
          (pushes (serialized (ks ++ ls)))
        ∙ ap (λ x. multi_key_info keys int64 fuel (new_source ((length ks - 1 + push1) ∷ x))) bytes
        ∙ multi_key_info-keys ks ls n fuel refl (ground (arith, length-append ks ls)) p h enough

    program_from_multi_pub_key-bytes :
        (sort : List K → List K) (pubkeys : List K) (m : ℕ)
        → length (sort pubkeys) ≡ length pubkeys
        → 0 < m
        → m ≤ length pubkeys
        → 1 < length pubkeys
        → length pubkeys ≤ 16
        → program_from_multi_pub_key keys sort pubkeys (pos m) ≡ ok (program_bytes m (sort pubkeys))
    unfolding program_from_multi_pub_key wrong_counts program_bytes
    program_from_multi_pub_key-bytes sort pubkeys m same p l t h =
        let sorted = sort pubkeys in
        let fine : wrong_counts m (length pubkeys) ≡ false = ground arith in
        let count : length sorted % 0x1_0000 ≡ length sorted = omega arith in
        rw (
          fine,
          push_num_small m p (omega arith),
          push_keys-pushes sorted,
          count,
          push_num_small (length sorted) (omega arith) (omega arith),
        )

    -- For keys of 1 to 2 ^ 32 - 1 bytes, a sort that keeps their number and an `Int64` that keeps
    -- small numbers, `ProgramFromMultiPubKey` of 2 to 16 keys and m from 1 to their number
    -- succeeds, and `GetProgramInfo` reads m and the sorted keys from the program.
    pub get_program_info-program_from_multi_pub_key :
        (sort : List K → List K)
        → ((ks : List K) → length (sort ks) ≡ length ks)
        → (pubkeys : List K) (m : ℕ) → 0 < m
        → m ≤ length pubkeys
        → 1 < length pubkeys
        → length pubkeys ≤ 16
        → (program_from_multi_pub_key keys sort pubkeys (pos m) >>= get_program_info keys int64)
          ≡ ok (record { pub_keys = sort pubkeys; m = m })
    get_program_info-program_from_multi_pub_key sort same pubkeys m p l t h =
        let ks = take m (sort pubkeys) in
        let ls = drop m (sort pubkeys) in
        let whole : ks ++ ls ≡ sort pubkeys = take-append-drop m (sort pubkeys) in
        let count : length ks ≡ m = omega (arith, length-take m (sort pubkeys), same pubkeys) in
        let total : length (ks ++ ls) ≡ length pubkeys = ap length whole ∙ same pubkeys in
        let info = get_program_info-keys ks ls (omega arith) (omega arith) (omega arith) in
        let built = program_from_multi_pub_key-bytes sort pubkeys m (same pubkeys) p l t h in
        ap (λ r. r >>= get_program_info keys int64) built ∙ (rw (count, whole) at info)
