-- ===== src/Common/Sink/Append.antt =====
-- Every writing method of the sink appends its bytes and touches nothing before them, whatever the
-- capacity and the old contents of the backing array are.
use layer.Base.{
  Bool-cases, inl, inr, ℕ, ◌+◌, ◌-◌, ◌*◌, ◌%◌, ◌≤◌, ◌<◌, ◌≡◌, refl, ap, ◌∙◌, Option, some, List,
  ◌++◌, length, arith, take, drop, replicate, leb, length-append, length-take, length-drop,
  length-replicate, take-append_left, append_assoc,
}
use layer.Common.SafeMath.{u64_mod}
use layer.Common.Words.{le_bytes}
use layer.Common.Bytes.{var_uint_bytes, var_bytes}
use layer.Common.Sink.{
  grow, try_grow_by_reslice, ZeroCopySink, max_int, capacity, bytes, next_bytes, overwrite,
  write_bytes, write_var_uint, write_var_bytes, var_uint_store, back_up,
}

-- The part in use fits the backing array, and the array fits the address space.
pub record IsValid (sink : ZeroCopySink) : Type 0 where
  pub in_use : sink.len ≤ capacity sink
  pub in_memory : capacity sink ≤ max_int

-- There is room for `n` more bytes, whether the buffer has to grow or not.
abbrev pub HasRoom : ZeroCopySink → ℕ → Type 0
HasRoom sink n = capacity sink + capacity sink + n ≤ max_int

-- What `NextBytes` leaves: the bytes in use stay, and `n` more follow them.
record Extends (sink sink' : ZeroCopySink) (n : ℕ) : Type 0 where
  longer : sink'.len ≡ sink.len + n
  kept : take sink.len sink'.mem ≡ bytes sink
  valid : IsValid sink'
  bounded : capacity sink' ≤ capacity sink + capacity sink + n

try_grow_fits :
    (sink : ZeroCopySink) (n : ℕ)
    → IsValid sink
    → n ≤ capacity sink - sink.len
    → Extends sink (record sink { len = sink.len + n }) n
unfolding bytes
try_grow_fits sink n v h = record {
  longer = refl;
  kept = refl;
  valid = record { in_use = omega arith; in_memory = v.in_memory };
  bounded = omega arith;
}

length-bytes : (sink : ZeroCopySink) → IsValid sink → length (bytes sink) ≡ sink.len
unfolding bytes
length-bytes sink v = omega (arith, length-take sink.len sink.mem)

grown_fits :
    (sink : ZeroCopySink) (n : ℕ)
    → IsValid sink
    → capacity sink - sink.len < n
    → HasRoom sink n
    → Extends sink
        (record {
          mem = bytes sink ++ replicate (2 * capacity sink + n - sink.len) 0;
          len = sink.len + n;
        })
        n
grown_fits sink n v h room = record {
  longer = refl;
  kept = take-append_left sink.len (bytes sink) zeros (length-bytes sink v);
  valid = record { in_use = omega (arith, total, v.in_use); in_memory = omega (arith, total) };
  bounded = omega (arith, total);
}
  where
    zeros : List ℕ
    zeros = replicate (2 * capacity sink + n - sink.len) 0

    total : length (bytes sink ++ zeros) ≡ 2 * capacity sink + n
    total = omega (
      arith,
      length-append (bytes sink) zeros,
      length-bytes sink v,
      length-replicate {A = ℕ} (2 * capacity sink + n - sink.len) 0,
      v.in_use,
    )

next_bytes-Extends :
    (sink : ZeroCopySink) (n : ℕ)
    → IsValid sink
    → HasRoom sink n
    → (sink' : ZeroCopySink) × (next_bytes sink n ≡ some (sink', sink.len)) × Extends sink sink' n
unfolding next_bytes grow try_grow_by_reslice
next_bytes-Extends sink n v room = elim (Bool-cases (leb n (capacity sink - sink.len))) [
  | inl fits ↦
      (record sink { len = sink.len + n }, ground arith, try_grow_fits sink n v (ground arith))
  | inr short ↦ (_, ground arith, grown_fits sink n v (ground arith) room)
]

-- What is in use once `p` is stored behind the old bytes and `t` ends with it.
module _ (sink sink' t : ZeroCopySink) (p : List ℕ) (n : ℕ) (e : Extends sink sink' n)
    (v : IsValid sink) (fits : length p ≤ n) (stored : t.mem ≡ (overwrite sink' sink.len p).mem)
    (ends : t.len ≡ sink.len + length p) where
  stored-bytes : bytes t ≡ bytes sink ++ p
  unfolding bytes overwrite
  stored-bytes =
      let rest = drop (sink.len + length p) sink'.mem in
      rw (stored, e.kept, ← append_assoc (take sink.len sink.mem) p rest)
        (take-append_left t.len (take sink.len sink.mem ++ p) rest (
          omega (
            arith,
            length-append (take sink.len sink.mem) p,
            length-take sink.len sink.mem,
            v.in_use,
            ends,
          )))

  stored-capacity : capacity t ≡ capacity sink'
  unfolding overwrite
  stored-capacity = rw stored (
      omega (
        arith,
        length-append (take sink.len sink'.mem) (p ++ drop (sink.len + length p) sink'.mem),
        length-append p (drop (sink.len + length p) sink'.mem),
        length-take sink.len sink'.mem,
        length-drop (sink.len + length p) sink'.mem,
        e.valid.in_use,
        e.longer,
        v.in_use,
      ))

  stored-IsValid : IsValid t
  stored-IsValid = record {
    in_use = omega (arith, stored-capacity, e.valid.in_use, e.longer);
    in_memory = omega (arith, stored-capacity, e.valid.in_memory);
  }

-- What a method promises: it does not panic, and the buffer's bytes are the old ones and then `p`.
abbrev pub Appends : ZeroCopySink → List ℕ → Option ZeroCopySink → Type 0
Appends sink p r =
    (sink' : ZeroCopySink) × (r ≡ some sink') × (bytes sink' ≡ bytes sink ++ p) × IsValid sink'

pub write_bytes-Appends :
    (sink : ZeroCopySink) (p : List ℕ)
    → IsValid sink
    → HasRoom sink (length p)
    → Appends sink p (write_bytes sink p)
unfolding write_bytes overwrite
write_bytes-Appends sink p v room =
    let (sink', eq, e) = next_bytes-Extends sink (length p) v room in
    let t = overwrite sink' sink.len p in
    (
      t,
      rw eq,
      stored-bytes sink sink' t p (length p) e v (omega arith) refl e.longer,
      stored-IsValid sink sink' t p (length p) e v (omega arith) refl e.longer,
    )

-- The bytes that `WriteVarUint` stores are those that the other modules speak of.
var_uint_store-bytes :
    (v : ℕ)
    → ((var_uint_store v).0 ≡ var_uint_bytes v)
      × (length (var_uint_bytes v) ≡ (var_uint_store v).1)
      × ((var_uint_store v).1 ≤ 9)
unfolding var_uint_store var_uint_bytes le_bytes
var_uint_store-bytes v = ground arith

-- On a valid sink with room for nine bytes, `WriteVarUint` does not panic: it gives the size of
-- the number's bytes, appends these to the bytes in use and leaves a valid sink of bounded
-- capacity.
pub write_var_uint-Appends :
    (sink : ZeroCopySink) (v : ℕ)
    → IsValid sink
    → HasRoom sink 9
    → (sink' : ZeroCopySink) × (write_var_uint sink v ≡ some (length (var_uint_bytes v), sink'))
      × (bytes sink' ≡ bytes sink ++ var_uint_bytes v)
      × IsValid sink'
      × (capacity sink' ≤ capacity sink + capacity sink + 9)
unfolding write_var_uint overwrite back_up
write_var_uint-Appends sink v valid room =
    let (sink', eq, e) = next_bytes-Extends sink 9 valid room in
    let p = var_uint_bytes v in
    let (same, size, le9) = var_uint_store-bytes v in
    let t : ZeroCopySink = record (overwrite sink' sink.len p) {
      len = sink'.len - (9 - length p);
    } in
    (
      t,
      rw (eq, same, ← size) (ground (arith, e.longer)),
      stored-bytes sink sink' t p 9 e valid (omega arith) refl (omega (arith, e.longer)),
      stored-IsValid sink sink' t p 9 e valid (omega arith) refl (omega (arith, e.longer)),
      omega (
        arith,
        e.bounded,
        stored-capacity sink sink' t p 9 e valid (omega arith) refl (omega (arith, e.longer)),
      ),
    )

-- On a valid sink with room, `WriteVarBytes` does not panic: it gives the size of the encoding of
-- `p`, appends the encoding to the bytes in use and leaves a valid sink.
pub write_var_bytes-Appends :
    (sink : ZeroCopySink) (p : List ℕ)
    → IsValid sink
    → 4 * capacity sink + 18 + length p ≤ max_int
    → (sink' : ZeroCopySink) × (write_var_bytes sink p ≡ some (length (var_bytes p), sink'))
      × (bytes sink' ≡ bytes sink ++ var_bytes p)
      × IsValid sink'
unfolding write_var_bytes var_bytes
write_var_bytes-Appends sink p v room =
    let n = var_uint_bytes (length p) in
    let (sink', eq, old, v', cap) = write_var_uint-Appends sink (length p) v (omega arith) in
    let (sink'', eq', new, v'') = write_bytes-Appends sink' p v' (omega arith) in
    let small = var_uint_store-bytes (length p) in
    let size : (length n + length p) % u64_mod ≡ length (n ++ p) =
      omega (arith, small, length-append n p) in
    (
      sink'',
      rw (eq, eq', size),
      new ∙ (ap (λ bs. bs ++ p) old ∙ append_assoc (bytes sink) n p),
      v'',
    )
