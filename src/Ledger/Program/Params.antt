-- ===== src/Ledger/Program/Params.antt =====
-- The parameters of a program are read back.
use layer.Base.{
  ℕ, zero, suc, ◌*◌, ◌%◌, ◌<◌, ◌≤◌, ◌≡◌, refl, List, [], ◌∷◌, ◌++◌, length, length-append,
  append_assoc, All, ok, ◌>>=◌, arith,
}
use layer.Common.Words.{length-le_bytes}
use layer.Common.Source.{ZeroCopySource, new_source}
use layer.Common.Source.Reading.{reading, InMemory}
use layer.Ledger.Program.{push_prefix, program_from_params, read_params, get_param_info}
use layer.Ledger.Program.Reads.{push_bytes-ok, read_bytes-Reads, unread-end, unread-pushed}

-- Data that a script can push.
abbrev pub IsPushable : List ℕ → Type 0
IsPushable p = (0 < length p) × (length p < 0x1_0000_0000)

unfoldable pub pushes : List (List ℕ) → List ℕ
pushes [] = []
pushes (p ∷ ps) = (push_prefix (length p) ++ p) ++ pushes ps

program_from_params-pushes :
    (sigs : List (List ℕ)) → All IsPushable sigs → program_from_params sigs ≡ ok (pushes sigs)
unfolding program_from_params pushes
program_from_params-pushes [] h = refl
program_from_params-pushes (sig ∷ sigs) (h, hs) =
    rw (push_bytes-ok sig h.0, program_from_params-pushes sigs hs)

pub length-le-pushes :
    (sigs : List (List ℕ)) → All IsPushable sigs → length sigs ≤ length (pushes sigs)
unfolding pushes
length-le-pushes [] h = omega arith
length-le-pushes (sig ∷ sigs) (h, hs) = omega (
  arith,
  length-append (push_prefix (length sig) ++ sig) (pushes sigs),
  length-append (push_prefix (length sig)) sig,
  length-le-pushes sigs hs,
)

-- A prefix has at most five bytes.
length-push_prefix : (n : ℕ) → length (push_prefix n) ≤ 5
unfolding push_prefix
length-push_prefix n = ground (arith, length-le_bytes 2 n, length-le_bytes 4 (n % 0x1_0000_0000))

pub length-pushes :
    (ps : List (List ℕ)) → All IsPushable ps → length (pushes ps) ≤ 0x1_0000_0005 * length ps
unfolding pushes
length-pushes [] h = omega arith
length-pushes (p ∷ ps) (h, hs) = omega (
  arith,
  length-append (push_prefix (length p) ++ p) (pushes ps),
  length-append (push_prefix (length p)) p,
  length-push_prefix (length p),
  length-pushes ps hs,
)

pub pushes-append : (ps qs : List (List ℕ)) → pushes (ps ++ qs) ≡ pushes ps ++ pushes qs
unfolding pushes
pushes-append [] qs = refl
pushes-append (p ∷ ps) qs =
    rw (pushes-append ps qs, append_assoc (push_prefix (length p) ++ p) (pushes ps) (pushes qs))

read_params-reading :
    (sigs : List (List ℕ)) (fuel : ℕ) (pre : List ℕ)
    → All IsPushable sigs
    → length sigs < fuel
    → InMemory (pre ++ pushes sigs)
    → (s : ZeroCopySource) × (read_params fuel (reading pre (pushes sigs)) ≡ ok (sigs, s))
unfolding read_params pushes
read_params-reading sigs zero pre hs f m = absurd (omega arith)
read_params-reading [] (suc fuel) pre hs f m = (reading pre [], rw (unread-end pre))
read_params-reading (sig ∷ sigs) (suc fuel) pre (h, hs) f m =
    let item : List ℕ = push_prefix (length sig) ++ sig in
    let m1 : InMemory (pre ++ (item ++ pushes sigs)) = m in
    let m2 : InMemory ((pre ++ item) ++ pushes sigs) =
      rw (append_assoc pre item (pushes sigs)) m1 in
    let rest = read_params-reading sigs fuel (pre ++ item) hs (omega arith) m2 in
    let first = read_bytes-Reads sig h.0 h.1 pre (pushes sigs) m1 in
    (rest.0, rw (unread-pushed pre sig (pushes sigs) h.0 h.1, first, rest.1))

-- For signatures of 1 to 2 ^ 32 - 1 bytes that push to fewer than 2 ^ 63 bytes,
-- `ProgramFromParams` succeeds and `GetParamInfo` reads the signatures from its program.
pub get_param_info-program_from_params :
    (sigs : List (List ℕ))
    → All (λ (sig : List ℕ). (0 < length sig) × (length sig < 0x1_0000_0000)) sigs
    → InMemory (pushes sigs)
    → (program_from_params sigs >>= get_param_info) ≡ ok sigs
unfolding get_param_info new_source
get_param_info-program_from_params sigs hs m =
    let read =
      read_params-reading sigs (suc (length (pushes sigs))) [] hs
        (omega (arith, length-le-pushes sigs hs)) m in
    rw (program_from_params-pushes sigs hs, read.1)
