-- ===== src/Tests/IntRuns.antt =====
-- The machine's integers, over functions that test the exact result.
use layer.Base.{◌-◌, ◌^◌, ◌<◌, ◌≤◌, ◌≡◌, refl, false, ok, err, ◌⊎◌, arith}
use layer.Base.Int.{pos, negsuc, to_signed}
use layer.Base.Arith.{
  ◌+ℤ◌, ◌-ℤ◌, ◌*ℤ◌, quo, rem, shift_right, magnitude, with_sign, opposite, negative,
}
use layer.Common.BigInt.{little_endian, le_digits}
use layer.Vm.IntValue.{
  IntValue, small, over_max_size, int64_limit, to_int, is_int64, is_zero, Overflow, add_values,
  sub_values, mul_values, div_value, mod_value, rsh, shift_amount, int_val_from_big_int, byte_count,
  int_op, wrap64,
}
use layer.Vm.IntValue.Exact.{
  IsIntValue, arithmetic-exact, division-exact, rsh-exact, int_val_from_big_int-IsIntValue,
}

abbrev tested : Overflow
tested = record {
  add64 = λ a b. (a +ℤ b, is_int64 (a +ℤ b));
  sub64 = λ a b. (a -ℤ b, is_int64 (a -ℤ b));
  mul64 = λ a b. (a *ℤ b, is_int64 (a *ℤ b));
  add64-fits = λ a b fine. (refl, fine);
  sub64-fits = λ a b fine. (refl, fine);
  mul64-fits = λ a b fine. (refl, fine);
}

-- 2 ^ 63 - 1, and -7.
abbrev largest : IntValue
largest = small (pos 0x7fff_ffff_ffff_ffff)

abbrev minus_seven : IntValue
minus_seven = small (negsuc 6)

minus_seven-IsIntValue : IsIntValue minus_seven
unfolding IsIntValue
minus_seven-IsIntValue = omega arith

arithmetic-exact_example :
    (add_values tested largest largest ≡ int_val_from_big_int (to_int largest +ℤ to_int largest))
    × (sub_values tested largest largest ≡ int_val_from_big_int (to_int largest -ℤ to_int largest))
    × (mul_values tested largest largest ≡ int_val_from_big_int (to_int largest *ℤ to_int largest))
arithmetic-exact_example = arithmetic-exact tested largest largest

nonzero_divisor : is_zero (small (pos 2)) ≡ false
unfolding is_zero magnitude to_int
nonzero_divisor = refl

not_least : to_int minus_seven ≡ negsuc (int64_limit - 1) → to_int (small (pos 2)) ≡ negsuc 0 → ⊥
unfolding to_int
not_least p q = cc

division-exact_example :
    (div_value minus_seven (small (pos 2))
      ≡ int_val_from_big_int (quo (to_int minus_seven) (to_int (small (pos 2)))))
    × (mod_value minus_seven (small (pos 2))
        ≡ int_val_from_big_int (rem (to_int minus_seven) (to_int (small (pos 2)))))
division-exact_example =
    division-exact minus_seven (small (pos 2)) minus_seven-IsIntValue nonzero_divisor not_least

far_shift : shift_amount (small (pos 300)) ≡ ok 300
unfolding shift_amount
far_shift = refl

rsh-exact_example :
    (to_int (small (pos 300)) ≡ pos 300)
    × (rsh minus_seven (small (pos 300))
        ≡ int_val_from_big_int (shift_right (to_int minus_seven) 300))
rsh-exact_example = rsh-exact minus_seven (small (pos 300)) 300 minus_seven-IsIntValue far_shift

int_val_from_big_int-IsIntValue_example :
    ((magnitude (pos (2 ^ 256)) < 2 ^ 256)
      × ((a : IntValue) × (int_val_from_big_int (pos (2 ^ 256)) ≡ ok a)
          × IsIntValue a
          × (to_int a ≡ pos (2 ^ 256))))
    ⊎ ((2 ^ 256 ≤ magnitude (pos (2 ^ 256)))
        × (int_val_from_big_int (pos (2 ^ 256)) ≡ err over_max_size))
int_val_from_big_int-IsIntValue_example = int_val_from_big_int-IsIntValue (pos (2 ^ 256))

read_back : int_val_from_big_int (negsuc 6) ≡ ok minus_seven
unfolding int_val_from_big_int byte_count little_endian le_digits magnitude is_int64
read_back = refl

-- The least int64 by -1 gives itself.
least_divided :
    div_value (small (negsuc 0x7fff_ffff_ffff_ffff)) (small (negsuc 0))
    ≡ ok (small (negsuc 0x7fff_ffff_ffff_ffff))
unfolding div_value is_zero magnitude to_int int_op wrap64 quo with_sign opposite negative to_signed
least_divided = refl
