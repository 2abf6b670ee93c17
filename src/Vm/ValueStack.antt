-- ===== src/Vm/ValueStack.antt =====
-- node/vm/neovm/value_stack.go: the stack of values, the bottom first, of any type of values. An
-- operation that fails leaves the stack as it was; the limits that the executor gives are positive.
pub mod Top
use layer.Base.{
  ℕ, zero, suc, ◌+◌, ◌-◌, ◌||◌, List, [], ◌∷◌, ◌++◌, length, take, drop, get_elem?, ltb, leb, ◌==◌,
  if◌then◌else◌, Option, none, some, Outcome, ok, err, ◌>>=◌, ◌>>◌, fail_if,
}
use layer.Base.Int.{ℤ, pos, negsuc}

pub record ValueStack (V : Type 0) : Type 0 where
  pub items : List V
  pub limit : ℕ

pub data StackError : Type 0 where
  over_limit_stack over_stack_len index_out_of_bound panicked : StackError

-- `index >= l || index < 0` is the error.
unfoldable pub index_below : ℤ → ℕ → Outcome StackError ℕ
index_below (pos n) l = fail_if (leb l n) index_out_of_bound >> ok n
index_below (negsuc n) l = err index_out_of_bound

module _ {V : Type 0} where
  unfoldable pub new_value_stack : ℕ → ValueStack V
  new_value_stack limit = record { items = []; limit = limit }

  unfoldable pub count : ValueStack V → ℕ
  count self = length self.items

  -- `data[k] = t`
  unfoldable pub store : ℕ → V → List V → List V
  store k t values = take k values ++ (t ∷ drop (suc k) values)

  -- `copy(data[k+1:], data[k:])`
  unfoldable pub move_up : ℕ → List V → List V
  move_up k values = take (suc k) values ++ take (length values - suc k) (drop k values)

  unfoldable pub insert : ValueStack V → ℤ → V → Outcome StackError (ValueStack V)
  insert self index t =
      let l = length self.items in
      fail_if (leb self.limit l) over_limit_stack >> (do
        i ← index_below index (suc l)
        ok (record self { items = store (l - i) t (move_up (l - i) (self.items ++ (t ∷ []))) }))

  -- `data[k]`
  unfoldable pub element : Option V → Outcome StackError V
  element none = err panicked
  element (some value) = ok value

  unfoldable pub peek : ValueStack V → ℤ → Outcome StackError V
  peek self index = do
    i ← index_below index (length self.items)
    element (get_elem? self.items (length self.items - i - 1))

  unfoldable pub remove : ValueStack V → ℤ → Outcome StackError (V × ValueStack V)
  remove self index = do
    i ← index_below index (length self.items)
    let k = length self.items - i
    value ← element (get_elem? self.items (k - 1))
    ok (value, record self { items = take (k - 1) self.items ++ drop k self.items })

  unfoldable pub set : ValueStack V → ℤ → V → Outcome StackError (ValueStack V)
  set self index t = do
    i ← index_below index (length self.items)
    ok (record self { items = store i t self.items })

  unfoldable pub push : ValueStack V → V → Outcome StackError (ValueStack V)
  push self t =
      fail_if (leb self.limit (length self.items)) over_stack_len
      >> ok (record self { items = self.items ++ (t ∷ []) })

  unfoldable pub push_many : ValueStack V → List V → Outcome StackError (ValueStack V)
  push_many self vals =
      fail_if (ltb self.limit (length self.items + length vals)) over_stack_len
      >> ok (record self { items = self.items ++ vals })

  unfoldable pub pop : ValueStack V → Outcome StackError (V × ValueStack V)
  pop self =
      let length_ = length self.items in
      fail_if (length_ == 0) index_out_of_bound >> (do
        value ← element (get_elem? self.items (length_ - 1))
        ok (value, record self { items = take (length_ - 1) self.items }))

  -- (left, right), and the stack.
  unfoldable pub pop_pair : ValueStack V → Outcome StackError (V × V × ValueStack V)
  pop_pair self = do right ← pop self; left ← pop right.1; ok (left.0, right.0, left.1)

  unfoldable pub pop_triple : ValueStack V → Outcome StackError (V × V × V × ValueStack V)
  pop_triple self = do pair ← pop_pair self; left ← pop pair.2; ok (left.0, pair.0, pair.1, left.1)

  unfoldable pub swap : ValueStack V → ℤ → ℤ → Outcome StackError (ValueStack V)
  swap self i j = do
    a ← index_below i (length self.items)
    b ← index_below j (length self.items)
    x ← element (get_elem? self.items (length self.items - a - 1))
    y ← element (get_elem? self.items (length self.items - b - 1))
    ok (
        if a == b then self else record self {
          items =
              store (length self.items - b - 1) x (store (length self.items - a - 1) y self.items);
        })

  -- The stack that is copied to.
  unfoldable pub copy_to : ValueStack V → ValueStack V → Outcome StackError (ValueStack V)
  copy_to self stack =
      fail_if (ltb stack.limit (length self.items + length stack.items)) over_stack_len
      >> ok (record stack { items = stack.items ++ self.items })
