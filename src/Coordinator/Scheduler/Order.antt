-- ===== src/Coordinator/Scheduler/Order.antt =====
-- The order of the scheduler's keys is linear.
use decompute.Prelude.{
  true, false, Text, text_lt, text_lt_irrefl, text_lt_trans, text_lt-total, ◌≡◌, arith, Bool-cases,
  inl, inr,
}
use decompute.Prelude.MinBy.{IsStrict}
use decompute.Coordinator.Record.{WorkerRecord}
use decompute.Coordinator.Scheduler.{Key, key, key_lt, worker_lt}

text_lt-asym : (a b : Text) → text_lt a b ≡ true → text_lt b a ≡ false
text_lt-asym a b h = elim (Bool-cases (text_lt b a)) [
  | inl back ↦ cc (text_lt_trans a b a h back, text_lt_irrefl a)
  | inr done ↦ done
]

text_lt-neg_trans : (a b c : Text) → text_lt a b ≡ false → text_lt b c ≡ false → text_lt a c ≡ false
text_lt-neg_trans a b c p q = ground (
  arith,
  text_lt_trans a c b,
  text_lt_trans b a c,
  text_lt-total a b p,
  text_lt-total b c q,
  text_lt-asym b c,
)

key_lt_irrefl : (k : Key) → key_lt k k ≡ false
unfolding key_lt
key_lt_irrefl (r, a, i) = ground (arith, text_lt_irrefl i)

key_lt-asym : (k l : Key) → key_lt k l ≡ true → key_lt l k ≡ false
unfolding key_lt
key_lt-asym (r, a, i) (r', a', i') h = ground (arith, text_lt-asym i i')

key_lt-neg_trans : (k l m : Key) → key_lt k l ≡ false → key_lt l m ≡ false → key_lt k m ≡ false
unfolding key_lt
key_lt-neg_trans (r, a, i) (r', a', i') (r'', a'', i'') p q =
    ground (arith, text_lt-neg_trans i i' i'')

pub worker_lt-IsStrict : IsStrict worker_lt
unfolding worker_lt
worker_lt-IsStrict = record {
  irrefl = λ a. key_lt_irrefl (key a);
  asym = λ a b. key_lt-asym (key a) (key b);
  neg_trans = λ a b c. key_lt-neg_trans (key a) (key b) (key c);
}

-- Only one worker name is least.
pub worker_lt-total :
    (a b : WorkerRecord) → worker_lt a b ≡ false → worker_lt b a ≡ false → a.id ≡ b.id
unfolding worker_lt key key_lt
worker_lt-total a b p q = ground (arith, text_lt-total a.id b.id)
