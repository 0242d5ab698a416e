-- ===== src/Server/Storage/Accounting.antt =====
-- The operations of a storage in any order, as the threads of the server interleave them. Each runs
-- under a mutex, so an order of steps is all that there is. A `Ledger` is the storage with the sizes
-- that have been reserved and not been given back: of the files there and of those under way.
use distributed_server_clien.Prelude.Bytes.{Bytes}
use distributed_server_clien.Prelude.{
  ℕ, ◌+◌, ◌^◌, ◌≤◌, ◌<◌, ◌≡◌, true, false, List, [], ◌∷◌, ◌++◌, arith, if◌then◌else◌,
}
use distributed_server_clien.Server.Storage.{
  Storage, add_file_to_storage, remove_file_from_storage, check_and_reserve_space, free_space,
}

abbrev pub sum : List ℕ → ℕ
sum [] = 0
sum (n ∷ ns) = n + sum ns

pub record Ledger : Type 0 where
  pub storage : Storage
  pub reserved : List ℕ

pub data Step : Ledger → Ledger → Type 0 where
  reserve :
      (s : Storage) (ns : List ℕ) (size : ℕ)
      → (check_and_reserve_space s size).1 ≡ true
      → Step
          (record { storage = s; reserved = ns })
          (record { storage = (check_and_reserve_space s size).0; reserved = size ∷ ns })
  refuse :
      (s : Storage) (ns : List ℕ) (size : ℕ)
      → (check_and_reserve_space s size).1 ≡ false
      → Step
          (record { storage = s; reserved = ns })
          (record { storage = (check_and_reserve_space s size).0; reserved = ns })
  release :
      (s : Storage) (ns ms : List ℕ) (size : ℕ)
      → Step
          (record { storage = s; reserved = ns ++ size ∷ ms })
          (record { storage = free_space s size; reserved = ns ++ ms })
  add_name :
      (s : Storage) (ns : List ℕ) (f : Bytes)
      → Step
          (record { storage = s; reserved = ns })
          (record { storage = (add_file_to_storage s f).0; reserved = ns })
  remove_name :
      (s : Storage) (ns : List ℕ) (f : Bytes)
      → Step
          (record { storage = s; reserved = ns })
          (record { storage = (remove_file_from_storage s f).0; reserved = ns })

infixr 40 ◌then◌
pub data Steps : Ledger → Ledger → Type 0 where
  nothing : {a : Ledger} → Steps a a
  ◌then◌ : {a b c : Ledger} → Step a b → Steps b c → Steps a c

-- The counter is the sum of the reservations and does not exceed the space of the server.
pub record Accounted (l : Ledger) : Type 0 where
  pub counted : l.storage.used_space ≡ sum l.reserved
  pub bounded : l.storage.used_space ≤ l.storage.max_available_space
  pub word : l.storage.max_available_space < 2 ^ 64

sum-append : (ns ms : List ℕ) → sum (ns ++ ms) ≡ sum ns + sum ms
sum-append [] ms = omega arith
sum-append (n ∷ ns) ms = omega (arith, sum-append ns ms)

Step-Accounted : {a b : Ledger} → Step a b → Accounted a → Accounted b
unfolding check_and_reserve_space free_space add_file_to_storage remove_file_from_storage
Step-Accounted (reserve s ns size h) i = record {
  counted = ground (arith, i.counted, i.bounded, i.word);
  bounded = ground (arith, i.bounded, i.word);
  word = ground (arith, i.word);
}
Step-Accounted (refuse s ns size h) i = record {
  counted = ground (arith, i.counted);
  bounded = ground (arith, i.bounded);
  word = ground (arith, i.word);
}
Step-Accounted (release s ns ms size) i =
    let whole = sum-append ns (size ∷ ms) in
    let rest = sum-append ns ms in
    record {
      counted = omega (arith, i.counted, i.bounded, i.word, whole, rest);
      bounded = omega (arith, i.counted, i.bounded, i.word, whole, rest);
      word = i.word;
    }
Step-Accounted (add_name s ns f) i = record {
  counted = i.counted;
  bounded = i.bounded;
  word = i.word;
}
Step-Accounted (remove_name s ns f) i = record {
  counted = i.counted;
  bounded = i.bounded;
  word = i.word;
}

-- In whatever order the threads reserve space, are refused it, give back what they reserved, and
-- add and remove names, the space counter stays the sum of the reservations held and does not
-- exceed `max_available_space`, if that held at the start and `max_available_space` has 64 bits.
pub Steps-Accounted : {a b : Ledger} → Steps a b → Accounted a → Accounted b
Steps-Accounted nothing i = i
Steps-Accounted (step then steps) i = Steps-Accounted steps (Step-Accounted step i)
