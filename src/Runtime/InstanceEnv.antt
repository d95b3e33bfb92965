-- ===== src/Runtime/InstanceEnv.antt =====
-- pkg/invokeapi/rapiinvoker.go: the environment that init gives to a Runtime and to its External
-- Extensions, with Go's slices: append writes into the array of its slice if there is room, and
-- else into a new array, whose capacity the Go runtime chooses (`grow`, from the new length).
use lambda_runtime_api_daemo.Base.{
  ℕ, zero, suc, ◌-◌, Option, none, some, List, [], ◌∷◌, ◌++◌, ltb, if◌then◌else◌, nat_eq, length,
  get_elem?, set, take, Bytes, codes, bytes_eq, itoa,
}

-- The arrays by their numbers, each as long as its capacity.
abbrev pub Memory : Type 0
Memory = List (List Bytes)

pub record Slice : Type 0 where
  pub array : ℕ
  pub len : ℕ
  pub cap : ℕ

abbrev contents : Option (List Bytes) → List Bytes
contents none = []
contents (some xs) = xs

unfoldable pub array_of : Memory → ℕ → List Bytes
array_of m i = contents (get_elem? m i)

unfoldable pub read_slice : Memory → Slice → List Bytes
unfolding array_of
read_slice m s = take s.len (array_of m s.array)

abbrev pub blanks : ℕ → List Bytes
blanks zero = []
blanks (suc n) = [] ∷ blanks n

unfoldable pub append_one : (ℕ → ℕ) → Bytes → Slice → Memory → Memory × Slice
unfolding array_of read_slice
append_one grow x s m =
    if ltb s.len s.cap
    then (set m s.array (set (array_of m s.array) s.len x), record s { len = suc s.len })
    else (
      m ++ (read_slice m s ++ x ∷ blanks (grow (suc s.len) - suc s.len)) ∷ [],
      record { array = length m; len = suc s.len; cap = grow (suc s.len) },
    )

-- "_INSTANCE=" and the number of processes that are managed.
unfoldable pub instance_entry : ℕ → Bytes
instance_entry size = codes "_INSTANCE=" ++ itoa size

-- The start of init: `env` is the slice of the configuration, which all calls share.
unfoldable pub instance_env : (ℕ → ℕ) → ℕ → Slice → Memory → Memory × Slice
unfolding append_one instance_entry
instance_env grow size env m = append_one grow (instance_entry size) env m
