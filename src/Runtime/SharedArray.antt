-- ===== src/Runtime/SharedArray.antt =====
-- Two instances that start from the same configuration share the array of their environments.
use mathlib.Core.Path.{subst}
use lambda_runtime_api_daemo.Base.{
  ℕ, suc, ◌-◌, ◌≤◌, ◌<◌, ◌≡◌, sym, ap, ◌∙◌, inl, inr, Bool, true, false, some, List, [], ◌∷◌, ◌++◌,
  arith, ltb, if◌then◌else◌, ltb→lt, Bool-cases, nat_eq, length, get_elem?, set, take, take-all,
  take-set, take-set_behind, set-set, take-append_one, get_elem?-front, get_elem?-last,
  get_elem?-lt, length-set, get_elem?-set_self, Bytes, bytes_eq,
}
use lambda_runtime_api_daemo.Runtime.InstanceEnv.{
  Memory, Slice, array_of, read_slice, blanks, append_one, instance_entry, instance_env,
}

-- A slice of some array that is as long as its capacity.
abbrev pub IsSlice : Memory → Slice → List Bytes → Type 0
IsSlice m s xs = (get_elem? m s.array ≡ some xs) × (length xs ≡ s.cap) × (s.len ≤ s.cap)

read_slice-array :
    (m : Memory) (s : Slice) (xs : List Bytes)
    → get_elem? m s.array ≡ some xs
    → read_slice m s ≡ take s.len xs
unfolding read_slice array_of
read_slice-array m s xs e = rw e

append_one-room :
    (grow : ℕ → ℕ) (x : Bytes) (s : Slice) (m : Memory) (xs : List Bytes)
    → IsSlice m s xs
    → ltb s.len s.cap ≡ true
    → append_one grow x s m ≡ (set m s.array (set xs s.len x), record s { len = suc s.len })
unfolding append_one array_of
append_one-room grow x s m xs (e, l, f) t = rw (t, e)

append_one-full :
    (grow : ℕ → ℕ) (x : Bytes) (s : Slice) (m : Memory) (xs : List Bytes)
    → IsSlice m s xs
    → ltb s.len s.cap ≡ false
    → append_one grow x s m ≡ (
      m ++ (xs ++ x ∷ blanks (grow (suc s.len) - suc s.len)) ∷ [],
      record { array = length m; len = suc s.len; cap = grow (suc s.len) },
    )
unfolding append_one
append_one-full grow x s m xs (e, l, f) t =
    let whole : take s.len (array_of m s.array) ≡ xs =
      read_slice-array m s xs e ∙ take-all s.len xs (ground (arith, t, l)) in
    rw t (
      ap
        (λ ys. (
          m ++ (ys ++ x ∷ blanks (grow (suc s.len) - suc s.len)) ∷ [],
          record { array = length m; len = suc s.len; cap = grow (suc s.len) },
        ))
        whole)

-- What the slices of the first instance, the second and the configuration hold.
abbrev pub Hold : List Bytes → Bytes → Bytes → Memory → Slice → Slice → Slice → Type 0
Hold base a b m first second env =
    (read_slice m first ≡ base ++ a ∷ [])
    × (read_slice m second ≡ base ++ b ∷ [])
    × (read_slice m env ≡ base)

-- The same after a first append.
abbrev After : (ℕ → ℕ) → List Bytes → Bytes → Bytes → Slice → Memory × Slice → Type 0
After grow base a b env r =
    Hold base a b (append_one grow b env r.0).0 r.1 (append_one grow b env r.0).1 env

room-Hold :
    (grow : ℕ → ℕ) (x y : Bytes) (env : Slice) (m : Memory) (xs : List Bytes)
    → IsSlice m env xs
    → ltb env.len env.cap ≡ true
    → After grow (read_slice m env) y y env (append_one grow x env m)
room-Hold grow x y env m xs (e, l, f) t =
    let n = env.len in
    let ys = set xs n x in
    let m1 = set m env.array ys in
    let grown = record env { len = suc n } in
    let n_lt : n < length xs = omega (arith, ltb→lt env.len env.cap t, l) in
    let e1 : get_elem? m1 env.array ≡ some ys =
      get_elem?-set_self m env.array ys (get_elem?-lt m env.array xs e) in
    let l1 : length ys ≡ env.cap = length-set xs n x ∙ l in
    let zs = set ys n y in
    let m2 = set m1 env.array zs in
    let e2 : get_elem? m2 env.array ≡ some zs =
      get_elem?-set_self m1 env.array zs (get_elem?-lt m1 env.array ys e1) in
    let base = read_slice-array m env xs e in
    let same : zs ≡ set xs n y = set-set n xs x y in
    let more : read_slice m2 grown ≡ read_slice m env ++ y ∷ [] =
      read_slice-array m2 grown zs e2
      ∙ ap (take (suc n)) same
      ∙ take-set n xs y n_lt
      ∙ ap (λ bs. bs ++ y ∷ []) (sym base) in
    let kept : read_slice m2 env ≡ read_slice m env =
      read_slice-array m2 env zs e2 ∙ ap (take n) same ∙ take-set_behind n xs y ∙ sym base in
    subst (After grow (read_slice m env) y y env)
      (sym (append_one-room grow x env m xs (e, l, f) t))
      (subst (λ q. Hold (read_slice m env) y y q.0 grown q.1 env)
        (sym (append_one-room grow y env m1 ys (e1, l1, f) t)) (more, more, kept))

full-Hold :
    (grow : ℕ → ℕ) (x y : Bytes) (env : Slice) (m : Memory) (xs : List Bytes)
    → IsSlice m env xs
    → ltb env.len env.cap ≡ false
    → After grow (read_slice m env) x y env (append_one grow x env m)
full-Hold grow x y env m xs (e, l, f) t =
    let n = env.len in
    let fill = blanks (grow (suc n) - suc n) in
    let m1 = m ++ (xs ++ x ∷ fill) ∷ [] in
    let m2 = m1 ++ (xs ++ y ∷ fill) ∷ [] in
    let first : Slice = record { array = length m; len = suc n; cap = grow (suc n) } in
    let second : Slice = record { array = length m1; len = suc n; cap = grow (suc n) } in
    let e1 : get_elem? m1 env.array ≡ some xs =
      get_elem?-front m ((xs ++ x ∷ fill) ∷ []) env.array xs e in
    let there = get_elem?-front m1 ((xs ++ y ∷ fill) ∷ []) in
    let exact : length xs ≡ n = ground (arith, t, l, f) in
    let base : read_slice m env ≡ xs =
      read_slice-array m env xs e ∙ take-all n xs (omega (arith, exact)) in
    let ends : (z : Bytes) → take (suc n) (xs ++ z ∷ fill) ≡ read_slice m env ++ z ∷ [] =
      λ z. take-append_one n xs fill z exact ∙ ap (λ bs. bs ++ z ∷ []) (sym base) in
    subst (After grow (read_slice m env) x y env)
      (sym (append_one-full grow x env m xs (e, l, f) t))
      (subst (λ q. Hold (read_slice m env) x y q.0 first q.1 env)
        (sym (append_one-full grow y env m1 xs (e1, l, f) t))
        (
          read_slice-array m2 first (xs ++ x ∷ fill)
                (there (length m) (xs ++ x ∷ fill) (get_elem?-last m (xs ++ x ∷ fill)))
              ∙ ends x,
          read_slice-array m2 second (xs ++ y ∷ fill) (get_elem?-last m1 (xs ++ y ∷ fill)) ∙ ends y,
          read_slice-array m2 env xs (there env.array xs e1)
              ∙ take-all n xs (omega (arith, exact))
              ∙ sym base,
        ))

-- Two instances that start from the environment of the configuration, and whatever capacities the Go
-- runtime chooses. The configuration keeps its environment, and the second instance has it with its
-- own number. So has the first if the array of the configuration is full; if there is room in
-- it, the first instance's slice has the number of the second from then on, which External
-- Extensions that are started later are given.
pub instance_env-shared :
    (grow : ℕ → ℕ) (size size' : ℕ) (env : Slice) (m : Memory) (xs : List Bytes)
    → IsSlice m env xs
    → let (m1, first) = instance_env grow size env m in
      let (m2, second) = instance_env grow size' env m1 in
      Hold
        (read_slice m env)
        (instance_entry (if ltb env.len env.cap then size' else size))
        (instance_entry size')
        m2
        first
        second
        env
unfolding instance_env
instance_env-shared grow size size' env m xs v = elim (Bool-cases (ltb env.len env.cap)) [
  | inl t ↦
      subst chosen (sym t)
        (room-Hold grow (instance_entry size) (instance_entry size') env m xs v t)
  | inr t ↦
      subst chosen (sym t)
        (full-Hold grow (instance_entry size) (instance_entry size') env m xs v t)
]
  where
    chosen : Bool → Type 0
    chosen b =
        After grow (read_slice m env) (instance_entry (if b then size' else size))
          (instance_entry size') env (append_one grow (instance_entry size) env m)
