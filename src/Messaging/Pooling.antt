-- ===== src/Messaging/Pooling.antt =====
-- The pools of connections and channels that createPool makes.
use lambda_runtime_api_daemo.Base.{
  ℕ, zero, suc, ◌+◌, ◌-◌, ◌≤◌, ◌<◌, ◌≡◌, refl, ap, ◌∙◌, ◌≢◌, inl, inr, Bool, true, ◌||◌, Option,
  none, some, List, [], ◌∷◌, ◌++◌, arith, ltb, leb, nat_beq, if◌then◌else◌, lt→ltb, Bool-cases,
  is_some, nat_eq, if-intro, length, All, length-append, All-append, bytes_eq,
}
use lambda_runtime_api_daemo.Messaging.Connection.{
  Connection, Link, absent, up, down, add_links, create_pool as connection_create_pool,
}
use lambda_runtime_api_daemo.Messaging.Session.{
  Session, Channel, live, link_usable, add_channels, with_channels, create_pool,
}

-- The dials that fail, of k from place i.
abbrev pub failures : (ℕ → Bool) → ℕ → ℕ → ℕ
failures dials zero i = 0
failures dials (suc k) i = let rest = failures dials k (suc i) in if dials i then rest else suc rest

failures-le : (dials : ℕ → Bool) (k i : ℕ) → failures dials k i ≤ k
failures-le dials zero i = omega arith
failures-le dials (suc k) i = ground (arith, failures-le dials k (suc i))

-- l links for n, after f failures.
pool_size :
    (size m n l f : ℕ)
    → l + f ≡ n + (size - n)
    → f ≤ size - n
    → (nat_beq (size - m) 0 || leb (m + (size - m)) l) ≡ (leb size m || nat_beq f 0)
pool_size size m n l f e h = ground arith

length-add_links :
    (dials : ℕ → Bool) (k i : ℕ) (ls : List Link)
    → length (add_links dials k i ls) + failures dials k i ≡ length ls + k
unfolding add_links
length-add_links dials zero i ls = refl
length-add_links dials (suc k) i ls = elim (Bool-cases (dials i)) [
  | inl d ↦ rw d (
      omega
        (arith, length-add_links dials k (suc i) (ls ++ up ∷ []), length-append {0} ls (up ∷ [])))
  | inr d ↦ rw d (omega (arith, length-add_links dials k (suc i) ls))
]

abbrev pub Present : List Link → Type 0
Present = All (λ l. l ≢ absent)

add_links-Present :
    (dials : ℕ → Bool) (k i : ℕ) (ls : List Link) → Present ls → Present (add_links dials k i ls)
unfolding add_links
add_links-Present dials zero i ls p = p
add_links-Present dials (suc k) i ls p =
    add_links-Present dials k (suc i) (if dials i then ls ++ up ∷ [] else ls) (
      if-intro Present (dials i) (ls ++ up ∷ []) ls
        (All-append (λ l. l ≢ absent) ls (up ∷ []) p (λ e. cc, tt)) p)

link_usable-Present : (ls : List Link) (i : ℕ) → Present ls → link_usable ls i ≡ ltb i (length ls)
unfolding link_usable
link_usable-Present [] i p = ground arith
link_usable-Present (absent ∷ ls) i p = absurd (p.0 refl)
link_usable-Present (up ∷ ls) zero p = ground arith
link_usable-Present (down ∷ ls) zero p = ground arith
link_usable-Present (up ∷ ls) (suc i) p = ground (arith, link_usable-Present ls i p.1)
link_usable-Present (down ∷ ls) (suc i) p = ground (arith, link_usable-Present ls i p.1)

is_some-add_channels :
    (opens : ℕ → Bool) (ls : List Link) (k i : ℕ) (cs : List Channel)
    → Present ls
    → is_some (add_channels opens ls k i cs) ≡ (nat_beq k 0 || leb (i + k) (length ls))
unfolding add_channels
is_some-add_channels opens ls zero i cs p = refl
is_some-add_channels opens ls (suc k) i cs p = ground (
  arith,
  link_usable-Present ls i p,
  is_some-add_channels opens ls k (suc i) (if opens i then cs ++ live ∷ [] else cs) p,
)

pub create_pool-large :
    (dials opens : ℕ → Bool) (size : ℕ) (s : Session)
    → ltb 1 size ≡ true
    → let c = connection_create_pool dials size s.connection in
      let n = length s.channels in
      create_pool dials opens size s
      ≡ with_channels
          (record s { connection = c })
          (add_channels opens c.connections (size - n) n s.channels)
unfolding create_pool
create_pool-large dials opens size s h = ground (arith, h)

connection-create_pool :
    (dials : ℕ → Bool) (size : ℕ) (c : Connection)
    → 1 < size
    → connection_create_pool dials size c ≡ record c {
      connections =
          add_links dials (size - length c.connections) (length c.connections) c.connections;
    }
unfolding connection_create_pool
connection-create_pool dials size c h = ground (arith, lt→ltb 1 size h)

is_some-with_channels :
    (s : Session) (o : Option (List Channel)) → is_some (with_channels s o) ≡ is_some o
is_some-with_channels s none = refl
is_some-with_channels s (some cs) = refl

-- For a pool of more than one, of connections without a nil pointer: createPool goes through exactly
-- if the session has that many channels already or every dial for the missing connections succeeds.
-- Otherwise it panics, since it takes a channel of a connection that the pool does not have.
pub is_some-create_pool :
    (dials opens : ℕ → Bool) (size : ℕ) (s : Session)
    → 1 < size
    → Present s.connection.connections
    → let n = length s.connection.connections in
      is_some (create_pool dials opens size s)
      ≡ (leb size (length s.channels) || nat_beq (failures dials (size - n) n) 0)
is_some-create_pool dials opens size s large p =
    let n = length s.connection.connections in
    let links = add_links dials (size - n) n s.connection.connections in
    let grown = connection-create_pool dials size s.connection large in
    let m = length s.channels in
    let total = length-add_links dials (size - n) n s.connection.connections in
    let run =
      ap is_some (create_pool-large dials opens size s (lt→ltb 1 size large))
      ∙ is_some-with_channels
          (record s { connection = connection_create_pool dials size s.connection }) _
      ∙ ap (λ (c : Connection). is_some (add_channels opens c.connections (size - m) m s.channels))
          grown
      ∙ is_some-add_channels opens links (size - m) m s.channels
          (add_links-Present dials (size - n) n s.connection.connections p) in
    run
    ∙ pool_size size m n (length links) (failures dials (size - n) n) total
        (failures-le dials (size - n) n)
