-- ===== src/Process/Sockets.antt =====
-- The search of /proc/net/tcp, on a table that is put together of a header and entries.
use mathlib.Core.List.{append_assoc}
use lambda_runtime_api_daemo.Base.{
  ℕ, ◌+◌, ◌-◌, ◌≤◌, ◌<◌, ◌≡◌, refl, sym, ap, ◌∙◌, inl, inr, true, none, some, List, [], ◌∷◌, ◌++◌,
  arith, ltb, if◌then◌else◌, Bool-cases, nat_eq, length, All, length-append, Bytes, bytes_beq,
  bytes_eq, is_prefix, shift, index_of,
}
use mathlib.Core.Path.{subst}
use lambda_runtime_api_daemo.Process.HexAddress.{spaceless, Spaceless, hex_address-Spaceless}
use lambda_runtime_api_daemo.Process.TextSearch.{
  unmarked, shift_by, index_of-skip, is_prefix-spaceless, drop-append, take-append, index_byte-take,
  shift_by-some, shift_by-append, shift_by-none,
}
use lambda_runtime_api_daemo.Process.Tcp.{
  search_table, find_tcp_inode, hex_address, pattern, index_byte, take, drop, slice, but_last_from,
  inode_at, inode_found, inode_from,
}

-- An entry of the table from the colon after its number to that number's place in the next line: the
-- address, what stands between it and the inode, the inode, and the rest.
pub record Entry : Type 0 where
  pub address : Bytes
  pub fields : Bytes
  pub inode : Bytes
  pub rest : Bytes

abbrev pub tail_text : Entry → Bytes → Bytes
tail_text e t = e.inode ++ b' ' ∷ (e.rest ++ t)

abbrev pub body : Entry → Bytes
body e = b' ' ∷ (e.address ++ b' ' ∷ (e.fields ++ e.inode ++ b' ' ∷ e.rest))

abbrev pub print_entries : List Entry → Bytes
print_entries [] = []
print_entries (e ∷ es) = b':' ∷ (body e ++ print_entries es)

pub record Formed (e : Entry) : Type 0 where
  pub plain : spaceless e.address ≡ true
  pub size : length e.address + length e.fields ≡ 84
  pub clear : unmarked (body e) ≡ true
  pub numeric : spaceless e.inode ≡ true
  pub more : 0 < length e.rest

abbrev pub inode_of : Bytes → List Entry → Bytes
inode_of a [] = []
inode_of a (e ∷ es) = let rest = inode_of a es in if bytes_beq a e.address then e.inode else rest

-- An entry up to its inode.
abbrev lead : Entry → Bytes
lead e = b':' ∷ b' ' ∷ (e.address ++ b' ' ∷ e.fields)

entry-lead : (e : Entry) (t : Bytes) → b':' ∷ (body e ++ t) ≡ lead e ++ tail_text e t
entry-lead e t = simp append_assoc

length-lead : (e : Entry) → Formed e → length (lead e) ≡ 87
length-lead e f = omega (arith, length-append e.address (b' ' ∷ e.fields), f.size)

slice-at :
    (text s : Bytes) (i j : ℕ)
    → drop i text ≡ s
    → i ≤ j
    → j ≤ length text
    → slice text i j ≡ some (take (j - i) s)
slice-at text s i j e h k = ground (arith, e, h, k)

-- The search from the index of an entry that has been found.
inode_from-entry :
    (p : Bytes) (e : Entry) (t : Bytes)
    → Formed e
    → inode_from (p ++ (lead e ++ tail_text e t)) (some (length p)) ≡ some e.inode
unfolding index_byte inode_from inode_found
inode_from-entry p e t f =
    let s = tail_text e t in
    let text = p ++ (lead e ++ s) in
    let start = length p + 87 in
    let k = length text - 1 - start in
    let led = length-lead e f in
    let n1 = length-append p (lead e ++ s) in
    let n2 = length-append (lead e) s in
    let n3 = length-append e.inode (b' ' ∷ (e.rest ++ t)) in
    let n4 = length-append e.rest t in
    let at : drop start text ≡ s =
      drop-append p (lead e ++ s) start 87 refl
      ∙ drop-append (lead e) s 87 0 (omega (arith, led)) in
    let whole : but_last_from text start ≡ some (take k s) =
      ground
        (arith, slice-at text s start (length text - 1) at (omega (arith, f.more)) (omega arith)) in
    let found = index_byte-take e.inode (e.rest ++ t) k f.numeric (omega (arith, f.more)) in
    let stop : ltb (start + length e.inode) (length text) ≡ true = ground (arith, f.more) in
    let cut =
      slice-at text s start (start + length e.inode) at (omega arith) (omega (arith, f.more)) in
    let taken : start + length e.inode - start ≡ length e.inode = omega arith in
    ap (inode_found text start) whole
    ∙ ap (inode_at text start) found
    ∙ ap (λ b. if b then slice text start (start + length e.inode) else some []) stop
    ∙ cut
    ∙ ap (λ n. some (take n s)) taken
    ∙ ap some (take-append e.inode (b' ' ∷ (e.rest ++ t)))

inode_from-missing : (text : Bytes) → 86 < length text → inode_from text none ≡ some []
unfolding inode_from
inode_from-missing text h = ground (arith, h)

is_prefix-entry :
    (a : Bytes) (e : Entry) (t : Bytes)
    → spaceless a ≡ true
    → Formed e
    → is_prefix (pattern a) (b':' ∷ (body e ++ t)) ≡ bytes_beq a e.address
is_prefix-entry a e t h f =
    let rest = e.fields ++ e.inode ++ b' ' ∷ e.rest in
    ap (is_prefix (a ++ b' ' ∷ [])) (append_assoc e.address (b' ' ∷ rest) t)
    ∙ is_prefix-spaceless a e.address (rest ++ t) h f.plain

index_of-entry :
    (a : Bytes) (e : Entry) (t : Bytes)
    → spaceless a ≡ true
    → Formed e
    → index_of (pattern a) (b':' ∷ (body e ++ t)) ≡ (
        if bytes_beq a e.address
        then some 0
        else shift_by (length (b':' ∷ body e)) (index_of (pattern a) t))
unfolding index_of
index_of-entry a e t h f =
    ap (λ b. if b then some 0 else shift (index_of (pattern a) (body e ++ t)))
      (is_prefix-entry a e t h f)
    ∙ ap (λ o. if bytes_beq a e.address then some 0 else shift o)
        (index_of-skip a (body e) t f.clear)

-- The search in a text of which the part before the entries has been searched.
inode_from-entries :
    (a p : Bytes) (es : List Entry)
    → spaceless a ≡ true
    → 86 < length p
    → All Formed es
    → inode_from
        (p ++ print_entries es)
        (shift_by (length p) (index_of (pattern a) (print_entries es)))
      ≡ some (inode_of a es)
unfolding index_of
inode_from-entries a p [] h long f =
    ap (inode_from (p ++ [])) (shift_by-none (length p))
    ∙ inode_from-missing (p ++ []) (omega (arith, length-append p []))
inode_from-entries a p (e ∷ es) h long (f, fs) =
    let t = print_entries es in
    let found = index_of-entry a e t h f in
    elim (Bool-cases (bytes_beq a e.address)) [
      | inl same ↦
          rw (found, same, shift_by-some (length p), entry-lead e t) (inode_from-entry p e t f)
      | inr other ↦
          let p' = p ++ b':' ∷ body e in
          let o = index_of (pattern a) t in
          ap (λ b. inode_from (p ++ b':' ∷ (body e ++ t)) (shift_by (length p) b))
            (found ∙ ap (λ b. if b then some 0 else shift_by (length (b':' ∷ body e)) o) other)
          ∙ ap (inode_from (p ++ b':' ∷ (body e ++ t))) (shift_by-append p (b':' ∷ body e) o)
          ∙ ap (λ s. inode_from s (shift_by (length p') o)) (sym (append_assoc p (b':' ∷ body e) t))
          ∙ inode_from-entries a p' es h (omega (arith, length-append p (b':' ∷ body e))) fs
          ∙ ap (λ b. some (if b then e.inode else inode_of a es)) (sym other)
    ]

-- For an address of a port and four octets, and a table of a header and entries, of the form that
-- the kernel gives them: the search goes through without a panic and finds the inode of the first
-- entry with that local address, or the empty text if there is none. A colon before a space stands
-- nowhere but before an entry's local address, an address with the fields after it is 84 bytes
-- long, neither the address nor the inode has a space in it, something follows the inode's space,
-- and the header is longer than 86 bytes.
pub find_tcp_inode-entries :
    (address a header : Bytes) (es : List Entry)
    → hex_address address ≡ some a
    → unmarked header ≡ true
    → 86 < length header
    → All Formed es
    → find_tcp_inode (some (header ++ print_entries es)) address ≡ some (inode_of a es)
unfolding find_tcp_inode search_table
find_tcp_inode-entries address a header es e h long f =
    let plain : Spaceless (some a) = subst Spaceless e (hex_address-Spaceless address) in
    rw (find_tcp_inode, e)
      (ap (inode_from (header ++ print_entries es)) (index_of-skip a header (print_entries es) h)
        ∙ inode_from-entries a header es plain long f)
