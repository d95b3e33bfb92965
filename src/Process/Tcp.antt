-- ===== src/Process/Tcp.antt =====
-- pkg/process/proc.go: FindTCPInodeFromAddress, over the text of /proc/net/tcp. `none` is a panic:
-- an index or a slice out of range. The numbers of an address have no sign.
use lambda_runtime_api_daemo.Base.{
  ℕ, zero, suc, ◌+◌, ◌-◌, ◌/◌, ◌%◌, ◌&&◌, Option, none, some, List, [], ◌∷◌, ◌++◌, ltb, leb,
  nat_beq, if◌then◌else◌, nat_eq, length, Bytes, bytes_eq, atoi, split_on, shift, index_of,
}

-- The upper case hexadecimal digits of n; n + 1 rounds are enough.
abbrev pub hex_digit : ℕ → ℕ
hex_digit n = if ltb n 10 then 48 + n else 55 + n

abbrev pub hex_fuel : ℕ → ℕ → Bytes
hex_fuel zero n = []
hex_fuel (suc f) n =
    let rest = hex_fuel f (n / 16) in
    if ltb n 16 then hex_digit n ∷ [] else rest ++ hex_digit (n % 16) ∷ []

abbrev pub zeros : ℕ → Bytes → Bytes
zeros zero s = s
zeros (suc n) s = b'0' ∷ zeros n s

-- The formats %02X and %04X.
unfoldable pub hex_padded : ℕ → ℕ → Bytes
hex_padded width n = let s = hex_fuel (suc n) n in zeros (width - length s) s

-- Atoi, with its error dropped.
abbrev pub atoi_or_zero : Bytes → ℕ
atoi_or_zero s = elim (atoi s) [ none ↦ 0 | some n ↦ n ]

abbrev pub hex_octets : List Bytes → Option Bytes
hex_octets (a ∷ b ∷ c ∷ d ∷ _) = some (
    hex_padded 2 (atoi_or_zero d)
    ++ (hex_padded 2 (atoi_or_zero c)
        ++ (hex_padded 2 (atoi_or_zero b) ++ hex_padded 2 (atoi_or_zero a))))
hex_octets _ = none

abbrev pub with_port : Bytes → Option Bytes → Option Bytes
with_port port none = none
with_port port (some ip) = some (ip ++ b':' ∷ hex_padded 4 (atoi_or_zero port))

unfoldable pub hex_host_port : List Bytes → Option Bytes
unfolding split_on
hex_host_port (host ∷ port ∷ _) = with_port port (hex_octets (split_on b'.' host))
hex_host_port _ = none

-- The address as /proc/net/tcp has it: the octets in reverse order.
unfoldable pub hex_address : Bytes → Option Bytes
unfolding split_on hex_host_port
hex_address address = hex_host_port (split_on b':' address)

abbrev pub pattern : Bytes → Bytes
pattern a = b':' ∷ b' ' ∷ (a ++ b' ' ∷ [])

-- bytes.IndexByte.
unfoldable pub index_byte : ℕ → Bytes → Option ℕ
index_byte b [] = none
index_byte b (c ∷ s) = let rest = index_byte b s in if nat_beq c b then some 0 else shift rest

abbrev pub take : ℕ → Bytes → Bytes
take zero s = []
take (suc n) [] = []
take (suc n) (c ∷ s) = c ∷ take n s

abbrev pub drop : ℕ → Bytes → Bytes
drop zero s = s
drop (suc n) [] = []
drop (suc n) (c ∷ s) = drop n s

-- text[i:j]
abbrev pub slice : Bytes → ℕ → ℕ → Option Bytes
slice text i j = if leb i j && leb j (length text) then some (take (j - i) (drop i text)) else none

-- text[i:len(text)-1]
abbrev pub but_last_from : Bytes → ℕ → Option Bytes
but_last_from text i = if nat_beq (length text) 0 then none else slice text i (length text - 1)

-- The inode of an entry whose field starts at `start`, from the index of the first space after it.
-- With no space the end is before the start, which the slice does not take.
abbrev pub inode_at : Bytes → ℕ → Option ℕ → Option Bytes
inode_at text start none = none
inode_at text start (some n) =
    if ltb (start + n) (length text) then slice text start (start + n) else some []

unfoldable pub inode_found : Bytes → ℕ → Option Bytes → Option Bytes
unfolding index_byte
inode_found text start none = none
inode_found text start (some s) = inode_at text start (index_byte b' ' s)

abbrev pub inode_missing : Option Bytes → Option Bytes
inode_missing none = none
inode_missing (some s) = some []

-- The offset of the inode is added to the index, which is -1 where there is none.
unfoldable pub inode_from : Bytes → Option ℕ → Option Bytes
unfolding inode_found
inode_from text none = inode_missing (but_last_from text 86)
inode_from text (some i) = inode_found text (i + 87) (but_last_from text (i + 87))

unfoldable pub search_table : Option Bytes → Bytes → Option Bytes
unfolding index_of inode_from
search_table none a = some []
search_table (some text) a = inode_from text (index_of (pattern a) text)

unfoldable pub find_tcp_inode : Option Bytes → Bytes → Option Bytes
unfolding hex_address search_table
find_tcp_inode text address = elim (hex_address address) [
  | none ↦ none
  | some a ↦ search_table text a
]
