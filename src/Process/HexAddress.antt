-- ===== src/Process/HexAddress.antt =====
-- The addresses of /proc/net/tcp have no spaces in them.
use lambda_runtime_api_daemo.Base.{
  ℕ, zero, suc, ◌-◌, ◌/◌, ◌%◌, ◌≡◌, refl, Bool, true, not, ◌&&◌, Option, none, some, List, [], ◌∷◌,
  ◌++◌, arith, nat_beq, nat_eq, length, Bytes, bytes_eq, split_on,
}
use lambda_runtime_api_daemo.Process.Tcp.{
  hex_digit, hex_fuel, zeros, hex_padded, atoi_or_zero, hex_octets, with_port, hex_host_port,
  hex_address,
}

abbrev pub spaceless : Bytes → Bool
spaceless [] = true
spaceless (c ∷ s) = not (nat_beq c b' ') && spaceless s

spaceless-append :
    (a b : Bytes) → spaceless a ≡ true → spaceless b ≡ true → spaceless (a ++ b) ≡ true
spaceless-append [] b h k = k
spaceless-append (c ∷ a) b h k = ground (arith, h, spaceless-append a b)

spaceless-hex_fuel : (f n : ℕ) → spaceless (hex_fuel f n) ≡ true
spaceless-hex_fuel zero n = refl
spaceless-hex_fuel (suc f) n = ground (
  arith,
  spaceless-append (hex_fuel f (n / 16)) (hex_digit (n % 16) ∷ []) (spaceless-hex_fuel f (n / 16)),
)

spaceless-zeros : (n : ℕ) (s : Bytes) → spaceless s ≡ true → spaceless (zeros n s) ≡ true
spaceless-zeros zero s h = h
spaceless-zeros (suc n) s h = spaceless-zeros n s h

spaceless-hex_padded : (width n : ℕ) → spaceless (hex_padded width n) ≡ true
unfolding hex_padded
spaceless-hex_padded width n =
    spaceless-zeros (width - length (hex_fuel (suc n) n)) (hex_fuel (suc n) n)
      (spaceless-hex_fuel (suc n) n)

-- Where it is some text, it has no space.
abbrev pub Spaceless : Option Bytes → Type 0
Spaceless none = Unit
Spaceless (some a) = spaceless a ≡ true

abbrev octet_text : Bytes → Bytes
octet_text s = hex_padded 2 (atoi_or_zero s)

octet : (s : Bytes) → spaceless (octet_text s) ≡ true
octet s = spaceless-hex_padded 2 (atoi_or_zero s)

hex_octets-Spaceless : (parts : List Bytes) → Spaceless (hex_octets parts)
hex_octets-Spaceless [] = tt
hex_octets-Spaceless (a ∷ []) = tt
hex_octets-Spaceless (a ∷ b ∷ []) = tt
hex_octets-Spaceless (a ∷ b ∷ c ∷ []) = tt
hex_octets-Spaceless (a ∷ b ∷ c ∷ d ∷ _) =
    spaceless-append (octet_text d) (octet_text c ++ (octet_text b ++ octet_text a)) (octet d) (
      spaceless-append (octet_text c) (octet_text b ++ octet_text a) (octet c)
        (spaceless-append (octet_text b) (octet_text a) (octet b) (octet a)))

with_port-Spaceless : (port : Bytes) (o : Option Bytes) → Spaceless o → Spaceless (with_port port o)
with_port-Spaceless port none h = tt
with_port-Spaceless port (some ip) h =
    spaceless-append ip (b':' ∷ hex_padded 4 (atoi_or_zero port)) h
      (spaceless-hex_padded 4 (atoi_or_zero port))

hex_host_port-Spaceless : (parts : List Bytes) → Spaceless (hex_host_port parts)
unfolding hex_host_port
hex_host_port-Spaceless [] = tt
hex_host_port-Spaceless (host ∷ []) = tt
hex_host_port-Spaceless (host ∷ port ∷ _) =
    with_port-Spaceless port (hex_octets (split_on b'.' host))
      (hex_octets-Spaceless (split_on b'.' host))

pub hex_address-Spaceless : (address : Bytes) → Spaceless (hex_address address)
unfolding hex_address
hex_address-Spaceless address = hex_host_port-Spaceless (split_on b':' address)
